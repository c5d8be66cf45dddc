-- ===== src/Cli.antt =====
-- cli/eloquence.c: the command line program.
pub mod Capture
pub mod Wav
pub mod Input
pub mod Program
