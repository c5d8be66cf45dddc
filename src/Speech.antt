-- ===== src/Speech.antt =====
-- spd/sd_eloquence.c: the output module of the speech dispatcher.
pub mod Ssml
pub mod Settings
pub mod Speak
