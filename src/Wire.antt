-- ===== src/Wire.antt =====
-- The wire protocol that the shim and the bridge share: include/eci_proto.h, proto/rpc_msg.c.
pub mod Function
pub mod Buffer
pub mod Encode
pub mod Decode
pub mod Header
