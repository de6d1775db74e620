-- ===== src/Resp.antt =====
-- src/resp.rs: the reply type and the wire protocol.
pub mod Frame
pub mod Encode
pub mod Parse
mod Tests
