-- ===== src/Tlv.antt =====
-- The wire format of protocol/TlvMessage.h and protocol/TlvMessage.cpp.
pub mod MsgType
pub mod TlvType
pub mod MsgFlags
pub mod Message
pub mod Builder
pub mod Frame
pub mod Parse
pub mod Accept
pub mod Fields
pub mod Build
pub mod Total
mod Runs
