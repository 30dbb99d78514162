-- ===== src/WebSocket/Reassembly.antt =====
-- `ReceiveTextMessage` on the frames of a server: a message that comes in pieces, with pings and
-- pongs between them, is returned whole.
pub mod Receive
pub mod Events
pub mod Messages
