-- ===== src/WebSocket.antt =====
-- The WebSocket client: src/WebSocketFrame.cpp, and of src/WebSocketClient.cpp the buffered reads
-- and `ReceiveTextMessage`. A byte is a number below 256; a shift is a product or a quotient by a
-- power of two, with the wrap of `uint64_t` written out.
pub mod Frame
pub mod Client
pub mod Encode
pub mod Reassembly
mod Examples
