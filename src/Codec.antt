-- ===== src/Codec.antt =====
-- The wire formats: the decoder and encoder loops, and the frames of ZMTP 2.0, 3.1 and 1.0 and of the
-- WebSocket transport.
pub mod Decoder
pub mod Storage
pub mod Encoder
pub mod V2
pub mod V31
pub mod V1
pub mod Ws
