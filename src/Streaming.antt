-- ===== src/Streaming.antt =====
-- streaming: the transcoder (streaming/transcoder.c, of which streaming/tcp_streaming/transcoder.c is
-- a copy).
pub mod Outcome
pub mod Av
pub mod Context
pub mod Setup
pub mod Transcode
pub mod Encoders
pub mod Main
pub mod Tcp
pub mod Tests
