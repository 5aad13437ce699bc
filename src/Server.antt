-- ===== src/Server.antt =====
-- src/quicsy_server.cc and include/quicsy/server.h: the QUIC and HTTP/3 server.
pub mod Dyn
pub mod TxData
pub mod Cids
pub mod Token
pub mod Path
pub mod Response
pub mod Streams
pub mod Conn
pub mod Tests
pub mod Http
