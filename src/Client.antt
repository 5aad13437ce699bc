-- ===== src/Client.antt =====
-- src/quicsy_client.cc and include/quicsy/client.h: the QUIC and HTTP/3 client.
pub mod Write
pub mod Events
pub mod Sent
pub mod Ends
pub mod Params
pub mod Download
pub mod Uri
pub mod Requests
pub mod Received
pub mod Tests
