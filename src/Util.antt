-- ===== src/Util.antt =====
-- src/util.cc and include/quicsy/util.h: the helpers that client and server share.
pub mod Number
pub mod Units
pub mod Hex
pub mod Base64
pub mod CaseCmp
pub mod Mime
pub mod Tests
pub mod Duration
