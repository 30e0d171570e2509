-- ===== src/Tls.antt =====
-- src/tls.rs: the certificates of TLS and DTLS, their cache and their updates.
pub mod Pem
pub mod Cache
pub mod Load
pub mod Holds
pub mod Cached
mod Tests
