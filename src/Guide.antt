-- ===== src/Guide.antt =====
-- The example programs of doc/guide_mininet/examples and doc/guide_openssl/example.
pub mod RawPacket
pub mod Talk
pub mod Tls
