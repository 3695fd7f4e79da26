-- ===== src/Transport.antt =====
-- src/transport/mod.rs and src/transport/session.rs.
pub mod Session
