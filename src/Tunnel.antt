-- ===== src/Tunnel.antt =====
-- The modules below src/tunnel.rs, one child for each.
pub mod Hop
pub mod Encryption
pub mod Participant
pub mod Processor
pub mod Acceptor
pub mod BuildRequest
pub mod Listener
pub mod Fragment
pub mod Frame
