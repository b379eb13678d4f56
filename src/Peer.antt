-- ===== src/Peer.antt =====
-- src/peer: what a connection to a peer is made of.
pub mod PacketReader
pub mod ChunkCounter
pub mod Availability
pub mod ConnectionLimit
