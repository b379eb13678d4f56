-- ===== src/Utp.antt =====
-- The uTorrent transport protocol, src/utp.
pub mod SeqNr
pub mod Header
pub mod SelectiveAck
pub mod PacketParser
pub mod RemoteWindow
pub mod LocalWindow
