-- ===== src/Util.antt =====
-- src/util: the containers that the transfer code keeps its state in.
pub mod Words
pub mod BitSet
pub mod CircularBuffer
