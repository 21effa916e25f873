-- ===== src/Coll.antt =====
-- The collectives: cpp/src/coll.
pub mod Chunk
pub mod PostBox
pub mod SparseAlltoall
pub mod AllGather
pub mod AllReduce
