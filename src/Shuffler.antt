-- ===== src/Shuffler.antt =====
-- cpp/src/shuffler and cpp/include/rapidsmpf/shuffler.
pub mod Finish
pub mod Chunk
pub mod Inbox
pub mod Outbox
pub mod Progress
