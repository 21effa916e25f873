-- ===== src/Streaming.antt =====
-- The streaming engine: cpp/src/streaming.
pub mod Reserve
