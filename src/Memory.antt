-- ===== src/Memory.antt =====
-- cpp/src/memory and cpp/include/rapidsmpf/memory: accounting, reservations and spilling.
pub mod Types
pub mod Resource
pub mod Buffer
pub mod Record
pub mod Spill
pub mod Adaptor
