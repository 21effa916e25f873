-- ===== src/Examples.antt =====
-- Concrete runs of the components, and each property at a concrete input.
mod ShufflerRuns
mod MemoryRuns
mod ProgressRuns
mod ThreadRuns
mod MessageRuns
mod CollRuns
mod GatherRuns
mod ExchangeRuns
mod ReduceRuns
mod ReserveRuns
mod ConfigRuns
