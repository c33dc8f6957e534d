-- ===== src/Indexer.antt =====
-- The block indexer (indexer/indexer.go, indexer/config.go): `Config` is its configuration,
-- `State` its data and what it asks of the outside, `Phases` the functions of its state machine,
-- `Machine` its goroutine with `New`, `Start` and `Close`. The other modules prove.
pub mod Config
pub mod State
pub mod Phases
pub mod Machine
pub mod Invariant
pub mod Loop
pub mod Counting
pub mod Range
pub mod Retry
pub mod Start
mod Tests
