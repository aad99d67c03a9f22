-- ===== src/Benchmark.antt =====
-- internal/benchmark: the comparison of the routing policies on simulated providers.
pub mod Metrics
pub mod Summary
pub mod Tally
pub mod Percentile
pub mod Scenario
pub mod Player
pub mod Playback
pub mod WellFormed
pub mod Fixture
pub mod Decode
pub mod Runs
