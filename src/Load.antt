-- ===== src/Load.antt =====
-- internal/loadtest: the bounds of a load, its workers, and what is reported of it. The requests and the
-- reading of the counters are I/O; the rates in floating point are left out.
pub mod Phase
pub mod Ends
pub mod Report
pub mod Counts
