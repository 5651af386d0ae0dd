-- ===== src/Scripts.antt =====
-- The operator's scripts, as far as they compute: the benchmark, the agent's property list, and the
-- check for a squatted port.
pub mod Benchmark
pub mod Plist
pub mod Squat
