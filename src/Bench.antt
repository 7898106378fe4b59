-- ===== src/Bench.antt =====
-- The benchmarks of bench.
pub mod Eval
