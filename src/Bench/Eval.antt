-- ===== src/Bench/Eval.antt =====
-- bench/eval: the evaluation harness.
pub mod Types
pub mod Scoring
pub mod Select
pub mod Aggregate
pub mod Run
pub mod Bootstrap
pub mod Baseline
pub mod Compare
mod Best
mod Rule
mod Sound
mod Tests
