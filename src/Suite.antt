-- ===== src/Suite.antt =====
-- benchmark/runner/run_suite.py: from a suite document to executed run cases.
pub mod Sanitize
pub mod Plan
pub mod Experiments
pub mod Validate
pub mod Ready
pub mod Command
pub mod Execute
pub mod Main
