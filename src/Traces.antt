-- ===== src/Traces.antt =====
-- The extraction of workload traces (real-time-workloads).
pub mod Google
pub mod Events
pub mod Extract
pub mod Subset
