-- ===== src/Tests.antt =====
-- The models run on small inputs, and the theorems applied to them.
mod Samples
mod Plugins
mod Suite
mod Planning
mod Running
mod Traces
mod Spec
mod Numbers
mod Analysis
mod Matching
mod Whole
