-- ===== src/Analysis.antt =====
-- scripts/aggregate_results.py, which derives the analysis tables from the files of the runs, and
-- scripts/export_summary_table.py, which condenses one of them.
pub mod Cells
pub mod Grouping
pub mod Digits
pub mod Experiments
pub mod Output
pub mod Metrics
pub mod Quality
pub mod Duplicates
pub mod Tasks
pub mod Allocation
pub mod NiceBuckets
pub mod Characteristics
pub mod Fairness
pub mod SuiteSpecs
pub mod Matching
pub mod Runs
pub mod RunIndex
pub mod Main
pub mod Discovery
