-- ===== src/Lib.antt =====
-- The benchmark tooling of the scheduler simulator: the Python programs around the simulator binary.
-- A suite specification (JSON) names experiments, each a list of runs. The suite runner validates
-- it against a registry of scheduler and workload plugins, turns the selected experiments into a
-- plan of numbered cases without repetitions, and starts the binary once for each case. The analysis
-- scripts read the metrics and the tasks that the runs have written, and derive tables from them.
--
-- Prelude and its children: texts as lists of character codes, decimal numerals, integers over the
--   native natural numbers, association lists, sorted sets, splitting of texts.
-- Python: what Python does with the values of a parsed JSON document (indexing, `get`, `in`, `int`,
--   `float`, `str`, truth), with the exceptions that these raise. `Runtime` holds what depends on
--   floating point numbers and on the printing of values, and is a parameter of all models.
-- Plugins/Table, Plugins/Registry: benchmark/plugins/registry.py. `register` is
--   `register_scheduler` and `register_workload`, which differ in the dictionaries they change
--   only. Table/Laws is about well-formed tables, Table/Names about what names resolve to,
--   Table/AboutAlias and Table/Errors about registrations that raise.
-- Plugins/Builtins: benchmark/plugins/builtins.py.
-- Plugins/Loader: benchmark/plugins/loader.py. The file system and the import of a plugin file are
--   parameters. Loader/Order is about the order of the files and what ends the loading.
-- Suite: benchmark/runner/run_suite.py. Suite/Sanitize is `sanitize_id`, Suite/Validate
--   `validate_suite`, Suite/Experiments `pick_experiments`, Suite/Plan `run_key` and
--   `build_run_plan`, Suite/Command `build_command` and Suite/Execute `execute_plan`. Plan/Steps
--   describes a plan as a sequence of steps, each of which merges a run into a case or adds a case;
--   Plan/Numbering, Plan/Dedupe and Plan/Coverage follow from it by induction. Suite/Ready joins
--   the validator to the planner. Suite/Main is `main` with `load_suite`.
-- Spec: scripts/validate_benchmark_spec.py. `validate_spec_x` is its `validate_x` where the suite
--   runner has a function of the same name.
-- Traces: real-time-workloads/google_v3/extract_google_v3.py. Traces/Google has the nice values and
--   the weights, Traces/Events the reading and the matching of events, Traces/Extract the loop over
--   the tasks, the sorting and the normalization. Traces/Subset is `main` of
--   real-time-workloads/alibaba_v2018/make_subset.py, with the random draws as a parameter. The
--   division of a priority raises OverflowError from 2 ^ 1024 - 2 ^ 970 on, where a double ends.
-- Analysis: scripts/aggregate_results.py, a script whose loops are functions here. Discovery is
--   `discover_paths`, given the files; Cells has the rows of CSV files, the conversions and the
--   statistics over `Floats`, which holds the operations on floating point numbers and is a
--   parameter; Grouping is the dictionaries of lists and of totals; Digits
--   and Experiments `experiment_flags` and `topology_variant`, where a digit is one of Unicode 14; Output `write_csv` and `write_rows`; Metrics, Quality and Duplicates
--   the loop over the metrics files and the checks in it; Tasks the rows of the tasks files;
--   Allocation, NiceBuckets and Characteristics the loop over their runs; Fairness the join of the
--   last table; SuiteSpecs `list_suite_specs`, with the depth of calls that Python allows as its
--   fuel; Matching `run_def_matches_summary` and `infer_experiments_from_spec`; Runs what the loop
--   finds out of a run before its rows; RunIndex the row of a run in run_index.csv; Main the loops
--   and what they write. Main/Keys and Main/RunTables have the columns of each table. Squares,
--   standard deviations and the rows of run_index.csv may raise, and their callers pass this on. A row of an output is an association list in the order of its
--   columns.
-- Summary: scripts/export_summary_table.py, which reads the table of the metrics again.
-- Manifests: scripts/generate_run_manifests.py, `numeric_set` and `build_manifest`.
-- Tests: the models at small inputs.
--
-- Conventions. A dictionary of the source that refers to entries of the plan holds their positions,
-- since the source shares the entry objects between `plan` and `dedup_map`. A run key that is a
-- dictionary key must be hashable, and is compared as Python compares tuples. All loops of the
-- modelled code go over finite lists, so they are structural recursion; the only fuel is the depth
-- of calls in `resolved_runs`, where running out is the RecursionError of the source. The simulator
-- process is a function that gives a return code for each command.
--
-- Not modelled: the simulator itself (C++), the parsing of arguments, of JSON and of CSV, the
-- listing of folders, the writing of logs and of files, dataset_summary.txt, and the plotting under
-- scripts and benchmark/report. A file that is written before an exception is not part of a result.
-- The limit on the digits that `int` reads is not modelled.
pub mod Prelude
pub mod Python
pub mod Plugins
pub mod Suite
pub mod Analysis
pub mod Summary
pub mod Manifests
pub mod Spec
pub mod Traces
pub mod Tests
