-- ===== src/Analysis/RunIndex.antt =====
-- scripts/aggregate_results.py, the loop over the metrics files: the row of a run in run_index.csv. A value
-- of a JSON document is a cell as `csv` writes it, and None is an empty cell.
use scheduler_simulator.Prelude.{
  List, [], ◌∷◌, map, String, codes, Option, none, some, pos, length, Dict, lookup,
}
use scheduler_simulator.Python.{
  Result, ok, ◌>>=◌, Value, null, int, float, text, list, nil, get_or, iterate, to_int, to_text,
}
use scheduler_simulator.Analysis.Cells.{Floats, Cell, Row, int_cell, float_cell, text_of, word_cell}
use scheduler_simulator.Analysis.Experiments.{join, experiments_column}
use scheduler_simulator.Analysis.Metrics.{RunInfo}
use scheduler_simulator.Analysis.Runs.{ExecMeta, MetricsFile, or_empty, summary_of, same_run}

abbrev pub run_index_fields : List String
run_index_fields =
    "BenchmarkVersion" ∷ "SuiteId" ∷ "RunId" ∷ "MetricsSchemaVersion" ∷ "MetricsPath" ∷ "TasksPath"
    ∷ "ManifestPath" ∷ "ExecutionSummaryPath" ∷ "ExecutionStatus" ∷ "ExecutionLogPath"
    ∷ "Experiments" ∷ "Rows" ∷ "Replications" ∷ "NumTasks" ∷ "Cores" ∷ "StopTime" ∷ "Topologies"
    ∷ "Balancers" ∷ "WorkStealingValues" ∷ "Schedulers" ∷ "Workloads" ∷ "ManifestGitCommit"
    ∷ "ManifestGeneratedAtUtc" ∷ []

module _ {F : Type 0} (A : Floats F) where
  open A use {runtime}

  unfoldable pub value_cell : Value F → Cell F
  value_cell null = text_of none
  value_cell (int n) = int_cell n
  value_cell (float x) = float_cell x
  value_cell v = word_cell (to_text runtime v)

  -- list_join(run_summary.get(k, []))
  unfoldable pub list_join : (k : String) → (run_summary : Value F) → Result (Cell F)
  list_join k run_summary = do
    found ← get_or k run_summary (list nil)
    values ← iterate found
    ok (word_cell (join (codes ";") (map (to_text runtime) values)))

  -- exec_meta.get(…, ""), which is empty for a run without an execution summary
  abbrev pub of_meta : (ExecMeta F → Cell F) → Option (ExecMeta F) → Cell F
  of_meta f none = word_cell []
  of_meta f (some exec_meta) = f exec_meta

  unfoldable pub run_index_row :
      Dict (Value F × Value F) (ExecMeta F) → MetricsFile F → RunInfo → Result (Row F)
  run_index_row execution_idx file info = do
    run_summary ← summary_of A file.manifest file.raw_rows
    let exec_meta = lookup (same_run A) (text info.suite_id, text info.run_id) execution_idx
    found ← get_or "rows" run_summary (int (pos (length file.raw_rows)))
    rows ← to_int runtime found
    replications ← list_join "replications" run_summary
    num_tasks ← list_join "num_tasks" run_summary
    cores ← list_join "cores" run_summary
    stop_time ← list_join "stop_time" run_summary
    topologies ← list_join "topologies" run_summary
    balancers ← list_join "balancers" run_summary
    work_stealing_values ← list_join "work_stealing_values" run_summary
    schedulers ← list_join "schedulers" run_summary
    workloads ← list_join "workloads" run_summary
    git_commit ← get_or "git_commit" (or_empty A file.manifest) (text [])
    generated_at_utc ← get_or "generated_at_utc" (or_empty A file.manifest) (text [])
    ok (
        ("BenchmarkVersion", word_cell info.benchmark_version)
        ∷ ("SuiteId", word_cell info.suite_id)
        ∷ ("RunId", word_cell info.run_id)
        ∷ ("MetricsSchemaVersion", word_cell info.schema_version)
        ∷ ("MetricsPath", word_cell info.source_file)
        ∷ ("TasksPath", word_cell file.tasks_path)
        ∷ ("ManifestPath", word_cell file.manifest_path)
        ∷ ("ExecutionSummaryPath", of_meta (λ m. word_cell m.summary_path) exec_meta)
        ∷ ("ExecutionStatus", of_meta (λ m. value_cell m.status) exec_meta)
        ∷ ("ExecutionLogPath", of_meta (λ m. value_cell m.log_path) exec_meta)
        ∷ ("Experiments", word_cell (experiments_column info.experiment_ids))
        ∷ ("Rows", int_cell rows)
        ∷ ("Replications", replications)
        ∷ ("NumTasks", num_tasks)
        ∷ ("Cores", cores)
        ∷ ("StopTime", stop_time)
        ∷ ("Topologies", topologies)
        ∷ ("Balancers", balancers)
        ∷ ("WorkStealingValues", work_stealing_values)
        ∷ ("Schedulers", schedulers)
        ∷ ("Workloads", workloads)
        ∷ ("ManifestGitCommit", value_cell git_commit)
        ∷ ("ManifestGeneratedAtUtc", value_cell generated_at_utc)
        ∷ [])
