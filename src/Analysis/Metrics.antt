-- ===== src/Analysis/Metrics.antt =====
-- scripts/aggregate_results.py, the loop over the metrics files: the row that is made of each line.
pub mod Written
use scheduler_simulator.Prelude.{
  Bool, true, false, List, [], ◌∷◌, ◌++◌, String, Text, codes, text_eq, if◌then◌else◌, Option, none,
  some,
}
use scheduler_simulator.Analysis.Cells.{
  Cell, float_cell, Floats, CsvRow, float_cell, word_cell, Row, cell, text_cell, to_int,
  safe_div_int, float_at, int_at, text_at,
}
use scheduler_simulator.Analysis.Experiments.{
  topology_variant, experiment_flags, experiments_column,
}
use scheduler_simulator.Analysis.Output.{named_flags, flag_names}

-- What the loop knows of a file: the ids from its first line, its manifest or its folder, its path
-- below the root, and the experiments that the run belongs to.
pub record RunInfo : Type 0 where
  pub benchmark_version : Text
  pub schema_version : Text
  pub suite_id : Text
  pub run_id : Text
  pub source_file : Text
  pub experiment_ids : List Text

-- scheduler in {…}, for a set of texts
unfoldable pub one_of : List String → Option Text → Bool
one_of [] t = false
one_of ss none = false
one_of (s ∷ ss) (some t) = if text_eq t (codes s) then true else one_of ss (some t)

abbrev pub fairness_oriented : List String
fairness_oriented = "CFS" ∷ "EEVDF" ∷ "Stride" ∷ []

abbrev pub scheduler_class : Option Text → Text
scheduler_class scheduler =
    if one_of fairness_oriented scheduler then codes "fairness_oriented" else codes "alternative"

abbrev pub workload_type : Option Text → Text
workload_type workload =
    if one_of ("Server" ∷ "Desktop" ∷ []) workload then codes "synthetic" else codes "real_trace"

module _ {F : Type 0} (A : Floats F) where
  -- safe_div of a counter and the completed tasks
  unfoldable pub per_task : String → CsvRow → Cell F
  per_task k raw =
      float_cell (safe_div_int A (to_int A (cell k raw)) (to_int A (cell "Completed" raw)))

  unfoldable pub metrics_row : RunInfo → CsvRow → Row F
  metrics_row info raw =
      ("BenchmarkVersion", word_cell info.benchmark_version)
      ∷ ("SchemaVersion", word_cell info.schema_version)
      ∷ ("SuiteId", word_cell info.suite_id)
      ∷ ("RunId", word_cell info.run_id)
      ∷ ("Seed", int_at A "Seed" raw)
      ∷ ("SourceFile", word_cell info.source_file)
      ∷ ("Replication", int_at A "Replication" raw)
      ∷ ("NumTasks", int_at A "NumTasks" raw)
      ∷ ("Cores", int_at A "Cores" raw)
      ∷ ("Topology", text_at A "Topology" raw)
      ∷ ("Balancer", text_at A "Balancer" raw)
      ∷ ("WorkStealing", text_at A "WorkStealing" raw)
      ∷ ("StopTime", float_at A "StopTime" raw)
      ∷ ("Scheduler", text_at A "Scheduler" raw)
      ∷ ("SchedulerClass", word_cell (scheduler_class (text_cell "Scheduler" raw)))
      ∷ ("Workload", text_at A "Workload" raw)
      ∷ ("WorkloadType", word_cell (workload_type (text_cell "Workload" raw)))
      ∷ (
        "TopologyVariant",
        word_cell (
            topology_variant (text_cell "Topology" raw) (text_cell "Balancer" raw)
              (text_cell "WorkStealing" raw) (to_int A (cell "Cores" raw))),
      )
      ∷ ("ExperimentIds", word_cell (experiments_column info.experiment_ids))
      ∷ (named_flags flag_names (experiment_flags info.experiment_ids)
          ++ ("Completed", int_at A "Completed" raw)
            ∷ ("CompletionRatio", float_at A "CompletionRatio" raw)
            ∷ ("MeanRT", float_at A "MeanRT" raw)
            ∷ ("P95RT", float_at A "P95RT" raw)
            ∷ ("P99RT", float_at A "P99RT" raw)
            ∷ ("MeanTAT", float_at A "MeanTAT" raw)
            ∷ ("MeanWT", float_at A "MeanWT" raw)
            ∷ ("Throughput", float_at A "Throughput" raw)
            ∷ ("ThroughputPerCore", float_at A "ThroughputPerCore" raw)
            ∷ ("Utilization", float_at A "Utilization" raw)
            ∷ ("JainsFairness", float_at A "JainsFairness" raw)
            ∷ ("ContextSwitches", int_at A "ContextSwitches" raw)
            ∷ ("Preemptions", int_at A "Preemptions" raw)
            ∷ ("ContextSwitchesPerTask", per_task "ContextSwitches" raw)
            ∷ ("PreemptionsPerTask", per_task "Preemptions" raw)
            ∷ [])

  unfoldable pub metrics_rows : RunInfo → List CsvRow → List (Row F)
  metrics_rows info [] = []
  metrics_rows info (raw ∷ raw_rows) = metrics_row info raw ∷ metrics_rows info raw_rows

abbrev pub metrics_out_fields : List String
metrics_out_fields =
    "BenchmarkVersion" ∷ "SchemaVersion" ∷ "SuiteId" ∷ "RunId" ∷ "Seed" ∷ "SourceFile"
    ∷ "Replication" ∷ "NumTasks" ∷ "Cores" ∷ "Topology" ∷ "Balancer" ∷ "WorkStealing" ∷ "StopTime"
    ∷ "Scheduler" ∷ "SchedulerClass" ∷ "Workload" ∷ "WorkloadType" ∷ "TopologyVariant"
    ∷ "ExperimentIds" ∷ "Exp1" ∷ "Exp2" ∷ "Exp3" ∷ "Exp4" ∷ "Exp5" ∷ "Exp6" ∷ "Completed"
    ∷ "CompletionRatio" ∷ "MeanRT" ∷ "P95RT" ∷ "P99RT" ∷ "MeanTAT" ∷ "MeanWT" ∷ "Throughput"
    ∷ "ThroughputPerCore" ∷ "Utilization" ∷ "JainsFairness" ∷ "ContextSwitches" ∷ "Preemptions"
    ∷ "ContextSwitchesPerTask" ∷ "PreemptionsPerTask" ∷ []
