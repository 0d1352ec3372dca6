-- ===== src/Tests/Whole.antt =====
-- The whole analysis of one metrics file and one tasks file.
use scheduler_simulator.Prelude.{[], ◌∷◌, codes, ℤ, some}
use scheduler_simulator.Python.{null}
use scheduler_simulator.Analysis.Metrics.{RunInfo}
use scheduler_simulator.Analysis.Runs.{MetricsFile}
use scheduler_simulator.Analysis.Tasks.{TasksFile}
use scheduler_simulator.Tests.Numbers.{lines}

abbrev metrics_file : MetricsFile ℤ
metrics_file = record {
  source = codes "runs/s/r/metrics.csv";
  suite_folder = codes "s";
  run_folder = codes "r";
  manifest = null;
  raw_rows = lines;
  tasks_path = codes "runs/s/r/tasks.csv";
  manifest_path = [];
}

abbrev found : RunInfo
found = record {
  benchmark_version = codes "v1";
  schema_version = codes "metrics.v2";
  suite_id = codes "s";
  run_id = codes "r";
  source_file = codes "runs/s/r/metrics.csv";
  experiment_ids = [];
}

abbrev tasks_file : TasksFile
tasks_file = record {
  source = codes "runs/s/r/tasks.csv";
  suite_folder = codes "s";
  run_folder = codes "r";
  raw_rows = ((codes "Nice", some (codes "5")) ∷ []) ∷ [];
}
