-- ===== src/Manifests.antt =====
-- scripts/generate_run_manifests.py: the manifest that is written beside the metrics of a run. The
-- clock, the commit and the checksums are parameters.
use scheduler_simulator.Prelude.{
  if◌then◌else◌, List, [], ◌∷◌, String, Text, codes, Option, none, some, sorted_set, pos, length,
}
use scheduler_simulator.Python.{
  Result, ok, err, value_error, default_to, Value, null, text, int, float, list, dict, Items, nil,
  cons, end, field,
}
use scheduler_simulator.Analysis.Cells.{Floats, CsvRow, cell, full_cell, shown}

-- What the files and the surroundings of a run give.
pub record RunFiles : Type 0 where
  pub metrics_csv : Text
  pub metrics_stem : Text
  pub metrics_sha256 : Text
  -- the path and the checksum of tasks.csv, if the file exists
  pub tasks : Option (Text × Text)
  pub generated_at_utc : Text
  pub git_commit : Text

module _ {F : Type 0} where
  abbrev pub optional_text : Option Text → Value F
  optional_text none = null
  optional_text (some t) = text t

  -- first.get(k, d)
  unfoldable pub metadata : String → Text → CsvRow → Value F
  metadata k d first = optional_text (default_to (cell k first) (some d))

  abbrev pub number_list : List F → Items F
  number_list [] = nil
  number_list (x ∷ xs) = cons (float x) (number_list xs)

  abbrev pub text_items : List Text → Items F
  text_items [] = nil
  text_items (t ∷ ts) = cons (text t) (text_items ts)

  abbrev pub text_list : List Text → Value F
  text_list ts = list (text_items ts)

-- {r.get(k, "") for r in rows if r.get(k)}, before it is sorted
unfoldable pub present_texts : String → List CsvRow → List Text
present_texts k [] = []
present_texts k (row ∷ rows) =
    let rest = present_texts k rows in
    let found = cell k row in if full_cell found then shown (default_to found none) ∷ rest else rest

module _ {F : Type 0} (A : Floats F) where
  open A use {runtime, parse, lt}
  open runtime use {same_float}

  -- sorted(set(xs)), for numbers that are no NaN and with one zero
  unfoldable pub add_number : F → List F → List F
  add_number x [] = x ∷ []
  add_number x (y ∷ ys) =
      if same_float x y then y ∷ ys else if lt x y then x ∷ y ∷ ys else y ∷ add_number x ys

  unfoldable pub sorted_numbers : List F → List F
  sorted_numbers [] = []
  sorted_numbers (x ∷ xs) = add_number x (sorted_numbers xs)

  -- The number in a cell, if there is one.
  unfoldable pub cell_number : Option (Option Text) → Option F
  cell_number (some (some [])) = none
  cell_number (some (some t)) = parse t
  cell_number _ = none

  -- The values that are collected.
  unfoldable pub numbers_in : String → List CsvRow → List F
  numbers_in k [] = []
  numbers_in k (row ∷ rows) =
      let rest = numbers_in k rows in
      elim (cell_number (cell k row)) [ none ↦ rest | some x ↦ x ∷ rest ]

  unfoldable pub numeric_set : List CsvRow → String → List F
  numeric_set rows k = sorted_numbers (numbers_in k rows)

  unfoldable pub run_summary : List CsvRow → Value F
  run_summary rows = dict (
      field "rows" (int (pos (length rows))) (
        field "replications" (list (number_list (numeric_set rows "Replication"))) (
          field "num_tasks" (list (number_list (numeric_set rows "NumTasks"))) (
            field "cores" (list (number_list (numeric_set rows "Cores"))) (
              field "stop_time" (list (number_list (numeric_set rows "StopTime"))) (
                field "topologies" (text_list (sorted_set (present_texts "Topology" rows))) (
                  field "balancers" (text_list (sorted_set (present_texts "Balancer" rows))) (
                    field "work_stealing_values"
                      (text_list (sorted_set (present_texts "WorkStealing" rows)))
                      (field "schedulers" (text_list (sorted_set (present_texts "Scheduler" rows)))
                        (field "workloads" (text_list (sorted_set (present_texts "Workload" rows)))
                          end))))))))))

  unfoldable pub build_manifest : RunFiles → List CsvRow → Result (Value F)
  build_manifest files [] = err value_error
  build_manifest files (first ∷ rows) = ok (
      dict (
        field "manifest_schema_version" (text (codes "manifest.v1")) (
          field "generated_at_utc" (text files.generated_at_utc) (
            field "git_commit" (text files.git_commit) (
              field "benchmark_metadata"
                (dict (
                  field "benchmark_version" (metadata "BenchmarkVersion" (codes "unknown") first) (
                    field "schema_version" (metadata "SchemaVersion" (codes "metrics.v2") first) (
                      field "suite_id" (metadata "SuiteId" (codes "unknown-suite") first)
                        (field "run_id" (metadata "RunId" files.metrics_stem first) end)))))
                (field "source_files"
                  (dict (
                    field "metrics_csv" (text files.metrics_csv) (
                      field "metrics_sha256" (text files.metrics_sha256) (
                        field "tasks_csv" (optional_text (path_of files.tasks))
                          (field "tasks_sha256" (optional_text (sum_of files.tasks)) end)))))
                  (field "run_summary" (run_summary (first ∷ rows)) end)))))))
    where
      path_of : Option (Text × Text) → Option Text
      path_of none = none
      path_of (some (path, checksum)) = some path

      sum_of : Option (Text × Text) → Option Text
      sum_of none = none
      sum_of (some (path, checksum)) = some checksum
