-- ===== src/Analysis/Tasks.antt =====
-- scripts/aggregate_results.py: the rows of the tasks files, and the tasks of each run.
use scheduler_simulator.Prelude.{
  Text, codes, if◌then◌else◌, List, [], ◌∷◌, String, some, Dict, none,
}
use scheduler_simulator.Python.{default_to}
use scheduler_simulator.Analysis.Cells.{
  Floats, CsvRow, Cell, Row, cell, shown, full_cell, word_cell, float_at, int_at, text_at, key_of,
  same_cells,
}
use scheduler_simulator.Analysis.Grouping.{group_by}

-- str(raw.get(k) or name)
unfoldable pub id_or_name : String → CsvRow → Text → Text
id_or_name k raw name =
    let found = cell k raw in if full_cell found then shown (default_to found none) else name

-- str(raw.get(k, d))
unfoldable pub shown_or : String → String → CsvRow → Text
shown_or k d raw = shown (default_to (cell k raw) (some (codes d)))

-- Where a tasks file lies: below the root, and the names of its folder and of the folder above.
pub record TasksFile : Type 0 where
  pub source : Text
  pub suite_folder : Text
  pub run_folder : Text
  pub raw_rows : List CsvRow

module _ {F : Type 0} (A : Floats F) where
  unfoldable pub task_row : TasksFile → CsvRow → Row F
  task_row file raw =
      ("SourceFile", word_cell file.source)
      ∷ ("BenchmarkVersion", word_cell (shown_or "BenchmarkVersion" "unknown" raw))
      ∷ ("SchemaVersion", word_cell (shown_or "SchemaVersion" "tasks.v2" raw))
      ∷ ("SuiteId", word_cell (id_or_name "SuiteId" raw file.suite_folder))
      ∷ ("RunId", word_cell (id_or_name "RunId" raw file.run_folder))
      ∷ ("Seed", int_at A "Seed" raw)
      ∷ ("Replication", int_at A "Replication" raw)
      ∷ ("NumTasks", int_at A "NumTasks" raw)
      ∷ ("Cores", int_at A "Cores" raw)
      ∷ ("Topology", text_at A "Topology" raw)
      ∷ ("Balancer", text_at A "Balancer" raw)
      ∷ ("WorkStealing", text_at A "WorkStealing" raw)
      ∷ ("StopTime", float_at A "StopTime" raw)
      ∷ ("Scheduler", text_at A "Scheduler" raw)
      ∷ ("Workload", text_at A "Workload" raw)
      ∷ ("TaskID", int_at A "TaskID" raw)
      ∷ ("Nice", int_at A "Nice" raw)
      ∷ ("Weight", float_at A "Weight" raw)
      ∷ ("Arrival", float_at A "Arrival" raw)
      ∷ ("Execution", float_at A "Execution" raw)
      ∷ ("AllocatedCPU", float_at A "AllocatedCPU" raw)
      ∷ ("Remaining", float_at A "Remaining" raw)
      ∷ ("Started", int_at A "Started" raw)
      ∷ ("Completed", int_at A "Completed" raw)
      ∷ ("StartTime", float_at A "StartTime" raw)
      ∷ ("CompletionTime", float_at A "CompletionTime" raw)
      ∷ ("ResponseTime", float_at A "ResponseTime" raw)
      ∷ ("TurnaroundTime", float_at A "TurnaroundTime" raw)
      ∷ ("WaitTime", float_at A "WaitTime" raw)
      ∷ ("PreemptionCount", int_at A "PreemptionCount" raw)
      ∷ []

  unfoldable pub task_rows_onto : TasksFile → List CsvRow → List (Row F) → List (Row F)
  task_rows_onto file [] rest = rest
  task_rows_onto file (raw ∷ raws) rest = task_row file raw ∷ task_rows_onto file raws rest

  unfoldable pub task_rows : List TasksFile → List (Row F)
  task_rows [] = []
  task_rows (file ∷ files) = task_rows_onto file file.raw_rows (task_rows files)

abbrev pub run_key_fields : List String
run_key_fields =
    "SuiteId" ∷ "RunId" ∷ "Seed" ∷ "Replication" ∷ "NumTasks" ∷ "Cores" ∷ "Topology" ∷ "Balancer"
    ∷ "WorkStealing" ∷ "StopTime" ∷ "Scheduler" ∷ "Workload" ∷ []

abbrev pub run_key : {F : Type 0} → Row F → List (Cell F)
run_key row = key_of run_key_fields row

unfoldable pub tasks_by_run :
    {F : Type 0} → Floats F → List (Row F) → Dict (List (Cell F)) (List (Row F))
tasks_by_run A rows = group_by (same_cells A) run_key rows
