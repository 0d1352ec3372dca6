-- ===== src/Analysis/Fairness.antt =====
-- scripts/aggregate_results.py: the rows of the fairness oriented schedulers beside the MLFQ baseline
-- and the characteristics of the workload (fairness_vs_characteristics.csv).
pub mod Join
use scheduler_simulator.Prelude.{
  Bool, if◌then◌else◌, List, [], ◌∷◌, String, Dict, pos, ℤ, lookup, insert, Option, none, some,
}
use scheduler_simulator.Python.{default_to}
use scheduler_simulator.Analysis.Cells.{
  Floats, Cell, Row, column, int_in, float_in, int_cell, float_cell, text_in, key_of, same_cells,
}
use scheduler_simulator.Analysis.Metrics.{one_of, fairness_oriented}
use scheduler_simulator.Analysis.Tasks.{run_key}

-- A run without its scheduler.
abbrev pub baseline_fields : List String
baseline_fields =
    "SuiteId" ∷ "RunId" ∷ "Seed" ∷ "Replication" ∷ "NumTasks" ∷ "Cores" ∷ "Topology" ∷ "Balancer"
    ∷ "WorkStealing" ∷ "StopTime" ∷ "Workload" ∷ []

abbrev pub baseline_key : {F : Type 0} → Row F → List (Cell F)
baseline_key row = key_of baseline_fields row

abbrev pub scheduler_in : {F : Type 0} → List String → Row F → Bool
scheduler_in names row = one_of names (text_in (column "Scheduler" row))

module _ {F : Type 0} (A : Floats F) where
  open A use {runtime, whole, of_int, sub}
  open runtime use {float_zero}

  unfoldable pub baselines_onto :
      List (Row F) → Dict (List (Cell F)) (Row F) → Dict (List (Cell F)) (Row F)
  baselines_onto [] d = d
  baselines_onto (row ∷ rows) d =
      baselines_onto rows (
        if scheduler_in ("MLFQ" ∷ []) row
        then insert (same_cells A) (baseline_key row) row d
        else d)

  unfoldable pub baseline_map : List (Row F) → Dict (List (Cell F)) (Row F)
  baseline_map rows = baselines_onto rows []

  unfoldable pub chars_onto :
      List (Row F) → Dict (List (Cell F)) (Row F) → Dict (List (Cell F)) (Row F)
  chars_onto [] d = d
  chars_onto (row ∷ rows) d = chars_onto rows (insert (same_cells A) (run_key row) row d)

  unfoldable pub chars_by_key : List (Row F) → Dict (List (Cell F)) (Row F)
  chars_by_key rows = chars_onto rows []

  -- row[k] - baseline[k] if baseline else 0.0
  unfoldable pub delta : String → Row F → (baseline : Option (Row F)) → F
  delta k row none = float_zero
  delta k row (some baseline) = sub (float_in A (column k row)) (float_in A (column k baseline))

  -- to_float(chars.get(k, 0.0)), for the dictionary that may be missing
  unfoldable pub char_float : String → (chars : Option (Row F)) → F
  char_float k none = float_zero
  char_float k (some chars) = float_in A (column k chars)

  -- to_int(chars.get(k, 0))
  unfoldable pub char_int : String → (chars : Option (Row F)) → ℤ
  char_int k none = pos 0
  char_int k (some chars) = default_to (whole (of_int (int_in (column k chars)))) (pos 0)

  unfoldable pub fairness_row : (baseline chars : Option (Row F)) → Row F → Row F
  fairness_row baseline chars row =
      ("SuiteId", column "SuiteId" row)
      ∷ ("RunId", column "RunId" row)
      ∷ ("Seed", column "Seed" row)
      ∷ ("Replication", column "Replication" row)
      ∷ ("NumTasks", column "NumTasks" row)
      ∷ ("Cores", column "Cores" row)
      ∷ ("Topology", column "Topology" row)
      ∷ ("Balancer", column "Balancer" row)
      ∷ ("WorkStealing", column "WorkStealing" row)
      ∷ ("StopTime", column "StopTime" row)
      ∷ ("Scheduler", column "Scheduler" row)
      ∷ ("Workload", column "Workload" row)
      ∷ ("WorkloadType", column "WorkloadType" row)
      ∷ ("ExperimentIds", column "ExperimentIds" row)
      ∷ ("Exp1", column "Exp1" row)
      ∷ ("Exp2", column "Exp2" row)
      ∷ ("Exp3", column "Exp3" row)
      ∷ ("Exp4", column "Exp4" row)
      ∷ ("Exp5", column "Exp5" row)
      ∷ ("Exp6", column "Exp6" row)
      ∷ ("Throughput", column "Throughput" row)
      ∷ ("MeanRT", column "MeanRT" row)
      ∷ ("ThroughputDeltaVsMLFQ", float_cell (delta "Throughput" row baseline))
      ∷ ("MeanRTDeltaVsMLFQ", float_cell (delta "MeanRT" row baseline))
      ∷ ("ExecutionCV", float_cell (char_float "ExecutionCV" chars))
      ∷ ("InterArrivalCV", float_cell (char_float "InterArrivalCV" chars))
      ∷ ("WeightCV", float_cell (char_float "WeightCV" chars))
      ∷ ("UniqueNice", int_cell (char_int "UniqueNice" chars))
      ∷ []

  unfoldable pub fairness_rows :
      (baselines chars : Dict (List (Cell F)) (Row F)) → List (Row F) → List (Row F)
  fairness_rows baselines chars [] = []
  fairness_rows baselines chars (row ∷ rows) =
      let rest = fairness_rows baselines chars rows in
      if scheduler_in fairness_oriented row
      then fairness_row (lookup (same_cells A) (baseline_key row) baselines)
          (lookup (same_cells A) (run_key row) chars) row
        ∷ rest
      else rest

  -- The rows from those of the metrics and those of the workloads.
  unfoldable pub fairness_vs_chars : (metrics chars : List (Row F)) → List (Row F)
  fairness_vs_chars metrics chars =
      fairness_rows (baseline_map metrics) (chars_by_key chars) metrics
