-- ===== src/Analysis/Allocation.antt =====
-- scripts/aggregate_results.py, the loop over the runs of the tasks files: how the processor was
-- shared among the tasks of a run (weighted_allocation_summary.csv).
pub mod Columns
use scheduler_simulator.Prelude.{
  if◌then◌else◌, List, [], ◌∷◌, ◌++◌, map, String, Text, codes, Dict, lookup, take, length, pos, ℤ,
  ◌+ℤ◌, ◌==◌,
}
use scheduler_simulator.Python.{Result, ok, ◌>>=◌, default_to}
use scheduler_simulator.Analysis.Cells.{
  Floats, Cell, Row, column, int_in, float_in, float_cell, word_cell, mean, corr, safe_div,
  safe_div_int, same_cells,
}
use scheduler_simulator.Analysis.Experiments.{column_flags}
use scheduler_simulator.Analysis.Output.{named_flags, flag_names}
use scheduler_simulator.Analysis.Tasks.{run_key_fields}

abbrev pub total_int : List ℤ → ℤ
total_int [] = pos 0
total_int (n ∷ ns) = n +ℤ total_int ns

-- The columns that take the parts of a key.
unfoldable pub named : {F : Type 0} → List String → List (Cell F) → Row F
named (k ∷ ks) (c ∷ cs) = (k, c) ∷ named ks cs
named _ _ = []

-- {"SuiteId": suite_id, …, "ExperimentIds": exp_ids, **exp_flags}
unfoldable pub run_columns : {F : Type 0} → (key : List (Cell F)) (exp_ids : Text) → Row F
run_columns key exp_ids =
    named run_key_fields key
    ++ ("ExperimentIds", word_cell exp_ids) ∷ named_flags flag_names (column_flags exp_ids)

module _ {F : Type 0} (A : Floats F) where
  open A use {runtime, add, sub, mul, abs, squared, lt, of_int, half, total}
  open runtime use {nonzero, float_zero}

  -- run_experiments_map.get((suite_id, run_id), "none")
  unfoldable pub exp_ids_of : Dict (List (Cell F)) Text → (key : List (Cell F)) → Text
  exp_ids_of run_experiments key =
      default_to (lookup (same_cells A) (take 2 key) run_experiments) (codes "none")

  -- [t[k] for t in tasks]
  abbrev pub floats : String → List (Row F) → List F
  floats k tasks = map (λ t. float_in A (column k t)) tasks

  -- abs(obs - exp) for each task
  unfoldable pub share_errors : (total_alloc total_weight : F) → List (Row F) → List F
  share_errors total_alloc total_weight [] = []
  share_errors total_alloc total_weight (t ∷ ts) =
      let obs = safe_div A (float_in A (column "AllocatedCPU" t)) total_alloc in
      let exp = safe_div A (float_in A (column "Weight" t)) total_weight in
      abs (sub obs exp) ∷ share_errors total_alloc total_weight ts

  unfoldable pub share_ratios : (total_alloc total_weight : F) → List (Row F) → List F
  share_ratios total_alloc total_weight [] = []
  share_ratios total_alloc total_weight (t ∷ ts) =
      let obs = safe_div A (float_in A (column "AllocatedCPU" t)) total_alloc in
      let exp = safe_div A (float_in A (column "Weight" t)) total_weight in
      (if lt float_zero exp then safe_div A obs exp else float_zero)
      ∷ share_ratios total_alloc total_weight ts

  unfoldable pub proportional_jain : List F → Result F
  proportional_jain ratio_vals =
      let ratio_sq_sum = total (map (λ v. mul v v) ratio_vals) in
      if nonzero ratio_sq_sum
      then (squared (total ratio_vals) >>= λ square.
          ok (safe_div A square (mul (of_int (pos (length ratio_vals))) ratio_sq_sum)))
      else ok float_zero

  -- The slowdowns of the tasks that have some work.
  unfoldable pub slowdowns : List (Row F) → List F
  slowdowns [] = []
  slowdowns (t ∷ ts) =
      let rest = slowdowns ts in
      let execution = float_in A (column "Execution" t) in
      if lt float_zero execution
      then safe_div A (float_in A (column "TurnaroundTime" t)) execution ∷ rest
      else rest

  unfoldable pub slowdown_corr : List (Row F) → Result F
  slowdown_corr tasks =
      let weights = floats "Weight" tasks in
      if length weights == length (slowdowns tasks)
      then corr A weights (slowdowns tasks)
      else ok float_zero

  unfoldable pub allocation_row :
      (key : List (Cell F)) (exp_ids : Text) → List (Row F) → Result (Row F)
  allocation_row key exp_ids tasks =
      let total_alloc = total (floats "AllocatedCPU" tasks) in
      let total_weight = total (floats "Weight" tasks) in
      let share_abs_err = share_errors total_alloc total_weight tasks in
      let completed = total_int (map (λ t. int_in (column "Completed" t)) tasks) in
      proportional_jain (share_ratios total_alloc total_weight tasks) >>= λ jain.
      slowdown_corr tasks >>= λ slowdown.
      corr A (floats "Weight" tasks) (floats "ResponseTime" tasks) >>= λ response. ok (
        run_columns key exp_ids
        ++ ("CompletedRatioFromTasks", float_cell (safe_div_int A completed (pos (length tasks))))
          ∷ ("TotalAllocatedCPU", float_cell total_alloc)
          ∷ ("TotalWeight", float_cell total_weight)
          ∷ ("ShareMAE", float_cell (mean A share_abs_err))
          ∷ ("ShareTV", float_cell (mul half (total share_abs_err)))
          ∷ ("ProportionalJain", float_cell jain)
          ∷ ("WeightVsSlowdownCorr", float_cell slowdown)
          ∷ ("WeightVsResponseCorr", float_cell response)
          ∷ [])
