-- ===== src/Analysis/NiceBuckets.antt =====
-- scripts/aggregate_results.py, the loop over the runs: the tasks of a run by nice value
-- (nice_bucket_allocation.csv).
pub mod Counts
use scheduler_simulator.Prelude.{
  if◌then◌else◌, List, [], ◌∷◌, ◌++◌, Text, Dict, pos, ℤ, ℕ, ◌+◌, eq_ℤ, ltb_ℤ,
}
use scheduler_simulator.Analysis.Cells.{
  Floats, Cell, Row, column, int_in, float_in, int_cell, float_cell, safe_div, safe_div_count,
}
use scheduler_simulator.Analysis.Grouping.{adjust, sorted_items}
use scheduler_simulator.Analysis.Allocation.{run_columns, floats, exp_ids_of}

pub record NiceTotals (F : Type 0) : Type 0 where
  pub alloc : F
  pub weight : F
  pub count : ℕ
  pub resp_sum : F
  pub wait_sum : F
  pub tat_sum : F
  pub slow_sum : F

module _ {F : Type 0} (A : Floats F) where
  open A use {runtime, add, sub, total}
  open runtime use {float_zero}

  abbrev pub no_totals : NiceTotals F
  no_totals = record {
    alloc = float_zero;
    weight = float_zero;
    count = 0;
    resp_sum = float_zero;
    wait_sum = float_zero;
    tat_sum = float_zero;
    slow_sum = float_zero;
  }

  unfoldable pub count_task : Row F → NiceTotals F → NiceTotals F
  count_task t vals =
      let turnaround = float_in A (column "TurnaroundTime" t) in
      record {
        alloc = add vals.alloc (float_in A (column "AllocatedCPU" t));
        weight = add vals.weight (float_in A (column "Weight" t));
        count = vals.count + 1;
        resp_sum = add vals.resp_sum (float_in A (column "ResponseTime" t));
        wait_sum = add vals.wait_sum (float_in A (column "WaitTime" t));
        tat_sum = add vals.tat_sum turnaround;
        slow_sum = add vals.slow_sum (safe_div A turnaround (float_in A (column "Execution" t)));
      }

  abbrev pub nice_of : Row F → ℤ
  nice_of t = int_in (column "Nice" t)

  unfoldable pub count_tasks : List (Row F) → Dict ℤ (NiceTotals F) → Dict ℤ (NiceTotals F)
  count_tasks [] d = d
  count_tasks (t ∷ ts) d = count_tasks ts (adjust eq_ℤ (nice_of t) no_totals (count_task t) d)

  unfoldable pub by_nice : List (Row F) → Dict ℤ (NiceTotals F)
  by_nice tasks = count_tasks tasks []

  -- The columns of a bucket that follow those of its run.
  abbrev pub bucket_columns : (total_alloc total_weight : F) → ℤ → NiceTotals F → Row F
  bucket_columns total_alloc total_weight nice vals =
      let obs_share = safe_div A vals.alloc total_alloc in
      let exp_share = safe_div A vals.weight total_weight in
      ("Nice", int_cell nice)
      ∷ ("TaskCount", int_cell (pos vals.count))
      ∷ ("ObservedShare", float_cell obs_share)
      ∷ ("ExpectedWeightShare", float_cell exp_share)
      ∷ ("ShareDelta", float_cell (sub obs_share exp_share))
      ∷ ("AvgResponseTime", float_cell (safe_div_count A vals.resp_sum vals.count))
      ∷ ("AvgWaitTime", float_cell (safe_div_count A vals.wait_sum vals.count))
      ∷ ("AvgTurnaroundTime", float_cell (safe_div_count A vals.tat_sum vals.count))
      ∷ ("AvgSlowdown", float_cell (safe_div_count A vals.slow_sum vals.count))
      ∷ []

  unfoldable pub nice_row :
      (key : List (Cell F)) (exp_ids : Text) (total_alloc total_weight : F)
      → ℤ
      → NiceTotals F
      → Row F
  nice_row key exp_ids total_alloc total_weight nice vals =
      run_columns key exp_ids ++ bucket_columns total_alloc total_weight nice vals

  unfoldable pub nice_rows :
      (key : List (Cell F)) (exp_ids : Text) (total_alloc total_weight : F)
      → Dict ℤ (NiceTotals F)
      → List (Row F)
  nice_rows key exp_ids total_alloc total_weight [] = []
  nice_rows key exp_ids total_alloc total_weight ((nice, vals) ∷ d) =
      nice_row key exp_ids total_alloc total_weight nice vals
      ∷ nice_rows key exp_ids total_alloc total_weight d

  unfoldable pub run_nice_rows :
      (key : List (Cell F)) (exp_ids : Text) → List (Row F) → List (Row F)
  run_nice_rows key exp_ids tasks =
      nice_rows key exp_ids (total (floats A "AllocatedCPU" tasks))
        (total (floats A "Weight" tasks)) (sorted_items ltb_ℤ (by_nice tasks))
