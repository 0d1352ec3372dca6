-- ===== src/Analysis/NiceBuckets/Counts.antt =====
-- The counters of the nice buckets of a run (Analysis/NiceBuckets).
use scheduler_simulator.Prelude.{
  ◌≡◌, refl, ap, lookup, ◌∙◌, List, [], ◌∷◌, map, Text, Dict, ℤ, ℕ, suc, ◌+◌, length, eq_ℤ, ltb_ℤ,
  arith, Bool-cases, inl, inr, pos_part,
}
use scheduler_simulator.Analysis.Cells.{Floats, Cell, Row, column, int_in}
use scheduler_simulator.Analysis.Allocation.{floats}
use scheduler_simulator.Analysis.Allocation.Columns.{column-run_columns}
use scheduler_simulator.Analysis.Grouping.{adjust, sorted_items}
use scheduler_simulator.Analysis.Grouping.Tally.{
  counted, counted-adjust, counted-sorted_items, length-sorted_items,
}
use scheduler_simulator.Analysis.NiceBuckets.{
  NiceTotals, bucket_columns, no_totals, count_task, nice_of, count_tasks, by_nice, nice_row,
  nice_rows, run_nice_rows,
}
use scheduler_simulator.Analysis.Characteristics.{add_once, set_onto, set_of}

abbrev met : {V : Type 0} → Dict ℤ V → List ℤ
met d = map (λ e. e.0) d

length-met : {V : Type 0} (d : Dict ℤ V) → length d ≡ length (met d)
length-met [] = refl
length-met (e ∷ d) = ap suc (length-met d)

met-adjust :
    {V : Type 0} (n : ℤ) (start : V) (step : V → V) (d : Dict ℤ V)
    → met (adjust eq_ℤ n start step d) ≡ add_once n (met d)
unfolding adjust add_once
met-adjust n start step [] = refl
met-adjust n start step ((m, v) ∷ d) = elim (Bool-cases (eq_ℤ m n)) [
  | inl hit ↦ rw hit refl
  | inr miss ↦ rw miss (ap (λ l. m ∷ l) (met-adjust n start step d))
]

-- The tasks that are counted.
abbrev pub in_buckets : {F : Type 0} → Dict ℤ (NiceTotals F) → ℕ
in_buckets d = counted (λ vals. vals.count) d

-- The sum of the column TaskCount.
abbrev pub task_counts : {F : Type 0} → List (Row F) → ℕ
task_counts [] = 0
task_counts (row ∷ rows) = pos_part (int_in (column "TaskCount" row)) + task_counts rows

module _ {F : Type 0} (A : Floats F) where
  in_buckets-adjust :
      (t : Row F) (d : Dict ℤ (NiceTotals F))
      → in_buckets (adjust eq_ℤ (nice_of A t) (no_totals A) (count_task A t) d) ≡ suc (in_buckets d)
  unfolding count_task
  in_buckets-adjust t d =
      counted-adjust (λ vals. vals.count) eq_ℤ (no_totals A) (count_task A t) refl
        (λ v. omega arith) (nice_of A t) d

  in_buckets-count_tasks :
      (ts : List (Row F)) (d : Dict ℤ (NiceTotals F))
      → in_buckets (count_tasks A ts d) ≡ in_buckets d + length ts
  unfolding count_tasks
  in_buckets-count_tasks [] d = omega arith
  in_buckets-count_tasks (t ∷ ts) d = omega (
    arith,
    in_buckets-adjust t d,
    in_buckets-count_tasks ts (adjust eq_ℤ (nice_of A t) (no_totals A) (count_task A t) d),
  )

  met-count_tasks :
      (ts : List (Row F)) (d : Dict ℤ (NiceTotals F))
      → met (count_tasks A ts d) ≡ set_onto (map (nice_of A) ts) (met d)
  unfolding count_tasks set_onto
  met-count_tasks [] d = refl
  met-count_tasks (t ∷ ts) d =
      met-count_tasks ts (adjust eq_ℤ (nice_of A t) (no_totals A) (count_task A t) d)
      ∙ ap (set_onto (map (nice_of A) ts))
          (met-adjust (nice_of A t) (no_totals A) (count_task A t) d)

  module _ (key : List (Cell F)) (exp_ids : Text) (total_alloc total_weight : F) where
    task_counts-nice_rows :
        (d : Dict ℤ (NiceTotals F))
        → task_counts (nice_rows A key exp_ids total_alloc total_weight d) ≡ in_buckets d
    unfolding nice_rows nice_row column lookup
    task_counts-nice_rows [] = refl
    task_counts-nice_rows ((n, vals) ∷ d) =
        rw
          (column-run_columns "TaskCount" key exp_ids
            (bucket_columns A total_alloc total_weight n vals) refl refl)
          (ap (λ c. vals.count + c) (task_counts-nice_rows d))

    length-nice_rows :
        (d : Dict ℤ (NiceTotals F))
        → length (nice_rows A key exp_ids total_alloc total_weight d) ≡ length d
    unfolding nice_rows
    length-nice_rows [] = refl
    length-nice_rows ((n, vals) ∷ d) = ap suc (length-nice_rows d)

  -- The TaskCount of the buckets of a run adds up to the number of its tasks, and there are as many
  -- buckets as UniqueNice says.
  pub run_nice_rows-Partition :
      (key : List (Cell F)) (exp_ids : Text) (tasks : List (Row F))
      → (task_counts (run_nice_rows A key exp_ids tasks) ≡ length tasks)
        × (length (run_nice_rows A key exp_ids tasks) ≡ length (set_of (map (nice_of A) tasks)))
  unfolding run_nice_rows by_nice
  run_nice_rows-Partition key exp_ids tasks =
      let found = sorted_items ltb_ℤ (by_nice A tasks) in
      let alloc = A.total (floats A "AllocatedCPU" tasks) in
      let weight = A.total (floats A "Weight" tasks) in
      (
        omega (
          arith,
          task_counts-nice_rows key exp_ids alloc weight found,
          counted-sorted_items (λ vals. vals.count) ltb_ℤ (by_nice A tasks),
          in_buckets-count_tasks tasks [],
        ),
        length-nice_rows key exp_ids alloc weight found
            ∙ (length-sorted_items ltb_ℤ (by_nice A tasks)
                ∙ (length-met (by_nice A tasks) ∙ ap length (met-count_tasks tasks []))),
      )
