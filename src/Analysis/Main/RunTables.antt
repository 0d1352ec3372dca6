-- ===== src/Analysis/Main/RunTables.antt =====
-- The columns of the rows that are made for each run of the tasks files, of the last table, and of
-- run_index.csv.
use scheduler_simulator.Prelude.{
  if◌then◌else◌, text_eq, codes, split, ◌≡◌, refl, List, [], ◌∷◌, ◌++◌, String, Text, Dict, ℤ,
  Bool-cases, inl, inr, subst,
}
use scheduler_simulator.Python.{Value, get_or, to_int, ok, on_ok, ok-injective}
use scheduler_simulator.Analysis.Cells.{corr, cv, same_cells, Floats, Cell, Row, key_of}
use scheduler_simulator.Analysis.Experiments.{column_flags}
use scheduler_simulator.Analysis.Experiments.Flags.{experiment_flags-SixFlags}
use scheduler_simulator.Analysis.Grouping.Laws.{GroupsAgree}
use scheduler_simulator.Analysis.Output.{keys, named_flags, flag_names}
use scheduler_simulator.Analysis.Metrics.{RunInfo, fairness_oriented}
use scheduler_simulator.Analysis.Tasks.{run_key, run_key_fields}
use scheduler_simulator.Analysis.Allocation.{
  named, run_columns, exp_ids_of, proportional_jain, slowdown_corr, allocation_row,
}
use scheduler_simulator.Analysis.NiceBuckets.{NiceTotals, nice_row, nice_rows, run_nice_rows}
use scheduler_simulator.Analysis.Characteristics.{stddev_int, char_row}
use scheduler_simulator.Analysis.Fairness.{scheduler_in, fairness_row, fairness_rows}
use scheduler_simulator.Analysis.Runs.{ExecMeta, MetricsFile, summary_of}
use scheduler_simulator.Analysis.RunIndex.{run_index_fields, list_join, run_index_row}
use scheduler_simulator.Analysis.Main.{RunRows, run_rows}
use scheduler_simulator.Analysis.Main.Keys.{HasKeys, HasKeys-append}

abbrev pub run_names : List String → List String
run_names own = run_key_fields ++ "ExperimentIds" ∷ flag_names ++ own

abbrev pub allocation_names : List String
allocation_names = run_names (
    "CompletedRatioFromTasks" ∷ "TotalAllocatedCPU" ∷ "TotalWeight" ∷ "ShareMAE" ∷ "ShareTV"
    ∷ "ProportionalJain" ∷ "WeightVsSlowdownCorr" ∷ "WeightVsResponseCorr" ∷ [])

abbrev pub bucket_names : List String
bucket_names = run_names (
    "Nice" ∷ "TaskCount" ∷ "ObservedShare" ∷ "ExpectedWeightShare" ∷ "ShareDelta"
    ∷ "AvgResponseTime" ∷ "AvgWaitTime" ∷ "AvgTurnaroundTime" ∷ "AvgSlowdown" ∷ [])

abbrev pub workload_names : List String
workload_names = run_names (
    "ArrivalSpan" ∷ "InterArrivalMean" ∷ "InterArrivalCV" ∷ "ExecutionMean" ∷ "ExecutionCV"
    ∷ "WeightMean" ∷ "WeightCV" ∷ "NiceStdDev" ∷ "UniqueNice" ∷ [])

abbrev pub fairness_names : List String
fairness_names =
    run_key_fields
    ++ "WorkloadType" ∷ "ExperimentIds" ∷ flag_names
    ++ "Throughput" ∷ "MeanRT" ∷ "ThroughputDeltaVsMLFQ" ∷ "MeanRTDeltaVsMLFQ" ∷ "ExecutionCV"
      ∷ "InterArrivalCV" ∷ "WeightCV" ∷ "UniqueNice" ∷ []

run_columns-keys :
    {F : Type 0} (v : Row F) (exp_ids : Text) (row : Row F)
    → keys (run_columns (run_key v) exp_ids ++ row) ≡ run_names (keys row)
unfolding run_columns named key_of named_flags keys column_flags
run_columns-keys v exp_ids row =
    let (a, b, c, d, e, f, six) =
      experiment_flags-SixFlags
        (if text_eq exp_ids (codes "none") then [] else split b';' exp_ids) in
    rw six refl

module _ {F : Type 0} (A : Floats F) where
  allocation_row-keys :
      (v : Row F) (exp_ids : Text) (tasks : List (Row F)) (row : Row F)
      → allocation_row A (run_key v) exp_ids tasks ≡ ok row
      → keys row ≡ allocation_names
  unfolding allocation_row keys
  allocation_row-keys v exp_ids tasks row h = on_ok (proportional_jain A _) _ h λ jain _ h1.
      on_ok (slowdown_corr A tasks) _ h1 λ slowdown _ h2. on_ok (corr A _ _) _ h2 λ response _ h3.
        subst (λ r. keys r ≡ allocation_names) (ok-injective h3) (run_columns-keys v exp_ids _)

  char_row-keys :
      (v : Row F) (exp_ids : Text) (tasks : List (Row F)) (row : Row F)
      → char_row A (run_key v) exp_ids tasks ≡ ok row
      → keys row ≡ workload_names
  unfolding char_row keys
  char_row-keys v exp_ids tasks row h = on_ok (cv A _) _ h λ a _ h1. on_ok (cv A _) _ h1 λ b _ h2.
      on_ok (cv A _) _ h2 λ c _ h3. on_ok (stddev_int A _) _ h3 λ d _ h4.
        subst (λ r. keys r ≡ workload_names) (ok-injective h4) (run_columns-keys v exp_ids _)

  nice_rows-HasKeys :
      (v : Row F) (exp_ids : Text) (alloc weight : F) (d : Dict ℤ (NiceTotals F))
      → HasKeys bucket_names (nice_rows A (run_key v) exp_ids alloc weight d)
  unfolding nice_rows nice_row keys
  nice_rows-HasKeys v exp_ids alloc weight [] = tt
  nice_rows-HasKeys v exp_ids alloc weight ((n, vals) ∷ d) =
      (run_columns-keys v _ _, nice_rows-HasKeys v exp_ids alloc weight d)

  -- The rows of the runs have the columns of their tables.
  pub record HasRunColumns (r : RunRows F) : Type 0 where
    pub allocation : HasKeys allocation_names r.allocation
    pub nice_buckets : HasKeys bucket_names r.nice_buckets
    pub workloads : HasKeys workload_names r.workloads

  pub run_rows-HasRunColumns :
      (exps : Dict (List (Cell F)) Text) (runs : Dict (List (Cell F)) (List (Row F)))
      (result : RunRows F)
      → GroupsAgree (same_cells A) run_key runs
      → run_rows A exps runs ≡ ok result
      → HasRunColumns result
  unfolding run_rows run_nice_rows
  run_rows-HasRunColumns exps [] result g h =
      subst HasRunColumns (ok-injective h)
        (record { allocation = tt; nice_buckets = tt; workloads = tt })
  run_rows-HasRunColumns exps ((key, tasks) ∷ runs) result ((v, others, p, q), g) h =
      let exp_ids = exp_ids_of A exps key in
      on_ok (allocation_row A key exp_ids tasks) _ h λ allocation e1 h1.
        on_ok (char_row A key exp_ids tasks) _ h1 λ workload e2 h2.
          on_ok (run_rows A exps runs) _ h2 λ rest e3 h3.
            let more = run_rows-HasRunColumns exps runs rest g e3 in
            subst HasRunColumns (ok-injective h3) (record {
              allocation = (
                allocation_row-keys v exp_ids tasks allocation
                    (subst (λ k. allocation_row A k exp_ids tasks ≡ ok allocation) q e1),
                more.allocation,
              );
              nice_buckets =
                  HasKeys-append bucket_names _ rest.nice_buckets
                    (rw q (nice_rows-HasKeys v _ _ _ _)) more.nice_buckets;
              workloads = (
                char_row-keys v exp_ids tasks workload
                    (subst (λ k. char_row A k exp_ids tasks ≡ ok workload) q e2),
                more.workloads,
              );
            })

  pub fairness_rows-HasKeys :
      (baselines chars : Dict (List (Cell F)) (Row F)) (rows : List (Row F))
      → HasKeys fairness_names (fairness_rows A baselines chars rows)
  unfolding fairness_rows fairness_row keys
  fairness_rows-HasKeys baselines chars [] = tt
  fairness_rows-HasKeys baselines chars (row ∷ rows) =
      elim (Bool-cases (scheduler_in fairness_oriented row)) [
        | inl fair ↦ rw fair (refl, fairness_rows-HasKeys baselines chars rows)
        | inr other ↦ rw other (fairness_rows-HasKeys baselines chars rows)
      ]

  pub run_index_row-keys :
      (execution_idx : Dict (Value F × Value F) (ExecMeta F)) (file : MetricsFile F)
      (info : RunInfo) (row : Row F)
      → run_index_row A execution_idx file info ≡ ok row
      → keys row ≡ run_index_fields
  unfolding run_index_row keys
  run_index_row-keys execution_idx file info row h = on_ok (summary_of A _ _) _ h λ s _ h0.
      on_ok (get_or "rows" s _) _ h0 λ found _ h1. on_ok (to_int A.runtime found) _ h1 λ n _ h2.
        on_ok (list_join A _ s) _ h2 λ c1 _ i1. on_ok (list_join A _ s) _ i1 λ c2 _ i2.
          on_ok (list_join A _ s) _ i2 λ c3 _ i3. on_ok (list_join A _ s) _ i3 λ c4 _ i4.
            on_ok (list_join A _ s) _ i4 λ c5 _ i5. on_ok (list_join A _ s) _ i5 λ c6 _ i6.
              on_ok (list_join A _ s) _ i6 λ c7 _ i7. on_ok (list_join A _ s) _ i7 λ c8 _ i8.
                on_ok (list_join A _ s) _ i8 λ c9 _ i9.
                  on_ok (get_or "git_commit" _ _) _ i9 λ g _ j1.
                    on_ok (get_or "generated_at_utc" _ _) _ j1
                      λ t _ j2. subst (λ r. keys r ≡ run_index_fields) (ok-injective j2) refl
