-- ===== src/Analysis/Main.antt =====
-- scripts/aggregate_results.py: the loops over the metrics files and over the runs, the tables, and what is
-- written of them.
pub mod Keys
pub mod RunTables
pub mod Written
use scheduler_simulator.Prelude.{List, [], ◌∷◌, ◌++◌, Text, Dict, insert, none, some}
use scheduler_simulator.Python.{Result, ok, ◌>>=◌, Value}
use scheduler_simulator.Analysis.Cells.{Floats, Cell, Row, word_cell, same_cells}
use scheduler_simulator.Analysis.Experiments.{experiments_column}
use scheduler_simulator.Analysis.Output.{write_csv, write_rows}
use scheduler_simulator.Analysis.Metrics.{RunInfo, metrics_rows, metrics_out_fields}
use scheduler_simulator.Analysis.Quality.{file_issues, quality_fields}
use scheduler_simulator.Analysis.Duplicates.{duplicate_issues}
use scheduler_simulator.Analysis.Tasks.{TasksFile, task_rows, tasks_by_run}
use scheduler_simulator.Analysis.Allocation.{exp_ids_of, allocation_row}
use scheduler_simulator.Analysis.NiceBuckets.{run_nice_rows}
use scheduler_simulator.Analysis.Characteristics.{char_row}
use scheduler_simulator.Analysis.Fairness.{fairness_vs_chars}
use scheduler_simulator.Analysis.SuiteSpecs.{SuiteSpec}
use scheduler_simulator.Analysis.Runs.{ExecMeta, MetricsFile, run_info}
use scheduler_simulator.Analysis.RunIndex.{run_index_fields, run_index_row}

-- What the loop over the metrics files fills.
pub record Collected (F : Type 0) : Type 0 where
  pub metrics : List (Row F)
  pub run_index : List (Row F)
  pub quality : List (Row F)
  pub run_experiments : Dict (List (Cell F)) Text

-- What the loop over the runs of the tasks files fills.
pub record RunRows (F : Type 0) : Type 0 where
  pub allocation : List (Row F)
  pub nice_buckets : List (Row F)
  pub workloads : List (Row F)

-- The rows of the tables.
pub record Tables (F : Type 0) : Type 0 where
  pub metrics : List (Row F)
  pub run_index : List (Row F)
  pub quality : List (Row F)
  pub allocation : List (Row F)
  pub nice_buckets : List (Row F)
  pub workloads : List (Row F)
  pub fairness : List (Row F)

module _ {F : Type 0} where
  -- The lines of each file that is written.
  unfoldable pub write_tables : Tables F → Result (List (List (List (Cell F))))
  write_tables t = write_csv metrics_out_fields t.metrics >>= λ metrics.
      write_csv run_index_fields t.run_index >>= λ run_index.
      write_csv quality_fields t.quality >>= λ quality. write_rows t.allocation >>= λ allocation.
      write_rows t.nice_buckets >>= λ nice_buckets. write_rows t.workloads >>= λ workloads.
      write_rows t.fairness >>= λ fairness.
      ok (metrics ∷ run_index ∷ quality ∷ allocation ∷ nice_buckets ∷ workloads ∷ fairness ∷ [])

module _ {F : Type 0} (A : Floats F) where
  abbrev pub nothing_collected : Collected F
  nothing_collected = record { metrics = []; run_index = []; quality = []; run_experiments = [] }

  -- One pass of the loop.
  unfoldable pub collect_file : MetricsFile F → RunInfo → Row F → Collected F → Collected F
  collect_file file info row c = record {
    metrics = c.metrics ++ metrics_rows A info file.raw_rows;
    run_index = c.run_index ++ row ∷ [];
    quality = c.quality ++ file_issues A info file.raw_rows;
    run_experiments =
        insert (same_cells A) (word_cell info.suite_id ∷ word_cell info.run_id ∷ [])
          (experiments_column info.experiment_ids) c.run_experiments;
  }

  unfoldable pub collect :
      Dict (Value F × Value F) (ExecMeta F)
      → Dict (Value F) (SuiteSpec F)
      → List (MetricsFile F)
      → Collected F
      → Result (Collected F)
  collect execution_idx suite_specs [] c = ok c
  collect execution_idx suite_specs (file ∷ files) c =
      run_info A execution_idx suite_specs file >>= λ found. elim found [
        | none ↦ collect execution_idx suite_specs files c
        | some info ↦ run_index_row A execution_idx file info >>= λ row.
            collect execution_idx suite_specs files (collect_file file info row c)
      ]

  -- The loop over the runs of the tasks files.
  unfoldable pub run_rows :
      Dict (List (Cell F)) Text → Dict (List (Cell F)) (List (Row F)) → Result (RunRows F)
  run_rows run_experiments [] = ok record { allocation = []; nice_buckets = []; workloads = [] }
  run_rows run_experiments ((key, tasks) ∷ runs) =
      let exp_ids = exp_ids_of A run_experiments key in
      allocation_row A key exp_ids tasks >>= λ allocation.
      char_row A key exp_ids tasks >>= λ workload. run_rows run_experiments runs >>= λ rest.
      ok record {
        allocation = allocation ∷ rest.allocation;
        nice_buckets = run_nice_rows A key exp_ids tasks ++ rest.nice_buckets;
        workloads = workload ∷ rest.workloads;
      }

  abbrev pub runs_of : List TasksFile → Dict (List (Cell F)) (List (Row F))
  runs_of task_files = tasks_by_run A (task_rows A task_files)

  -- All tables.
  unfoldable pub tables : Collected F → RunRows F → Tables F
  tables c r = record {
    metrics = c.metrics;
    run_index = c.run_index;
    quality = c.quality ++ duplicate_issues A c.metrics;
    allocation = r.allocation;
    nice_buckets = r.nice_buckets;
    workloads = r.workloads;
    fairness = fairness_vs_chars A c.metrics r.workloads;
  }

  unfoldable pub analyse :
      Dict (Value F × Value F) (ExecMeta F)
      → Dict (Value F) (SuiteSpec F)
      → List (MetricsFile F)
      → List TasksFile
      → Result (List (List (List (Cell F))))
  analyse execution_idx suite_specs metrics_files task_files =
      collect execution_idx suite_specs metrics_files nothing_collected >>= λ c.
      run_rows c.run_experiments (runs_of task_files) >>= λ r. write_tables (tables c r)
