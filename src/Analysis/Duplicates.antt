-- ===== src/Analysis/Duplicates.antt =====
-- scripts/aggregate_results.py: the check for lines with the same configuration.
pub mod Apart
use scheduler_simulator.Prelude.{List, [], ◌∷◌, ◌++◌, String, Text, codes, Dict, pos, length}
use scheduler_simulator.Python.{default_to}
use scheduler_simulator.Analysis.Cells.{
  Floats, Cell, int_cell, Row, column, text_in, same_cells, key_of,
}
use scheduler_simulator.Analysis.Grouping.{group_by}
use scheduler_simulator.Analysis.Quality.{Subject, add_quality_issue}

abbrev pub config_fields : List String
config_fields =
    "SuiteId" ∷ "RunId" ∷ "Seed" ∷ "Replication" ∷ "Scheduler" ∷ "Workload" ∷ "Topology"
    ∷ "Balancer" ∷ "WorkStealing" ∷ "Cores" ∷ "NumTasks" ∷ "StopTime" ∷ []

module _ {F : Type 0} where
  abbrev pub config_key : Row F → List (Cell F)
  config_key = key_of config_fields

  abbrev pub word_in : String → Row F → Text
  word_in k row = default_to (text_in (column k row)) []

  abbrev pub sample_subject : Row F → Subject
  sample_subject sample = record {
    suite_id = word_in "SuiteId" sample;
    run_id = word_in "RunId" sample;
    source_file = word_in "SourceFile" sample;
    scheduler = text_in (column "Scheduler" sample);
    workload = text_in (column "Workload" sample);
  }

  -- One pass of the loop over the groups.
  unfoldable pub duplicate_issue : List (Row F) → List (Row F)
  duplicate_issue [] = []
  duplicate_issue (row ∷ []) = []
  duplicate_issue (sample ∷ row ∷ rows) =
      add_quality_issue "duplicate_config" "WARN" (sample_subject sample) "config_key"
        (int_cell (pos (length (sample ∷ row ∷ rows)))) "count=1"
        (codes "Duplicate configuration rows detected within aggregated metrics.")
      ∷ []

  unfoldable pub group_issues : Dict (List (Cell F)) (List (Row F)) → List (Row F)
  group_issues [] = []
  group_issues ((key, rows) ∷ d) = duplicate_issue rows ++ group_issues d

module _ {F : Type 0} (A : Floats F) where
  unfoldable pub duplicate_issues : List (Row F) → List (Row F)
  duplicate_issues rows = group_issues (group_by (same_cells A) config_key rows)
