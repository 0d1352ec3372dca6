-- ===== src/Analysis/Main/Written.antt =====
-- What the whole script writes (Analysis/Main).
use scheduler_simulator.Prelude.{List, [], ◌∷◌, map}
use scheduler_simulator.Analysis.Cells.{Floats, Cell}
use scheduler_simulator.Analysis.Output.Columns.{values}
use scheduler_simulator.Analysis.Metrics.{metrics_out_fields}
use scheduler_simulator.Analysis.Quality.{quality_fields}
use scheduler_simulator.Analysis.RunIndex.{run_index_fields}
use scheduler_simulator.Analysis.Main.{Collected, Tables}
use scheduler_simulator.Analysis.Main.Keys.{HasKeys}

-- The values of each table.
abbrev pub table_lines : {F : Type 0} → Tables F → List (List (List (Cell F)))
table_lines t =
    map values t.metrics
    ∷ map values t.run_index
    ∷ map values t.quality
    ∷ map values t.allocation
    ∷ map values t.nice_buckets
    ∷ map values t.workloads
    ∷ map values t.fairness
    ∷ []

module _ {F : Type 0} (A : Floats F) where
  abbrev HasColumns : Collected F → Type 0
  HasColumns c =
      HasKeys metrics_out_fields c.metrics
      × HasKeys run_index_fields c.run_index
      × HasKeys quality_fields c.quality
