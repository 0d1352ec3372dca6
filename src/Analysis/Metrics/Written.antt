-- ===== src/Analysis/Metrics/Written.antt =====
-- The columns of the rows of metrics_enriched.csv (Analysis/Metrics).
use scheduler_simulator.Prelude.{◌≡◌, refl, All, List, [], ◌∷◌}
use scheduler_simulator.Analysis.Cells.{Floats, CsvRow}
use scheduler_simulator.Analysis.Experiments.Flags.{experiment_flags-SixFlags}
use scheduler_simulator.Analysis.Output.{keys, named_flags}
use scheduler_simulator.Analysis.Metrics.{RunInfo, metrics_row, metrics_rows, metrics_out_fields}

module _ {F : Type 0} (A : Floats F) where
  metrics_row-keys :
      (info : RunInfo) (raw : CsvRow) → keys (metrics_row A info raw) ≡ metrics_out_fields
  unfolding metrics_row keys named_flags
  metrics_row-keys info raw =
      let (a, b, c, d, e, f, six) = experiment_flags-SixFlags info.experiment_ids in rw (six) refl

  pub metrics_rows-keys :
      (info : RunInfo) (raws : List CsvRow)
      → All (λ row. keys row ≡ metrics_out_fields) (metrics_rows A info raws)
  unfolding metrics_rows
  metrics_rows-keys info [] = tt
  metrics_rows-keys info (raw ∷ raws) = (metrics_row-keys info raw, metrics_rows-keys info raws)
