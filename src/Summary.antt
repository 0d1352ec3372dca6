-- ===== src/Summary.antt =====
-- scripts/export_summary_table.py: the means per experiment, workload and scheduler, and the tables
-- that show them. An empty cell of the column ExperimentIds counts as "none".
pub mod Samples
pub mod Table
use scheduler_simulator.Prelude.{
  Bool, ◌&&◌, ◌||◌, ◌==◌, leb, if◌then◌else◌, List, [], ◌∷◌, ◌++◌, map, String, Text, codes,
  text_eq, strip, text_lt, Dict, pos, ℕ, ◌+◌, show_ℤ, lookup, none,
}
use scheduler_simulator.Python.{float, default_to}
use scheduler_simulator.Analysis.Cells.{
  Floats, CsvRow, Cell, Row, cell, text_cell, shown, full_cell, int_cell, float_cell, text_of,
  word_cell, to_float,
}
use scheduler_simulator.Analysis.Experiments.{join, split_experiments}
use scheduler_simulator.Analysis.Grouping.{adjust, sorted_items}
use package.text.Mathlib.Text.{◌==◌ as str_eq}

-- (exp_id, workload, scheduler)
pub record SlotKey : Type 0 where
  pub exp_id : Text
  pub workload : Text
  pub scheduler : Text

unfoldable pub same_slot : SlotKey → SlotKey → Bool
same_slot a b =
    text_eq a.exp_id b.exp_id && (text_eq a.workload b.workload && text_eq a.scheduler b.scheduler)

-- a < b for two such tuples
unfoldable pub key_lt : SlotKey → SlotKey → Bool
key_lt a b =
    text_lt a.exp_id b.exp_id
    || (text_eq a.exp_id b.exp_id
        && (text_lt a.workload b.workload
            || (text_eq a.workload b.workload && text_lt a.scheduler b.scheduler)))

pub record Slot (F : Type 0) : Type 0 where
  pub n : ℕ
  pub throughput : F
  pub mean_rt : F
  pub jains_fairness : F
  pub context_switches_per_task : F
  pub completion_ratio : F

-- split_experiments(row.get("ExperimentIds") or "none")
unfoldable pub row_experiments : CsvRow → List Text
row_experiments row =
    let found = cell "ExperimentIds" row in
    split_experiments (if full_cell found then shown (default_to found none) else codes "none")

unfoldable pub slot_key : CsvRow → Text → SlotKey
slot_key row exp_id = record {
  exp_id = exp_id;
  workload = strip (shown (text_cell "Workload" row));
  scheduler = strip (shown (text_cell "Scheduler" row));
}

abbrev pub fieldnames : List String
fieldnames =
    "ExperimentId" ∷ "Workload" ∷ "Scheduler" ∷ "Samples" ∷ "ThroughputMean" ∷ "MeanRTMean"
    ∷ "FairnessMean" ∷ "ContextSwitchesPerTaskMean" ∷ "CompletionRatioMean" ∷ []

-- s.replace("|", "\\|")
unfoldable pub escape_bars : Text → Text
escape_bars [] = []
escape_bars (c ∷ s) = if c == b'|' then 92 ∷ c ∷ escape_bars s else c ∷ escape_bars s

-- "| " + " | ".join(vals) + " |"
unfoldable pub table_line : List Text → Text
table_line vals = codes "| " ++ (join (codes " | ") vals ++ codes " |")

module _ {F : Type 0} (A : Floats F) where
  open A use {runtime, add, div, of_int, show_six}
  open runtime use {float_zero, show_value}

  abbrev pub empty_slot : Slot F
  empty_slot = record {
    n = 0;
    throughput = float_zero;
    mean_rt = float_zero;
    jains_fairness = float_zero;
    context_switches_per_task = float_zero;
    completion_ratio = float_zero;
  }

  unfoldable pub add_row : CsvRow → Slot F → Slot F
  add_row row slot = record {
    n = slot.n + 1;
    throughput = add slot.throughput (to_float A (cell "Throughput" row));
    mean_rt = add slot.mean_rt (to_float A (cell "MeanRT" row));
    jains_fairness = add slot.jains_fairness (to_float A (cell "JainsFairness" row));
    context_switches_per_task =
        add slot.context_switches_per_task (to_float A (cell "ContextSwitchesPerTask" row));
    completion_ratio = add slot.completion_ratio (to_float A (cell "CompletionRatio" row));
  }

  -- The loop over the experiments of a row.
  unfoldable pub add_experiments :
      CsvRow → List Text → Dict SlotKey (Slot F) → Dict SlotKey (Slot F)
  add_experiments row [] agg = agg
  add_experiments row (exp_id ∷ exp_ids) agg =
      add_experiments row exp_ids
        (adjust same_slot (slot_key row exp_id) empty_slot (add_row row) agg)

  unfoldable pub add_rows : List CsvRow → Dict SlotKey (Slot F) → Dict SlotKey (Slot F)
  add_rows [] agg = agg
  add_rows (row ∷ rows) agg = add_rows rows (add_experiments row (row_experiments row) agg)

  unfoldable pub aggregate : List CsvRow → Dict SlotKey (Slot F)
  aggregate rows = add_rows rows []

  -- f"{x / n:.6g}" with n = max(1, n)
  unfoldable pub mean_text : F → ℕ → Text
  mean_text x n = show_six (div x (of_int (pos (if leb 1 n then n else 1))))

  unfoldable pub out_row : SlotKey → Slot F → Row F
  out_row key vals =
      ("ExperimentId", word_cell key.exp_id)
      ∷ ("Workload", word_cell key.workload)
      ∷ ("Scheduler", word_cell key.scheduler)
      ∷ ("Samples", int_cell (pos vals.n))
      ∷ ("ThroughputMean", word_cell (mean_text vals.throughput vals.n))
      ∷ ("MeanRTMean", word_cell (mean_text vals.mean_rt vals.n))
      ∷ ("FairnessMean", word_cell (mean_text vals.jains_fairness vals.n))
      ∷ ("ContextSwitchesPerTaskMean", word_cell (mean_text vals.context_switches_per_task vals.n))
      ∷ ("CompletionRatioMean", word_cell (mean_text vals.completion_ratio vals.n))
      ∷ []

  unfoldable pub out_rows_of : Dict SlotKey (Slot F) → List (Row F)
  out_rows_of [] = []
  out_rows_of ((key, vals) ∷ agg) = out_row key vals ∷ out_rows_of agg

  unfoldable pub out_rows : List CsvRow → List (Row F)
  out_rows rows = out_rows_of (sorted_items key_lt (aggregate rows))

  -- str(row.get(c, ""))
  unfoldable pub cell_text : Cell F → Text
  cell_text (int_cell n) = show_ℤ n
  cell_text (float_cell x) = show_value (float x)
  cell_text (text_of t) = shown t

  unfoldable pub table_values : Row F → List String → List Text
  table_values row [] = []
  table_values row (c ∷ columns) =
      escape_bars (cell_text (default_to (lookup str_eq c row) (word_cell [])))
      ∷ table_values row columns

  unfoldable pub table_lines : List (Row F) → List String → List Text
  table_lines [] columns = []
  table_lines (row ∷ rows) columns =
      table_line (table_values row columns) ∷ table_lines rows columns

  unfoldable pub markdown_table : List (Row F) → List String → Text
  markdown_table [] columns = codes "_No rows._"
  markdown_table (row ∷ rows) columns = join (10 ∷ []) (
      table_line (map codes columns)
      ∷ table_line (map (λ c. codes "---") columns)
      ∷ table_lines (row ∷ rows) columns)

  -- The text of summary_table.md.
  unfoldable pub summary_page : List CsvRow → Text
  summary_page rows =
      join (10 ∷ []) (
        codes "# Benchmark Summary Table"
        ∷ []
        ∷ markdown_table (out_rows rows) fieldnames
        ∷ []
        ∷ [])
