-- ===== src/Analysis/Output.antt =====
-- scripts/aggregate_results.py: write_csv and write_rows, with what `csv.DictWriter` does with the
-- rows: a row with a key that is no column raises, and a column that a row lacks is left empty.
pub mod Columns
use scheduler_simulator.Prelude.{
  Bool, true, false, ◌&&◌, List, [], ◌∷◌, String, lookup, ℕ, pos, if◌then◌else◌, none, Option, some,
}
use scheduler_simulator.Python.{Result, ok, err, value_error, default_to, ◌>>=◌}
use scheduler_simulator.Analysis.Cells.{Cell, Row, int_cell, text_of}
use package.text.Mathlib.Text.{◌==◌ as str_eq}

abbrev pub is_column : List String → String → Bool
is_column [] k = false
is_column (f ∷ fs) k = if str_eq f k then true else is_column fs k

abbrev pub all_columns : (fieldnames ks : List String) → Bool
all_columns fieldnames [] = true
all_columns fieldnames (k ∷ ks) = is_column fieldnames k && all_columns fieldnames ks

module _ {F : Type 0} where
  -- row.keys()
  unfoldable pub keys : Row F → List String
  keys [] = []
  keys ((k, v) ∷ row) = k ∷ keys row

  -- The values of a row in the order of the columns.
  unfoldable pub ordered : (fieldnames : List String) → Row F → List (Cell F)
  ordered [] row = []
  ordered (k ∷ ks) row = default_to (lookup str_eq k row) (text_of (some [])) ∷ ordered ks row

  -- The lines below the header.
  unfoldable pub write_csv :
      (fieldnames : List String) → List (Row F) → Result (List (List (Cell F)))
  write_csv fieldnames [] = ok []
  write_csv fieldnames (row ∷ rows) =
      if all_columns fieldnames (keys row)
      then (write_csv fieldnames rows >>= λ ls. ok (ordered fieldnames row ∷ ls))
      else err value_error

  -- The lines below the header, which are the keys of the first row; no file is written for no rows.
  unfoldable pub write_rows : List (Row F) → Result (List (List (Cell F)))
  write_rows [] = ok []
  write_rows (row ∷ rows) = write_csv (keys row) (row ∷ rows)

  -- The flags as the columns Exp1 to Exp6.
  unfoldable pub named_flags : List String → List ℕ → Row F
  named_flags (k ∷ ks) (n ∷ ns) = (k, int_cell (pos n)) ∷ named_flags ks ns
  named_flags _ _ = []

abbrev pub flag_names : List String
flag_names = "Exp1" ∷ "Exp2" ∷ "Exp3" ∷ "Exp4" ∷ "Exp5" ∷ "Exp6" ∷ []
