-- ===== src/Summary/Table.antt =====
-- The cells of the lines of the Markdown table (scripts/export_summary_table.py, markdown_table).
use scheduler_simulator.Prelude.{
  ◌≡◌, refl, ap, ◌∙◌, List, [], ◌∷◌, ◌++◌, append_assoc, ℕ, suc, ◌+◌, length, arith, Text, codes,
  Bool, false, not, ◌&&◌, ◌==◌, if◌then◌else◌, All, String, Bool-cases, inl, inr,
}
use scheduler_simulator.Analysis.Cells.{Floats, Row}
use scheduler_simulator.Analysis.Experiments.{join}
use scheduler_simulator.Summary.{escape_bars, table_values, table_line}

-- The bars that no backslash stands before; the flag says whether one stands before the text.
unfoldable pub open_bars : Bool → Text → ℕ
open_bars escaped [] = 0
open_bars escaped (c ∷ s) = (if c == b'|' && not escaped then 1 else 0) + open_bars (c == 92) s

-- Whether the last character is a backslash.
ends_escaped : Bool → Text → Bool
ends_escaped escaped [] = escaped
ends_escaped escaped (c ∷ s) = ends_escaped (c == 92) s

open_bars-append :
    (escaped : Bool) (s t : Text)
    → open_bars escaped (s ++ t) ≡ open_bars escaped s + open_bars (ends_escaped escaped s) t
unfolding open_bars ends_escaped
open_bars-append escaped [] t = omega arith
open_bars-append escaped (c ∷ s) t = omega (arith, open_bars-append (c == 92) s t)

-- A text that brings no bar of its own, whatever stands before it.
abbrev IsCellText : Text → Type 0
IsCellText v = (escaped : Bool) → open_bars escaped v ≡ 0

escape_bars-IsCellText : (s : Text) → IsCellText (escape_bars s)
unfolding escape_bars open_bars
escape_bars-IsCellText [] escaped = refl
escape_bars-IsCellText (c ∷ s) escaped = elim (Bool-cases (c == b'|')) [
  | inl bar ↦ rw bar (ground (arith, escape_bars-IsCellText s (c == 92)))
  | inr other ↦ rw other (ground (arith, escape_bars-IsCellText s (c == 92)))
]

joined-open_bars :
    (escaped : Bool) (v : Text) (vs : List Text)
    → All IsCellText (v ∷ vs)
    → open_bars escaped (join (codes " | ") (v ∷ vs) ++ codes " |") ≡ suc (length vs)
unfolding join open_bars
joined-open_bars escaped v [] (h, _) = open_bars-append escaped v (codes " |") ∙ rw (h escaped) refl
joined-open_bars escaped v (w ∷ vs) (h, hs) =
    ap (open_bars escaped)
      (append_assoc v (codes " | " ++ join (codes " | ") (w ∷ vs)) (codes " |"))
    ∙ (open_bars-append escaped v (codes " | " ++ (join (codes " | ") (w ∷ vs) ++ codes " |"))
        ∙ rw (h escaped) (omega (arith, joined-open_bars false w vs hs)))

module _ {F : Type 0} (A : Floats F) where
  table_values-IsCellText :
      (row : Row F) (columns : List String) → All IsCellText (table_values A row columns)
  unfolding table_values
  table_values-IsCellText row [] = tt
  table_values-IsCellText row (c ∷ columns) =
      (escape_bars-IsCellText _, table_values-IsCellText row columns)

  length-table_values :
      (row : Row F) (columns : List String) → length (table_values A row columns) ≡ length columns
  unfolding table_values
  length-table_values row [] = refl
  length-table_values row (c ∷ columns) = ap suc (length-table_values row columns)

  -- A line of the table has one bar that no backslash stands before for each column, and one at its
  -- start, whatever the cells of the row hold.
  pub table_line-open_bars :
      (row : Row F) (c : String) (columns : List String)
      → open_bars false (table_line (table_values A row (c ∷ columns))) ≡ length (c ∷ columns) + 1
  unfolding table_line open_bars table_values
  table_line-open_bars row c columns = omega (
    arith,
    joined-open_bars false _ (table_values A row columns)
        (table_values-IsCellText row (c ∷ columns)),
    length-table_values row columns,
  )
