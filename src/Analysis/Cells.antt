-- ===== src/Analysis/Cells.antt =====
-- Rows of CSV files, what the analysis scripts compute on their cells, and the statistics
-- (scripts/aggregate_results.py, and the helpers of the same names in the other two scripts). A cell
-- that `csv.DictReader` finds missing at the end of a short row is None. The floating point
-- operations, the built-in `sum` and `statistics.pstdev` are parameters.
pub mod Same
use scheduler_simulator.Prelude.{
  ℕ, Bool, true, false, not, ◌&&◌, ◌==◌, Option, none, some, List, [], ◌∷◌, if◌then◌else◌, String,
  Text, codes, text_eq, is_empty, ℤ, pos, eq_ℤ, Dict, lookup, length,
}
use scheduler_simulator.Python.{Runtime, Result, ok, ◌>>=◌, default_to}
use package.text.Mathlib.Text.{◌==◌ as str_eq}

pub record Floats (F : Type 0) : Type 0 where
  pub runtime : Runtime F
  -- float(s), if the text is a number, and int(x), if the number is finite
  pub parse : Text → Option F
  pub whole : F → Option ℤ
  pub of_int : ℤ → F
  pub add : F → F → F
  pub sub : F → F → F
  pub mul : F → F → F
  -- x / y for y != 0, and m / n for integers with n != 0
  pub div : F → F → F
  pub div_int : ℤ → ℤ → F
  pub abs : F → F
  pub sqrt : F → F
  -- x ** 2; a square that is too large raises
  pub squared : F → Result F
  -- x < y, x <= y and math.isfinite(x)
  pub lt : F → F → Bool
  pub le : F → F → Bool
  pub is_finite : F → Bool
  -- 0.01, 0.10, 0.5 and 1e-6
  pub hundredth : F
  pub tenth : F
  pub half : F
  pub tolerance : F
  -- sum(xs), statistics.pstdev(xs), for floats and for integers, and f"{x:.6g}"; the deviation raises for
  -- an infinity or a NaN, and where it is too large
  pub total : List F → F
  pub deviation : List F → Result F
  pub deviation_int : List ℤ → Result F
  pub show_six : F → Text

-- A row of `csv.DictReader`.
abbrev pub CsvRow : Type 0
CsvRow = Dict Text (Option Text)

-- row.get(k), with the outer `none` for a missing column
unfoldable pub cell : String → CsvRow → Option (Option Text)
cell k row = lookup text_eq (codes k) row

-- row.get(k, "")
unfoldable pub text_cell : String → CsvRow → Option Text
text_cell k row = default_to (cell k row) (some [])

-- str(v) of a cell
abbrev pub shown : Option Text → Text
shown none = codes "None"
shown (some t) = t

-- bool(v) of a cell, or of no cell
abbrev pub full_cell : Option (Option Text) → Bool
full_cell (some (some t)) = not (is_empty t)
full_cell _ = false

-- What a row of the outputs holds in a column.
pub data Cell (F : Type 0) : Type 0 where
  int_cell : ℤ → Cell F
  float_cell : F → Cell F
  text_of : Option Text → Cell F

-- A row of the outputs: a dictionary in the order of its columns.
abbrev pub Row : Type 0 → Type 0
Row F = Dict String (Cell F)

module _ {F : Type 0} where
  -- row.get(k); the rows have the columns that the scripts read
  unfoldable pub column : String → Row F → Cell F
  column k row = default_to (lookup str_eq k row) (text_of none)

  -- tuple(row.get(k) for k in fields)
  unfoldable pub key_of : (fields : List String) → Row F → List (Cell F)
  key_of [] row = []
  key_of (k ∷ ks) row = column k row ∷ key_of ks row

  abbrev pub word_cell : Text → Cell F
  word_cell t = text_of (some t)

  abbrev pub int_in : Cell F → ℤ
  int_in (int_cell n) = n
  int_in _ = pos 0

  abbrev pub text_in : Cell F → Option Text
  text_in (text_of t) = t
  text_in _ = none

abbrev pub float_in : {F : Type 0} → Floats F → Cell F → F
float_in A (float_cell x) = x
float_in A _ = A.runtime.float_zero

module _ {F : Type 0} (A : Floats F) where
  open A use {
    runtime, parse, whole, of_int, add, sub, mul, div, div_int, abs, sqrt, squared, lt, le,
    tolerance, total, deviation,
  }
  open runtime use {nonzero, float_zero, same_float}

  -- to_float(row.get(k, 0.0))
  unfoldable pub to_float : Option (Option Text) → F
  to_float (some (some t)) = default_to (parse t) float_zero
  to_float _ = float_zero

  -- to_int(row.get(k, 0)): int(float(…)), or 0
  unfoldable pub to_int : Option (Option Text) → ℤ
  to_int (some (some t)) = elim (parse t) [ none ↦ pos 0 | some x ↦ default_to (whole x) (pos 0) ]
  to_int _ = pos 0

  -- The cells of a row that is made of a line.
  abbrev pub float_at : String → CsvRow → Cell F
  float_at k raw = float_cell (to_float (cell k raw))

  abbrev pub int_at : String → CsvRow → Cell F
  int_at k raw = int_cell (to_int (cell k raw))

  abbrev pub text_at : String → CsvRow → Cell F
  text_at k raw = text_of (text_cell k raw)

  unfoldable pub mean : List F → F
  mean [] = float_zero
  mean (x ∷ xs) = div (total (x ∷ xs)) (of_int (pos (length (x ∷ xs))))

  unfoldable pub stddev : List F → Result F
  stddev [] = ok float_zero
  stddev (x ∷ []) = ok float_zero
  stddev (x ∷ y ∷ xs) = deviation (x ∷ y ∷ xs)

  unfoldable pub cv : List F → Result F
  cv xs =
      if lt float_zero (mean xs) then (stddev xs >>= λ d. ok (div d (mean xs))) else ok float_zero

  unfoldable pub safe_div : F → F → F
  safe_div a b = if nonzero b then div a b else float_zero

  -- safe_div of two integers
  unfoldable pub safe_div_int : ℤ → ℤ → F
  safe_div_int a b = if eq_ℤ b (pos 0) then float_zero else div_int a b

  -- safe_div of a number and an integer
  unfoldable pub safe_div_count : F → ℕ → F
  safe_div_count a n = if n == 0 then float_zero else div a (of_int (pos n))

  unfoldable pub approx_eq : F → F → Bool
  approx_eq a b = le (abs (sub a b)) tolerance

  -- (x - mx) * (y - my) for x, y in zip(xs, ys)
  unfoldable pub products : (mx my : F) → List F → List F → List F
  products mx my [] ys = []
  products mx my (x ∷ xs) [] = []
  products mx my (x ∷ xs) (y ∷ ys) = mul (sub x mx) (sub y my) ∷ products mx my xs ys

  -- (x - mx) ** 2 for x in xs
  unfoldable pub squares : (mx : F) → List F → Result (List F)
  squares mx [] = ok []
  squares mx (x ∷ xs) = do s ← squared (sub x mx); rest ← squares mx xs; ok (s ∷ rest)

  -- The quotient of corr, from the two lists of squares.
  unfoldable pub corr_of : (num : F) → (xs ys : List F) → F
  corr_of num xs ys =
      let den = mul (sqrt (total xs)) (sqrt (total ys)) in
      if nonzero den then div num den else float_zero

  unfoldable pub corr : List F → List F → Result F
  corr [] ys = ok float_zero
  corr (x ∷ []) ys = ok float_zero
  corr (x ∷ x' ∷ xs) ys =
      let l = x ∷ x' ∷ xs in
      let mx = mean l in
      let my = mean ys in
      if length l == length ys
      then (do
        sx ← squares mx l
        sy ← squares my ys
        ok (corr_of (total (products mx my l ys)) sx sy))
      else ok float_zero

  -- a == b for two cells
  unfoldable pub same_cell : Cell F → Cell F → Bool
  same_cell (int_cell a) (int_cell b) = eq_ℤ a b
  same_cell (float_cell a) (float_cell b) = same_float a b
  same_cell (text_of none) (text_of none) = true
  same_cell (text_of (some s)) (text_of (some t)) = text_eq s t
  same_cell _ _ = false

  -- a == b for two tuples of cells
  unfoldable pub same_cells : List (Cell F) → List (Cell F) → Bool
  same_cells [] [] = true
  same_cells (a ∷ as') (b ∷ bs) = same_cell a b && same_cells as' bs
  same_cells _ _ = false
