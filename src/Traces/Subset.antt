-- ===== src/Traces/Subset.antt =====
-- real-time-workloads/alibaba_v2018/make_subset.py: the first rows or a reservoir sample of a CSV
-- file. `draw n` is `random.randint(1, n)`, and `is_alpha` is `str.isalpha` of one character. A
-- row is a list of cells, as `csv.reader` gives it.
pub mod Sample
use scheduler_simulator.Prelude.{
  ℕ, zero, suc, ◌-◌, Bool, true, false, not, ◌&&◌, Option, none, some, List, [], ◌∷◌, ◌++◌,
  if◌then◌else◌, Text, ℤ, pos, ltb_ℤ, leb_ℤ, any, length,
}

abbrev pub Row : Type 0
Row = List Text

pub data Mode : Type 0 where
  random head : Mode

pub record SubsetArgs : Type 0 where
  pub size : ℤ
  pub mode : Mode
  pub max_lines : Option ℤ
  pub no_header : Bool

-- The variables that the loop changes.
pub record Sampling : Type 0 where
  pub sampled : List Row
  pub scanned_rows : ℕ

-- What is written, header first; nothing for the exit with status 1.
pub record Subset : Type 0 where
  pub header : Option Row
  pub rows : List Row

unfoldable pub looks_like_header : (is_alpha : ℕ → Bool) → Row → Bool
looks_like_header is_alpha row = any (any is_alpha) row

-- sampled[i] = row, for an index in range
unfoldable pub replace_row : ℕ → Row → List Row → List Row
replace_row i row [] = []
replace_row zero row (r ∷ rows) = row ∷ rows
replace_row (suc i) row (r ∷ rows) = r ∷ replace_row i row rows

unfoldable pub is_capped : Option ℤ → ℕ → Bool
is_capped none n = false
is_capped (some limit) n = leb_ℤ limit (pos n)

-- if args.mode == "head": … else: …
abbrev pub by_mode : Mode → (in_random in_head : Sampling) → Sampling
by_mode random a b = a
by_mode head a b = b

module _ (draw : ℕ → ℕ) (args : SubsetArgs) where
  open args use {size, mode, max_lines, no_header}

  -- A row of the random mode, when `scanned_rows` counts it.
  unfoldable pub sample_row : (scanned_rows : ℕ) → Row → List Row → List Row
  sample_row scanned_rows row sampled =
      if ltb_ℤ (pos (length sampled)) size
      then sampled ++ row ∷ []
      else if leb_ℤ (pos (draw scanned_rows)) size
      then replace_row (draw scanned_rows - 1) row sampled
      else sampled

  -- for row in reader, with its two breaks
  unfoldable pub sample_rows : Sampling → List Row → Sampling
  sample_rows s [] = s
  sample_rows s (row ∷ rows) =
      let n = suc s.scanned_rows in
      let next = sample_rows (record { sampled = s.sampled ++ row ∷ []; scanned_rows = n }) rows in
      let drawn =
        sample_rows (record { sampled = sample_row n row s.sampled; scanned_rows = n }) rows in
      if is_capped max_lines s.scanned_rows
      then s
      else by_mode mode drawn
          (if ltb_ℤ (pos (length s.sampled)) size then next else record s { scanned_rows = n })

  -- `main`, from the rows of the input to those of the output.
  unfoldable pub make_subset : (is_alpha : ℕ → Bool) → List Row → Option Subset
  make_subset is_alpha [] = none
  make_subset is_alpha (first ∷ rows) =
      if leb_ℤ size (pos 0)
      then none
      else if not no_header && looks_like_header is_alpha first
      then some (record {
        header = some first;
        rows = (sample_rows (record { sampled = []; scanned_rows = 0 }) rows).sampled;
      })
      else some (record {
        header = none;
        rows = (sample_rows (record { sampled = first ∷ []; scanned_rows = 1 }) rows).sampled;
      })
