-- ===== src/Analysis/Quality/Complete.antt =====
-- The missing_cell checks (Analysis/Quality) against the cells of the line and of its row.
use scheduler_simulator.Prelude.{
  Bool, any, leb, ◌&&◌, ◌≡◌, refl, sym, ap, ◌∙◌, ◌↔◌, true, false, Bool-cases, Option-cases, inl,
  inr, All, List, [], ◌∷◌, ◌++◌, String, Text, codes, is_empty, strip, none, some, Option, lookup,
}
use scheduler_simulator.Python.{default_to}
use scheduler_simulator.Analysis.Cells.{
  Floats, CsvRow, Row, float_cell, cell, text_cell, to_float, column, shown,
}
use scheduler_simulator.Analysis.Experiments.Flags.{experiment_flags-SixFlags}
use scheduler_simulator.Analysis.Output.{named_flags}
use scheduler_simulator.Analysis.Metrics.{RunInfo, metrics_row}
use scheduler_simulator.Analysis.Quality.{
  Subject, required_text, required_numeric, stripped_cell, missing_text, missing_number,
  for_columns, missing_cells,
}

abbrev pub required_floats : List String
required_floats = "CompletionRatio" ∷ "MeanRT" ∷ "P99RT" ∷ "Throughput" ∷ "JainsFairness" ∷ []

-- One of the characters 28 to 31, which `strip` removes and float() refuses.
unfoldable pub has_separator : Text → Bool
has_separator t = any (λ c. leb 28 c && leb c 31) t

module _ {F : Type 0} (A : Floats F) where
  open A use {parse}

  abbrev pub HasText : CsvRow → String → Type 0
  HasText raw col = is_empty (stripped_cell col raw) ≡ false

  abbrev pub HasNumber : CsvRow → String → Type 0
  HasNumber raw col = HasText raw col × (x : F) × (parse (stripped_cell col raw) ≡ some x)

  abbrev pub IsComplete : CsvRow → Type 0
  IsComplete raw = All (HasText raw) required_text × All (HasNumber raw) required_numeric

  missing_text-HasText :
      (s : Subject) (raw : CsvRow) (col : String)
      → (missing_text {F = F} s raw col ≡ []) ↔ HasText raw col
  unfolding missing_text
  missing_text-HasText s raw col = elim (Bool-cases (is_empty (stripped_cell col raw))) [
    | inl blank ↦ rw blank (λ h. absurd (cc), λ h. absurd (cc))
    | inr full ↦ rw full (λ h. refl, λ h. refl)
  ]

  missing_number-HasNumber :
      (s : Subject) (raw : CsvRow) (col : String)
      → (missing_number A s raw col ≡ []) ↔ HasNumber raw col
  unfolding missing_number
  missing_number-HasNumber s raw col = elim (Bool-cases (is_empty (stripped_cell col raw))) [
    | inl blank ↦ rw blank (λ h. absurd (cc), λ h. absurd (cc))
    | inr full ↦ elim (Option-cases (parse (stripped_cell col raw))) [
      | inl bad ↦ rw (full, bad) (λ h. absurd (cc), λ h. absurd (cc))
      | inr (x, good) ↦ rw (full, good) (λ h. (refl, x, refl), λ h. refl)
    ]
  ]

  append-[] : (s t : List (Row F)) → s ++ t ≡ [] → (s ≡ []) × (t ≡ [])
  append-[] [] t h = (refl, h)
  append-[] (a ∷ s) t h = absurd (cc)

  for_columns-[] :
      (test : String → List (Row F)) (P : String → Type 0)
      → ((col : String) → (test col ≡ []) ↔ P col)
      → (cols : List String) → (for_columns A test cols ≡ []) ↔ All P cols
  for_columns-[] test P each [] = (λ h. tt, λ h. refl)
  for_columns-[] test P each (col ∷ cols) =
      let (down, up) = for_columns-[] test P each cols in
      (
        λ h.
            let (here, rest) = append-[] (test col) (for_columns A test cols) h in
            ((each col).0 here, down rest),
        λ (p, ps). rw ((each col).1 p, up ps) refl,
      )

  -- A line has no missing_cell issue exactly if every required text is more than blanks and every
  -- required number is a text that float() reads.
  pub missing_cells-IsComplete :
      (s : Subject) (raw : CsvRow) → (missing_cells A s raw ≡ []) ↔ IsComplete raw
  unfolding missing_cells
  missing_cells-IsComplete s raw =
      let texts =
        for_columns-[] (missing_text s raw) (HasText raw) (missing_text-HasText s raw)
          required_text in
      let numbers =
        for_columns-[] (missing_number A s raw) (HasNumber raw) (missing_number-HasNumber s raw)
          required_numeric in
      (
        λ h.
            let (p, q) =
              append-[] (for_columns A (missing_text s raw) required_text)
                (for_columns A (missing_number A s raw) required_numeric) h in
            (texts.0 p, numbers.0 q),
        λ (p, q). rw (texts.1 p, numbers.1 q) refl,
      )

  -- What is documented of float() on texts: the blanks that `strip` removes do not count, but for the
  -- four separators, and "None" is no number.
  pub record IsNumberParser : Type 0 where
    pub strips : (t : Text) → has_separator t ≡ false → parse (strip t) ≡ parse t
    pub none_fails : parse (strip (codes "None")) ≡ none

  -- The cell that the row holds is the number that the line spells, not the default.
  abbrev pub Spelled : CsvRow → Row F → String → Type 0
  Spelled raw row col =
      (x : F) × (parse (stripped_cell col raw) ≡ some x) × (column col row ≡ float_cell x)

  strip_nil : is_empty (strip []) ≡ true
  unfolding strip
  strip_nil = refl

  to_float-HasNumber :
      IsNumberParser
      → (raw : CsvRow) (col : String) → has_separator (shown (text_cell col raw)) ≡ false
      → HasNumber raw col
      → (x : F) × (parse (stripped_cell col raw) ≡ some x) × (to_float A (cell col raw) ≡ x)
  unfolding to_float stripped_cell text_cell
  to_float-HasNumber law raw col plain (full, x, p) = spelled (cell col raw) plain full p
    where
      spelled :
          (c : Option (Option Text))
          → has_separator (shown (default_to c (some []))) ≡ false
          → is_empty (strip (shown (default_to c (some [])))) ≡ false
          → parse (strip (shown (default_to c (some [])))) ≡ some x
          → (y : F) × (parse (strip (shown (default_to c (some [])))) ≡ some y) × (to_float A c ≡ y)
      spelled none h f q = let clash : true ≡ false = sym strip_nil ∙ f in absurd (cc)
      spelled (some none) h f q = let clash : none ≡ some x = sym law.none_fails ∙ q in absurd (cc)
      spelled (some (some t)) h f q = (x, q, rw (sym (law.strips t h), q) refl)

  -- If a line has no missing_cell issue, and none of the characters 28 to 31 in its required columns
  -- that are floats, then these hold in its row the numbers that the line spells, for a float() that
  -- skips all other blanks and refuses "None".
  pub missing_cells-Spelled :
      IsNumberParser
      → (s : Subject) (info : RunInfo) (raw : CsvRow) → missing_cells A s raw ≡ []
      → All (λ col. has_separator (shown (text_cell col raw)) ≡ false) required_floats
      → All (Spelled raw (metrics_row A info raw)) required_floats
  unfolding metrics_row column lookup named_flags
  missing_cells-Spelled law s info raw h (g1, (g2, (g3, (g4, (g5, _))))) =
      let (a, b, c, d, e, f, six) = experiment_flags-SixFlags info.experiment_ids in
      let (_, (_, (ratio, (mean_rt, (p99, (throughput, (jain, _))))))) =
        (missing_cells-IsComplete s raw).0 h in
      let (x1, p1, e1) = to_float-HasNumber law raw "CompletionRatio" g1 ratio in
      let (x2, p2, e2) = to_float-HasNumber law raw "MeanRT" g2 mean_rt in
      let (x3, p3, e3) = to_float-HasNumber law raw "P99RT" g3 p99 in
      let (x4, p4, e4) = to_float-HasNumber law raw "Throughput" g4 throughput in
      let (x5, p5, e5) = to_float-HasNumber law raw "JainsFairness" g5 jain in
      (
        (x1, p1, rw six (ap float_cell e1)),
        (
          (x2, p2, rw six (ap float_cell e2)),
          (
            (x3, p3, rw six (ap float_cell e3)),
            ((x4, p4, rw six (ap float_cell e4)), ((x5, p5, rw six (ap float_cell e5)), tt)),
          ),
        ),
      )
