-- ===== src/Analysis/Main/Keys.antt =====
-- The columns of the rows of quality_checks.csv (Analysis/Quality, Analysis/Duplicates).
use scheduler_simulator.Prelude.{
  ◌≡◌, refl, All, All-append, List, [], ◌∷◌, ◌++◌, String, Text, Dict, Bool-cases, Option-cases,
  inl, inr, is_empty, ◌&&◌,
}
use scheduler_simulator.Analysis.Cells.{Floats, Cell, CsvRow, Row, column, float_in}
use scheduler_simulator.Analysis.Output.{keys}
use scheduler_simulator.Analysis.Metrics.{RunInfo, metrics_row}
use scheduler_simulator.Analysis.Quality.{
  Subject, add_quality_issue, stripped_cell, missing_text, missing_number, for_columns,
  missing_cells, low_completion, log_scale, row_issues, file_issues, quality_fields, subject,
  required_text, required_numeric, log_metrics,
}
use scheduler_simulator.Analysis.Duplicates.{duplicate_issue, group_issues}

-- All rows have these keys.
abbrev pub HasKeys : {F : Type 0} → List String → List (Row F) → Type 0
HasKeys ks rows = All (λ row. keys row ≡ ks) rows

module _ {F : Type 0} where
  pub HasKeys-append :
      (ks : List String) (rows others : List (Row F))
      → HasKeys ks rows
      → HasKeys ks others
      → HasKeys ks (rows ++ others)
  HasKeys-append ks rows others h g = All-append _ rows others h g

  issue-keys :
      (c v : String) (s : Subject) (m : String) (value : Cell F) (t : String) (message : Text)
      → keys (add_quality_issue c v s m value t message) ≡ quality_fields
  unfolding add_quality_issue keys
  issue-keys c v s m value t message = refl

  duplicate_issue-HasKeys : (rows : List (Row F)) → HasKeys quality_fields (duplicate_issue rows)
  unfolding duplicate_issue
  duplicate_issue-HasKeys [] = tt
  duplicate_issue-HasKeys (row ∷ []) = tt
  duplicate_issue-HasKeys (sample ∷ row ∷ rows) = (issue-keys _ _ _ _ _ _ _, tt)

  pub group_issues-HasKeys :
      (d : Dict (List (Cell F)) (List (Row F))) → HasKeys quality_fields (group_issues d)
  unfolding group_issues
  group_issues-HasKeys [] = tt
  group_issues-HasKeys ((key, rows) ∷ d) =
      HasKeys-append quality_fields (duplicate_issue rows) (group_issues d)
        (duplicate_issue-HasKeys rows) (group_issues-HasKeys d)

missing_text-HasKeys :
    (F : Type 0) (s : Subject) (raw : CsvRow) (col : String)
    → HasKeys quality_fields (missing_text {F = F} s raw col)
unfolding missing_text
missing_text-HasKeys F s raw col = elim (Bool-cases (is_empty (stripped_cell col raw))) [
  | inl blank ↦ rw blank (issue-keys _ _ _ _ _ _ _, tt)
  | inr full ↦ rw full tt
]

module _ {F : Type 0} (A : Floats F) where
  open A use {parse, lt, hundredth, tenth, is_finite, runtime}
  open runtime use {float_zero}

  missing_number-HasKeys :
      (s : Subject) (raw : CsvRow) (col : String)
      → HasKeys quality_fields (missing_number A s raw col)
  unfolding missing_number
  missing_number-HasKeys s raw col = elim (Bool-cases (is_empty (stripped_cell col raw))) [
    | inl blank ↦ rw blank (issue-keys _ _ _ _ _ _ _, tt)
    | inr full ↦ elim (Option-cases (parse (stripped_cell col raw))) [
      | inl bad ↦ rw (full, bad) (issue-keys _ _ _ _ _ _ _, tt)
      | inr (x, good) ↦ rw (full, good) tt
    ]
  ]

  low_completion-HasKeys :
      (s : Subject) (row : Row F) → HasKeys quality_fields (low_completion A s row)
  unfolding low_completion
  low_completion-HasKeys s row =
      let completion = float_in A (column "CompletionRatio" row) in
      elim (Bool-cases (lt completion hundredth)) [
        | inl low ↦ rw low (issue-keys _ _ _ _ _ _ _, tt)
        | inr more ↦ elim (Bool-cases (lt completion tenth)) [
          | inl low ↦ rw (more, low) (issue-keys _ _ _ _ _ _ _, tt)
          | inr enough ↦ rw (more, enough) tt
        ]
      ]

  log_scale-HasKeys :
      (s : Subject) (row : Row F) (k : String) → HasKeys quality_fields (log_scale A s row k)
  unfolding log_scale
  log_scale-HasKeys s row k =
      let value = float_in A (column k row) in
      elim (Bool-cases (is_finite value && lt float_zero value)) [
        | inl good ↦ rw good tt
        | inr bad ↦ rw bad (issue-keys _ _ _ _ _ _ _, tt)
      ]

  for_columns-HasKeys :
      (test : String → List (Row F)) (cols : List String)
      → ((col : String) → HasKeys quality_fields (test col))
      → HasKeys quality_fields (for_columns A test cols)
  for_columns-HasKeys test [] h = tt
  for_columns-HasKeys test (col ∷ cols) h =
      HasKeys-append quality_fields (test col) (for_columns A test cols) (h col)
        (for_columns-HasKeys test cols h)

  row_issues-HasKeys :
      (info : RunInfo) (raw : CsvRow) → HasKeys quality_fields (row_issues A info raw)
  unfolding row_issues missing_cells
  row_issues-HasKeys info raw =
      let s = subject info raw in
      let row = metrics_row A info raw in
      HasKeys-append quality_fields (missing_cells A s raw) _
        (HasKeys-append quality_fields (for_columns A (missing_text s raw) required_text) _
          (for_columns-HasKeys (missing_text s raw) required_text (missing_text-HasKeys F s raw))
          (for_columns-HasKeys (missing_number A s raw) required_numeric
            (missing_number-HasKeys s raw)))
        (HasKeys-append quality_fields (low_completion A s row) _ (low_completion-HasKeys s row)
          (for_columns-HasKeys (log_scale A s row) log_metrics (log_scale-HasKeys s row)))

  pub file_issues-HasKeys :
      (info : RunInfo) (raws : List CsvRow) → HasKeys quality_fields (file_issues A info raws)
  unfolding file_issues
  file_issues-HasKeys info [] = tt
  file_issues-HasKeys info (raw ∷ raws) =
      HasKeys-append quality_fields (row_issues A info raw) (file_issues A info raws)
        (row_issues-HasKeys info raw) (file_issues-HasKeys info raws)
