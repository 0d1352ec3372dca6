-- ===== src/Analysis/Fairness/Join.antt =====
-- The two dictionaries of the last table (Analysis/Fairness) against searches in the lists.
use scheduler_simulator.Prelude.{
  ◌≡◌, refl, ap, ◌∙◌, Bool, ◌&&◌, List, [], ◌∷◌, Dict, lookup, insert, Option, none, some,
  if◌then◌else◌, arith,
}
use scheduler_simulator.Analysis.Cells.{Floats, Cell, Row, same_cells}
use scheduler_simulator.Analysis.Cells.Same.{same_cells-IsPartialEquality}
use scheduler_simulator.Analysis.Grouping.Laws.{IsPartialEquality}
use scheduler_simulator.Analysis.Metrics.{fairness_oriented}
use scheduler_simulator.Analysis.Tasks.{run_key}
use scheduler_simulator.Analysis.Fairness.{
  baseline_key, scheduler_in, baselines_onto, baseline_map, chars_onto, chars_by_key, fairness_row,
  fairness_rows, fairness_vs_chars,
}

abbrev or_earlier : {V : Type 0} → Option V → Option V → Option V
or_earlier none o = o
or_earlier (some v) o = some v

-- The last row that passes a test.
unfoldable pub last_match : {V : Type 0} → (V → Bool) → List V → Option V
last_match test [] = none
last_match test (v ∷ vs) = or_earlier (last_match test vs) (if test v then some v else none)

module _ {K V : Type 0} (same : K → K → Bool) (law : IsPartialEquality same) where
  lookup-insert :
      (k j : K) (v : V) (d : Dict K V)
      → lookup same j (insert same k v d) ≡ (if same k j then some v else lookup same j d)
  unfolding lookup insert
  lookup-insert k j v [] = refl
  lookup-insert k j v ((i, w) ∷ d) = ground (
    arith,
    law.symmetric k j,
    law.symmetric i k,
    law.symmetric j k,
    law.symmetric k i,
    law.transitive i k j,
    law.transitive k i j,
    law.transitive k j i,
    law.transitive i j k,
    law.symmetric i j,
    law.symmetric j i,
    lookup-insert k j v d,
  )

or_else_assoc :
    {V : Type 0} (a b c : Option V) → or_earlier a (or_earlier b c) ≡ or_earlier (or_earlier a b) c
or_else_assoc none b c = refl
or_else_assoc (some v) b c = refl

module _ {F : Type 0} (A : Floats F) (law : IsPartialEquality A.runtime.same_float) where
  -- The last row of the baseline scheduler with the key.
  abbrev pub last_baseline : List (Cell F) → List (Row F) → Option (Row F)
  last_baseline k rows =
      last_match (λ r. scheduler_in ("MLFQ" ∷ []) r && same_cells A (baseline_key r) k) rows

  -- The last row of a run.
  abbrev pub last_chars : List (Cell F) → List (Row F) → Option (Row F)
  last_chars k rows = last_match (λ r. same_cells A (run_key r) k) rows

  lookup-baselines_onto :
      (k : List (Cell F)) (rows : List (Row F)) (d : Dict (List (Cell F)) (Row F))
      → lookup (same_cells A) k (baselines_onto A rows d)
        ≡ or_earlier (last_baseline k rows) (lookup (same_cells A) k d)
  unfolding baselines_onto last_match
  lookup-baselines_onto k [] d = refl
  lookup-baselines_onto k (row ∷ rows) d =
      let same_law = same_cells-IsPartialEquality A law in
      let added =
        if scheduler_in ("MLFQ" ∷ []) row
        then insert (same_cells A) (baseline_key row) row d
        else d in
      let kept =
        if scheduler_in ("MLFQ" ∷ []) row && same_cells A (baseline_key row) k
        then some row
        else none in
      let step : lookup (same_cells A) k added ≡ or_earlier kept (lookup (same_cells A) k d) =
        ground (arith, lookup-insert (same_cells A) same_law (baseline_key row) k row d) in
      lookup-baselines_onto k rows added
      ∙ (ap (or_earlier (last_baseline k rows)) step
          ∙ or_else_assoc (last_baseline k rows) kept (lookup (same_cells A) k d))

  lookup-chars_onto :
      (k : List (Cell F)) (rows : List (Row F)) (d : Dict (List (Cell F)) (Row F))
      → lookup (same_cells A) k (chars_onto A rows d)
        ≡ or_earlier (last_chars k rows) (lookup (same_cells A) k d)
  unfolding chars_onto last_match
  lookup-chars_onto k [] d = refl
  lookup-chars_onto k (row ∷ rows) d =
      let same_law = same_cells-IsPartialEquality A law in
      let kept = if same_cells A (run_key row) k then some row else none in
      let step : lookup (same_cells A) k (insert (same_cells A) (run_key row) row d)
          ≡ or_earlier kept (lookup (same_cells A) k d) =
        ground (arith, lookup-insert (same_cells A) same_law (run_key row) k row d) in
      lookup-chars_onto k rows (insert (same_cells A) (run_key row) row d)
      ∙ (ap (or_earlier (last_chars k rows)) step
          ∙ or_else_assoc (last_chars k rows) kept (lookup (same_cells A) k d))

  or_earlier-none : {V : Type 0} (o : Option V) → or_earlier o none ≡ o
  or_earlier-none none = refl
  or_earlier-none (some v) = refl

  -- The table without dictionaries: the last rows are looked for in the lists.
  unfoldable pub joined : (metrics chars : List (Row F)) → List (Row F) → List (Row F)
  joined metrics chars [] = []
  joined metrics chars (row ∷ rows) =
      let rest = joined metrics chars rows in
      if scheduler_in fairness_oriented row
      then fairness_row A (last_baseline (baseline_key row) metrics)
          (last_chars (run_key row) chars) row
        ∷ rest
      else rest

  fairness_rows-joined :
      (metrics chars rows : List (Row F))
      → fairness_rows A (baseline_map A metrics) (chars_by_key A chars) rows
        ≡ joined metrics chars rows
  unfolding fairness_rows joined baseline_map chars_by_key lookup
  fairness_rows-joined metrics chars [] = refl
  fairness_rows-joined metrics chars (row ∷ rows) =
      rw
        (
          lookup-baselines_onto (baseline_key row) metrics [],
          or_earlier-none (last_baseline (baseline_key row) metrics),
          lookup-chars_onto (run_key row) chars [],
          or_earlier-none (last_chars (run_key row) chars),
          fairness_rows-joined metrics chars rows,
        )
        refl

  -- Each row of a fairness oriented scheduler stands beside the last row of the MLFQ scheduler with
  -- the same configuration, and the last characteristics of its run, and no other row is there.
  pub fairness_vs_chars-joined :
      (metrics chars : List (Row F))
      → fairness_vs_chars A metrics chars ≡ joined metrics chars metrics
  unfolding fairness_vs_chars
  fairness_vs_chars-joined metrics chars = fairness_rows-joined metrics chars metrics
