-- ===== src/Analysis/Allocation/Columns.antt =====
-- The columns that the tables of the runs share (Analysis/Allocation, run_columns).
use scheduler_simulator.Prelude.{
  ◌≡◌, refl, false, List, [], ◌∷◌, ◌++◌, String, Text, lookup, ℕ, arith, append_assoc,
}
use scheduler_simulator.Analysis.Cells.{Cell, Row, column, word_cell}
use scheduler_simulator.Analysis.Experiments.{column_flags}
use scheduler_simulator.Analysis.Output.{is_column, named_flags, flag_names}
use scheduler_simulator.Analysis.Tasks.{run_key_fields}
use scheduler_simulator.Analysis.Allocation.{named, run_columns}
use package.text.Mathlib.Text.{◌==◌ as str_eq}

module _ {F : Type 0} where
  lookup-named :
      (k : String) (ks : List String) (cs : List (Cell F)) (row : Row F)
      → is_column ks k ≡ false
      → lookup str_eq k (named ks cs ++ row) ≡ lookup str_eq k row
  unfolding lookup named
  lookup-named k [] cs row h = refl
  lookup-named k (j ∷ ks) [] row h = refl
  lookup-named k (j ∷ ks) (c ∷ cs) row h = ground (arith, lookup-named k ks cs row)

  lookup-named_flags :
      (k : String) (ks : List String) (ns : List ℕ) (row : Row F)
      → is_column ks k ≡ false
      → lookup str_eq k (named_flags {F = F} ks ns ++ row) ≡ lookup str_eq k row
  unfolding lookup named_flags
  lookup-named_flags k [] ns row h = refl
  lookup-named_flags k (j ∷ ks) [] row h = refl
  lookup-named_flags k (j ∷ ks) (n ∷ ns) row h = ground (arith, lookup-named_flags k ks ns row)

  -- A column that follows the shared ones is found.
  pub column-run_columns :
      (k : String) (key : List (Cell F)) (exp_ids : Text) (row : Row F)
      → is_column run_key_fields k ≡ false
      → is_column ("ExperimentIds" ∷ flag_names) k ≡ false
      → column k (run_columns key exp_ids ++ row) ≡ column k row
  unfolding column run_columns lookup
  column-run_columns k key exp_ids row h g =
      let tail : Row F =
        ("ExperimentIds", word_cell exp_ids) ∷ named_flags flag_names (column_flags exp_ids) in
      let differ : str_eq "ExperimentIds" k ≡ false = ground arith in
      let later : is_column flag_names k ≡ false = ground arith in
      rw
        (
          append_assoc (named run_key_fields key) tail row,
          lookup-named k run_key_fields key (tail ++ row) h,
        )
        (rw (differ, lookup-named_flags k flag_names (column_flags exp_ids) row later) refl)
