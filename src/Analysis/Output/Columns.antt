-- ===== src/Analysis/Output/Columns.antt =====
-- `write_csv` on rows whose keys are the columns (Analysis/Output).
use scheduler_simulator.Prelude.{
  ◌≡◌, refl, sym, ◌∙◌, subst, ap, Bool, true, false, not, ◌&&◌, List, [], ◌∷◌, map, All, String,
  lookup, Bool-cases, inl, inr, arith,
}
use scheduler_simulator.Python.{ok}
use scheduler_simulator.Analysis.Cells.{Cell, Row}
use scheduler_simulator.Analysis.Output.{is_column, all_columns, keys, ordered, write_csv}
use package.text.Mathlib.Text.{◌==◌ as str_eq}
use package.text.Mathlib.TextEquality.{eq_iff}

-- No name stands twice.
abbrev pub names_differ : List String → Bool
names_differ [] = true
names_differ (k ∷ ks) = not (is_column ks k) && names_differ ks

str_eq_refl : (s : String) → str_eq s s ≡ true
str_eq_refl s = (eq_iff s s).1 refl

str_eq_comm : (s t : String) → str_eq s t ≡ str_eq t s
str_eq_comm s t = elim (Bool-cases (str_eq s t)) [
  | inl hit ↦ hit ∙ sym ((eq_iff t s).1 (sym ((eq_iff s t).0 hit)))
  | inr miss ↦ elim (Bool-cases (str_eq t s)) [
    | inl hit ↦ (eq_iff s t).1 (sym ((eq_iff t s).0 hit)) ∙ sym hit
    | inr miss' ↦ miss ∙ sym miss'
  ]
]

all_columns-cons :
    (f : String) (fs ks : List String) → all_columns fs ks ≡ true → all_columns (f ∷ fs) ks ≡ true
all_columns-cons f fs [] h = refl
all_columns-cons f fs (k ∷ ks) h = ground (arith, all_columns-cons f fs ks)

all_columns_refl : (ks : List String) → all_columns ks ks ≡ true
all_columns_refl [] = refl
all_columns_refl (k ∷ ks) = rw (str_eq_refl k, all_columns-cons k ks ks (all_columns_refl ks)) refl

module _ {F : Type 0} where
  abbrev pub values : Row F → List (Cell F)
  values [] = []
  values ((k, v) ∷ row) = v ∷ values row

  ordered-cons :
      (k : String) (v : Cell F) (ks : List String) (row : Row F)
      → is_column ks k ≡ false
      → ordered ks ((k, v) ∷ row) ≡ ordered ks row
  unfolding ordered lookup
  ordered-cons k v [] row h = refl
  ordered-cons k v (j ∷ ks) row h =
      let differ : str_eq k j ≡ false = ground (arith, str_eq_comm k j) in
      let rest : is_column ks k ≡ false = ground (arith) in
      rw (differ, ordered-cons k v ks row rest) refl

  ordered-keys :
      (row : Row F) → names_differ (keys row) ≡ true → ordered (keys row) row ≡ values row
  unfolding ordered lookup keys
  ordered-keys [] h = refl
  ordered-keys ((k, v) ∷ row) h =
      let fresh : is_column (keys row) k ≡ false = ground (arith) in
      let rest : names_differ (keys row) ≡ true = ground (arith) in
      rw (str_eq_refl k, ordered-cons k v (keys row) row fresh, ordered-keys row rest) refl

  pub write_csv-ok :
      (fields : List String) (rows : List (Row F))
      → names_differ fields ≡ true
      → All (λ row. keys row ≡ fields) rows
      → write_csv fields rows ≡ ok (map values rows)
  unfolding write_csv
  write_csv-ok fields [] u h = refl
  write_csv-ok fields (row ∷ rows) u (p, h) =
      let line : ordered fields row ≡ values row =
        subst (λ ks. ordered ks row ≡ values row) p (ordered-keys row (ap names_differ p ∙ u)) in
      rw (p, all_columns_refl fields, write_csv-ok fields rows u h, line) refl
