-- ===== src/Analysis/Cells/Same.antt =====
-- The equality of cells and of tuples of cells (Analysis/Cells).
use scheduler_simulator.Prelude.{
  List, [], ◌∷◌, sym, ◌∙◌, arith, ◌≡◌, refl, ap, ◌⊎◌, inl, inr, true, none, some, eq_ℤ→eq,
  text_eq→eq,
}
use scheduler_simulator.Analysis.Cells.{
  same_cells, Floats, Cell, int_cell, float_cell, text_of, same_cell,
}
use scheduler_simulator.Analysis.Grouping.Laws.{IsPartialEquality}

float_cell-injective : {F : Type 0} {x y : F} → float_cell x ≡ float_cell y → x ≡ y
float_cell-injective h = cc

module _ {F : Type 0} (A : Floats F) (law : IsPartialEquality A.runtime.same_float) where
  -- Two cells that are equal are the same, or equal numbers.
  abbrev AgreeAs : Cell F → Cell F → Type 0
  AgreeAs a b =
      (a ≡ b)
      ⊎ ((x y : F) × (a ≡ float_cell x) × (b ≡ float_cell y) × (A.runtime.same_float x y ≡ true))

  same_cell-AgreeAs : (a b : Cell F) → same_cell A a b ≡ true → AgreeAs a b
  unfolding same_cell
  same_cell-AgreeAs (int_cell m) (int_cell n) h = inl (ap int_cell (eq_ℤ→eq m n h))
  same_cell-AgreeAs (float_cell x) (float_cell y) h = inr (x, y, refl, refl, h)
  same_cell-AgreeAs (text_of none) (text_of none) h = inl refl
  same_cell-AgreeAs (text_of (some s)) (text_of (some t)) h =
      inl (ap (λ u. text_of (some u)) (text_eq→eq s t h))
  same_cell-AgreeAs _ _ h = absurd (cc)

  same_cell_sym : (a b : Cell F) → same_cell A a b ≡ true → same_cell A b a ≡ true
  unfolding same_cell
  same_cell_sym a b h = elim (same_cell-AgreeAs a b h) [
    | inl p ↦ cc
    | inr (x, y, p, q, xy) ↦ rw (p, q) (law.symmetric x y xy)
  ]

  same_cell_trans :
      (a b c : Cell F) → same_cell A a b ≡ true → same_cell A b c ≡ true → same_cell A a c ≡ true
  unfolding same_cell
  same_cell_trans a b c h k = elim (same_cell-AgreeAs a b h) [
    | inl p ↦ cc
    | inr (x, y, p, q, xy) ↦ elim (same_cell-AgreeAs b c k) [
      | inl r ↦ cc
      | inr (z, w, r, s, zw) ↦
          let yz : y ≡ z = float_cell-injective (sym q ∙ r) in
          rw (p, s) (law.transitive x y w xy (cc))
    ]
  ]

  same_cells_sym : (s t : List (Cell F)) → same_cells A s t ≡ true → same_cells A t s ≡ true
  unfolding same_cells
  same_cells_sym [] [] h = refl
  same_cells_sym (a ∷ s) (b ∷ t) h = ground (arith, same_cell_sym a b, same_cells_sym s t)
  same_cells_sym _ _ h = absurd (cc)

  same_cells_trans :
      (s t u : List (Cell F))
      → same_cells A s t ≡ true
      → same_cells A t u ≡ true
      → same_cells A s u ≡ true
  unfolding same_cells
  same_cells_trans [] [] [] h k = refl
  same_cells_trans (a ∷ s) (b ∷ t) (c ∷ u) h k =
      ground (arith, same_cell_trans a b c, same_cells_trans s t u)
  same_cells_trans _ _ _ h k = absurd (cc)

  pub same_cells-IsPartialEquality : IsPartialEquality (same_cells A)
  same_cells-IsPartialEquality = record {
    symmetric = same_cells_sym;
    transitive = same_cells_trans;
  }
