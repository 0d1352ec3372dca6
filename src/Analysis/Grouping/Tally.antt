-- ===== src/Analysis/Grouping/Tally.antt =====
-- Counters in dictionaries that `adjust` and `sorted_items` handle (Analysis/Grouping).
use scheduler_simulator.Prelude.{
  ◌≡◌, refl, ap, ◌∙◌, Bool, [], ◌∷◌, Dict, ℕ, suc, ◌+◌, length, arith,
}
use scheduler_simulator.Analysis.Grouping.{adjust, insert_item, sorted_items}

module _ {K V : Type 0} (count : V → ℕ) where
  -- The sum of a counter over all values.
  abbrev pub counted : Dict K V → ℕ
  counted [] = 0
  counted ((k, v) ∷ d) = count v + counted d

  module _ (lt : K → K → Bool) where
    counted-insert_item :
        (k : K) (v : V) (d : Dict K V) → counted (insert_item lt (k, v) d) ≡ count v + counted d
    unfolding insert_item
    counted-insert_item k v [] = refl
    counted-insert_item k v ((j, w) ∷ d) = ground (arith, counted-insert_item k v d)

    pub counted-sorted_items : (d : Dict K V) → counted (sorted_items lt d) ≡ counted d
    unfolding sorted_items
    counted-sorted_items [] = refl
    counted-sorted_items ((k, v) ∷ d) =
        omega (arith, counted-insert_item k v (sorted_items lt d), counted-sorted_items d)

  -- A step that adds one to the counter of a value adds one to the sum.
  pub counted-adjust :
      (same : K → K → Bool) (start : V) (step : V → V)
      → count start ≡ 0
      → ((v : V) → count (step v) ≡ suc (count v))
      → (k : K) (d : Dict K V) → counted (adjust same k start step d) ≡ suc (counted d)
  unfolding adjust
  counted-adjust same start step zeroed up k [] = omega (arith, up start, zeroed)
  counted-adjust same start step zeroed up k ((j, v) ∷ d) =
      ground (arith, up v, counted-adjust same start step zeroed up k d)

module _ {K V : Type 0} (lt : K → K → Bool) where
  length-insert_item : (e : K × V) (d : Dict K V) → length (insert_item lt e d) ≡ suc (length d)
  unfolding insert_item
  length-insert_item e [] = refl
  length-insert_item e (g ∷ d) = ground (arith, length-insert_item e d)

  pub length-sorted_items : (d : Dict K V) → length (sorted_items lt d) ≡ length d
  unfolding sorted_items
  length-sorted_items [] = refl
  length-sorted_items (e ∷ d) =
      length-insert_item e (sorted_items lt d) ∙ ap suc (length-sorted_items d)
