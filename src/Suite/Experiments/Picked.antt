-- ===== src/Suite/Experiments/Picked.antt =====
-- What `pick_experiments` selects.
use scheduler_simulator.Prelude.{
  ◌≡◌, subst, Bool, true, false, List, [], ◌∷◌, if◌then◌else◌, Text, is_empty, strip, split,
  strip_parts, All, any, on_if, arith, contains, text_eq→eq,
}
use scheduler_simulator.Python.{ok, check, check-eq-ok, system_exit, Value, on_ok, ok-injective}
use scheduler_simulator.Suite.Experiments.{is_wanted, pick, has_id, all_found, pick_experiments}

module _ {F : Type 0} (P : Value F → Type 0) where
  pick-All :
      (wanted : List Text) (exps : List (Value F)) {picked : List (Value F)}
      → pick wanted exps ≡ ok picked
      → All P exps
      → All P picked
  unfolding pick
  pick-All wanted [] h p = subst (All P) (ok-injective h) tt
  pick-All wanted (exp ∷ exps) h p = on_ok (is_wanted wanted exp) _ h λ hit _ h1.
      on_ok (pick wanted exps) _ h1
        λ rest e h2. subst (All P) (ok-injective h2) (add hit rest (pick-All wanted exps e p.1))
    where
      add : (b : Bool) (rest : List (Value F)) → All P rest → All P (if b then exp ∷ rest else rest)
      add true rest q = (p.0, q)
      add false rest q = q

  -- What holds of all experiments holds of the picked ones.
  pub pick_experiments-All :
      (exps : List (Value F)) (only : Text) {picked : List (Value F)}
      → pick_experiments exps only ≡ ok picked
      → All P exps
      → All P picked
  unfolding pick_experiments
  pick_experiments-All exps only h p =
      on_if (is_empty (strip only)) _ _ h (λ _ h1. subst (All P) (ok-injective h1) p)
        (λ _ h1.
          let wanted = strip_parts (split b',' only) in
          on_ok (pick wanted exps) _ h1 λ picked e h2.
            on_ok (check (all_found wanted picked) system_exit) _ h2
              λ _ _ h3. subst (All P) (ok-injective h3) (pick-All wanted exps e p))

module _ {F : Type 0} where
  all_found-found :
      (names : List Text) (picked : List (Value F)) (name : Text)
      → all_found names picked ≡ true
      → contains names name ≡ true
      → any (has_id name) picked ≡ true
  unfolding all_found
  all_found-found [] picked name h k = absurd (cc)
  all_found-found (n ∷ names) picked name h k =
      ground (arith, all_found-found names picked name, text_eq→eq name n)

  -- Each id in the list of wanted ids is the id of a picked experiment.
  pub pick_experiments-found :
      (exps : List (Value F)) (only : Text) (picked : List (Value F)) (name : Text)
      → pick_experiments exps only ≡ ok picked
      → is_empty (strip only) ≡ false
      → contains (strip_parts (split b',' only)) name ≡ true
      → any (has_id name) picked ≡ true
  unfolding pick_experiments
  pick_experiments-found exps only picked name h given wanted =
      on_if (is_empty (strip only)) _ _ h (λ empty _. absurd (cc))
        (λ _ h1.
          let names = strip_parts (split b',' only) in
          on_ok (pick names exps) _ h1 λ l e h2.
            on_ok (check (all_found names l) system_exit) _ h2 λ _ found h3.
              all_found-found names picked name
                (subst (λ x. all_found names x ≡ true) (ok-injective h3)
                  (check-eq-ok _ system_exit found))
                wanted)
