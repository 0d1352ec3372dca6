-- ===== src/Suite/Plan/Growth.antt =====
-- Plans before and after a step of the planner (Suite/Plan, append_at).
use scheduler_simulator.Prelude.{
  ℕ, zero, suc, ◌≡◌, refl, sym, ap, ◌∙◌, some, List, [], ◌∷◌, ◌++◌, append_assoc, append-nil,
  get_elem?, get_elem?-append_left, arith,
}
use scheduler_simulator.Python.{Value}
use scheduler_simulator.Suite.Plan.{Entry, append_at, add_experiment}

module _ {F : Type 0} where
  -- The cases of `plan` are in `plan'`, with the same keys and at least the same experiments.
  abbrev pub Grows : (plan plan' : List (Entry F)) → Type 0
  Grows plan plan' =
      (i : ℕ) (e : Entry F)
      → get_elem? plan i ≡ some e
      → (e' : Entry F) × (get_elem? plan' i ≡ some e')
        × (e'.key ≡ e.key)
        × (more : List (Value F)) × (e'.experiments ≡ e.experiments ++ more)

  pub Grows-refl : (plan : List (Entry F)) → Grows plan plan
  Grows-refl plan i e h = (e, h, refl, [], sym (append-nil e.experiments))

  pub Grows-trans : (a b c : List (Entry F)) → Grows a b → Grows b c → Grows a c
  Grows-trans a b c g k i e h =
      let (e1, h1, k1, m1, x1) = g i e h in
      let (e2, h2, k2, m2, x2) = k i e1 h1 in
      (e2, h2, k2 ∙ k1, m1 ++ m2, x2 ∙ ap (λ xs. xs ++ m2) x1 ∙ append_assoc e.experiments m1 m2)

  pub Grows-append : (plan more : List (Entry F)) → Grows plan (plan ++ more)
  Grows-append plan more i e h =
      (e, get_elem?-append_left plan more i h, refl, [], sym (append-nil e.experiments))

  pub Grows-append_at :
      (plan : List (Entry F)) (j : ℕ) (exp_id : Value F) → Grows plan (append_at plan j exp_id)
  unfolding append_at
  Grows-append_at [] j exp_id i e h = absurd (cc)
  Grows-append_at (d ∷ plan) zero exp_id zero e h =
      (add_experiment exp_id e, ground arith, refl, exp_id ∷ [], refl)
  Grows-append_at (d ∷ plan) zero exp_id (suc i) e h = Grows-refl plan i e h
  Grows-append_at (d ∷ plan) (suc j) exp_id zero e h = Grows-refl (d ∷ plan) zero e h
  Grows-append_at (d ∷ plan) (suc j) exp_id (suc i) e h = Grows-append_at plan j exp_id i e h
