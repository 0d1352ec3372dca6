-- ===== src/Suite/Plan/Dedupe.antt =====
-- Deduplication in `build_run_plan`: which runs share a case.
use scheduler_simulator.Prelude.{
  ℕ, zero, suc, ◌<◌, ◌≡◌, refl, sym, ap, subst, ◌∙◌, true, false, some, List, [], ◌∷◌, ◌++◌, map,
  Dict, insert_fresh, lookup-eq-none, length, get_elem?, All, All-append, All-get_elem?, keys,
  arith,
}
use scheduler_simulator.Python.{ok, Value, Runtime}
use scheduler_simulator.Suite.Plan.{
  RunKey, Entry, PlanState, PlanArgs, append_at, make_entry, add_case, same_key, build_run_plan,
}
use scheduler_simulator.Suite.Plan.Steps.{Step, merged, added, build_run_plan_ind}

module _ {F : Type 0} (R : Runtime F) where
  abbrev run_keys : List (Entry F) → List (RunKey F)
  run_keys plan = map (λ e. e.key) plan

  run_keys-append_at :
      (plan : List (Entry F)) (i : ℕ) (exp_id : Value F)
      → run_keys (append_at plan i exp_id) ≡ run_keys plan
  unfolding append_at
  run_keys-append_at [] i exp_id = refl
  run_keys-append_at (e ∷ plan) zero exp_id = refl
  run_keys-append_at (e ∷ plan) (suc i) exp_id =
      ap (λ ks. e.key ∷ ks) (run_keys-append_at plan i exp_id)

  map-append_one :
      {A B : Type 0} (f : A → B) (xs : List A) (a : A) → map f (xs ++ a ∷ []) ≡ map f xs ++ f a ∷ []
  map-append_one f [] a = refl
  map-append_one f (x ∷ xs) a = ap (λ ys. f x ∷ ys) (map-append_one f xs a)

  -- No two keys are the same.
  abbrev IsDistinct : List (RunKey F) → Type 0
  IsDistinct [] = Unit
  IsDistinct (k ∷ ks) = All (λ j. same_key R k j ≡ false) ks × IsDistinct ks

  IsDistinct-append :
      (ks : List (RunKey F)) (k : RunKey F)
      → IsDistinct ks
      → All (λ j. same_key R j k ≡ false) ks
      → IsDistinct (ks ++ k ∷ [])
  IsDistinct-append [] k d h = (tt, tt)
  IsDistinct-append (j ∷ ks) k d h = (
    All-append (λ i. same_key R j i ≡ false) ks (k ∷ []) d.0 (h.0, tt),
    IsDistinct-append ks k d.1 h.1,
  )

  IsDistinct-get_elem? :
      (plan : List (Entry F)) (i j : ℕ) {d e : Entry F}
      → IsDistinct (run_keys plan)
      → i < j
      → get_elem? plan i ≡ some d
      → get_elem? plan j ≡ some e
      → same_key R d.key e.key ≡ false
  IsDistinct-get_elem? [] i j h lt p q = absurd (cc)
  IsDistinct-get_elem? (c ∷ plan) i zero h lt p q = elim lt [ ]
  IsDistinct-get_elem? (c ∷ plan) zero (suc j) {d} {e} h lt p q =
      let same : c ≡ d = cc in
      subst (λ x. same_key R x.key e.key ≡ false) same
        (All-get_elem? (λ k. same_key R c.key k ≡ false) (run_keys plan) j h.0 (at plan j q))
    where
      at :
          (l : List (Entry F)) (n : ℕ)
          → get_elem? l n ≡ some e
          → get_elem? (run_keys l) n ≡ some e.key
      at [] n r = absurd (cc)
      at (x ∷ l) zero r = cc
      at (x ∷ l) (suc n) r = at l n r
  IsDistinct-get_elem? (c ∷ plan) (suc i) (suc j) h lt p q =
      IsDistinct-get_elem? plan i j h.1 (omega arith) p q

module _ {F : Type 0} (R : Runtime F) (args : PlanArgs F) (dedupes : args.dedupe ≡ true) where
  -- `dedup_map` has the keys of the plan in its order, and refers to their positions.
  record Inv (s : PlanState F) : Type 0 where
    keyed : keys s.dedup_map ≡ run_keys R s.plan
    distinct : IsDistinct R (run_keys R s.plan)

  All-keys : (P : RunKey F → Type 0) (d : Dict (RunKey F) ℕ) → All (λ e. P e.0) d → All P (keys d)
  All-keys P [] h = tt
  All-keys P (e ∷ d) h = (h.0, All-keys P d h.1)

  Step-Inv :
      (s : PlanState F) (exp_id : Value F) (key : RunKey F) (s' : PlanState F)
      → Step R args s exp_id key s'
      → Inv s
      → Inv s'
  unfolding add_case make_entry
  Step-Inv s exp_id key s' (merged i _ _ e) inv = subst Inv (sym e) (record {
    keyed = inv.keyed ∙ sym (run_keys-append_at R s.plan i exp_id);
    distinct = subst (IsDistinct R) (sym (run_keys-append_at R s.plan i exp_id)) inv.distinct;
  })
  Step-Inv s exp_id key s' (added i workload scheduler suite_id seconds dir fresh _ _ e) inv =
      let entry =
        make_entry R args (suc s.case_index) exp_id i workload scheduler key suite_id seconds dir in
      let grown = map-append_one R (λ (x : Entry F). x.key) s.plan entry in
      let unknown = fresh dedupes in
      subst Inv (sym e) (record {
        keyed =
            ap keys (insert_fresh (same_key R) key (length s.plan) s.dedup_map unknown)
            ∙ map-append_one R (λ (x : RunKey F × ℕ). x.0) s.dedup_map (key, length s.plan)
            ∙ ap (λ ks. ks ++ key ∷ []) inv.keyed
            ∙ sym grown;
        distinct = subst (IsDistinct R) (sym grown) (
            IsDistinct-append R (run_keys R s.plan) key inv.distinct (
              subst (All (λ j. same_key R j key ≡ false)) inv.keyed (
                All-keys (λ j. same_key R j key ≡ false) s.dedup_map
                  (lookup-eq-none (same_key R) key s.dedup_map unknown))));
      })

  -- With deduplication no two cases of a plan have the same run key.
  pub build_run_plan-distinct :
      (selected : List (Value F)) (plan : List (Entry F)) (i j : ℕ) (d e : Entry F)
      → build_run_plan R args selected ≡ ok plan
      → i < j
      → get_elem? plan i ≡ some d
      → get_elem? plan j ≡ some e
      → same_key R d.key e.key ≡ false
  build_run_plan-distinct selected plan i j d e h lt p q =
      let (s, same, inv) =
        build_run_plan_ind R args Step-Inv selected h (record { keyed = refl; distinct = tt }) in
      IsDistinct-get_elem? R plan i j (subst (λ l. IsDistinct R (run_keys R l)) same inv.distinct)
        lt p q
