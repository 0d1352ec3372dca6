-- ===== src/Suite/Plan/Coverage.antt =====
-- Every run of every selected experiment has a case in the plan of `build_run_plan`.
use scheduler_simulator.Prelude.{
  ℕ, zero, suc, ◌≡◌, ◌⊎◌, inl, inr, refl, sym, ap, subst, ◌∙◌, Bool, true, some, List, [], ◌∷◌,
  ◌++◌, append_assoc, Dict, lookup, insert_fresh, length, get_elem?, get_elem?-append_left,
  get_elem?-append_last, Bool-cases, arith,
}
use scheduler_simulator.Python.{
  ok, ◌>>=◌, Value, Items, Runtime, index, get_or, iterate, on_ok, ok-injective,
}
use scheduler_simulator.Suite.Plan.{
  RunKey, Entry, PlanState, PlanArgs, empty_state, append_at, add_experiment, make_entry, add_case,
  same_key, plan_run, plan_runs, plan_experiment, plan_experiments, build_run_plan,
}
use scheduler_simulator.Suite.Plan.Growth.{
  Grows, Grows-refl, Grows-trans, Grows-append, Grows-append_at,
}
use scheduler_simulator.Suite.Plan.Steps.{
  Step, merged, added, IsKeyOf, plan_run-Step, plan_runs_ind, plan_experiments_ind,
}

lookup-append_one :
    {K V : Type 0} (same : K → K → Bool) (k j : K) (v : V) (d : Dict K V) (w : V)
    → lookup same k (d ++ (j, v) ∷ []) ≡ some w
    → (lookup same k d ≡ some w) ⊎ (same j k ≡ true) × (v ≡ w)
unfolding lookup
lookup-append_one same k j v [] w h = elim (Bool-cases (same j k)) [
  | inl hit ↦ inr (hit, ground arith)
  | inr miss ↦ absurd (ground arith)
]
lookup-append_one same k j v ((i, u) ∷ d) w h = elim (Bool-cases (same i k)) [
  | inl hit ↦ inl (ground arith)
  | inr miss ↦ ground (arith, lookup-append_one same k j v d w)
]

module _ {F : Type 0} where
  -- `exp` has the id `exp_id` and, at position `b`, the run `run`.
  pub record HasRun (exp : Value F) (b : ℕ) (exp_id run : Value F) : Type 0 where
    pub id_eq : index "id" exp ≡ ok exp_id
    pub runs : List (Value F)
    pub runs_eq : (get_or "runs" exp (Value.list Items.nil) >>= iterate) ≡ ok runs
    pub at : get_elem? runs b ≡ some run

module _ {F : Type 0} (R : Runtime F) where
  -- A case of the plan has this key, or a key that compares equal to it, and names the experiment.
  pub record IsCovered (plan : List (Entry F)) (exp_id : Value F) (key : RunKey F) : Type 0 where
    pub position : ℕ
    pub entry : Entry F
    pub at : get_elem? plan position ≡ some entry
    pub same : (entry.key ≡ key) ⊎ (same_key R entry.key key ≡ true)
    pub before : List (Value F)
    pub after : List (Value F)
    pub named : entry.experiments ≡ before ++ exp_id ∷ after

  IsCovered-Grows :
      (plan plan' : List (Entry F)) (exp_id : Value F) (key : RunKey F)
      → Grows plan plan'
      → IsCovered plan exp_id key
      → IsCovered plan' exp_id key
  IsCovered-Grows plan plan' exp_id key g c =
      let (e, at, keyed, more, named) = g c.position c.entry c.at in
      record {
        position = c.position;
        entry = e;
        at = at;
        same = elim c.same [
          | inl p ↦ inl (keyed ∙ p)
          | inr p ↦ inr (subst (λ k. same_key R k key ≡ true) (sym keyed) p)
        ];
        before = c.before;
        after = c.after ++ more;
        named =
            named ∙ ap (λ xs. xs ++ more) c.named ∙ append_assoc c.before (exp_id ∷ c.after) more;
      }

  append_at-get_elem? :
      (plan : List (Entry F)) (i : ℕ) (exp_id : Value F) {e : Entry F}
      → get_elem? plan i ≡ some e
      → get_elem? (append_at plan i exp_id) i ≡ some (add_experiment exp_id e)
  unfolding append_at
  append_at-get_elem? [] i exp_id h = absurd (cc)
  append_at-get_elem? (d ∷ plan) zero exp_id h = ground arith
  append_at-get_elem? (d ∷ plan) (suc i) exp_id h = append_at-get_elem? plan i exp_id h

  module _ (args : PlanArgs F) where
    -- With deduplication `dedup_map` refers to cases whose keys compare equal.
    abbrev IsPlaced : PlanState F → Type 0
    IsPlaced s =
        args.dedupe ≡ true
        → (k : RunKey F) (i : ℕ) → lookup (same_key R) k s.dedup_map ≡ some i
        → (e : Entry F) × (get_elem? s.plan i ≡ some e) × (same_key R e.key k ≡ true)

    Step-Grows :
        (s : PlanState F) (exp_id : Value F) (key : RunKey F) (s' : PlanState F)
        → Step R args s exp_id key s'
        → Grows s.plan s'.plan
    unfolding add_case
    Step-Grows s exp_id key s' (merged i _ _ e) =
        subst (λ t. Grows s.plan t.plan) (sym e) (Grows-append_at s.plan i exp_id)
    Step-Grows s exp_id key s' (added i workload scheduler suite_id seconds dir _ _ _ e) =
        subst (λ t. Grows s.plan t.plan) (sym e) (Grows-append s.plan _)

    Step-IsPlaced :
        (s : PlanState F) (exp_id : Value F) (key : RunKey F) (s' : PlanState F)
        → Step R args s exp_id key s'
        → IsPlaced s
        → IsPlaced s'
    unfolding add_case make_entry
    Step-IsPlaced s exp_id key s' (merged i _ _ e) p = subst IsPlaced (sym e) λ on k j h.
        let (d, at, hit) = p on k j h in
        let (d', at', keyed, _, _) = Grows-append_at s.plan i exp_id j d at in
        (d', at', subst (λ x. same_key R x k ≡ true) (sym keyed) hit)
    Step-IsPlaced s exp_id key s' (added i workload scheduler suite_id seconds dir fresh _ _ e) p =
        let entry =
          make_entry R args (suc s.case_index) exp_id i workload scheduler key suite_id seconds
            dir in
        subst IsPlaced (sym e) λ on k j h.
          elim (lookup-append_one (same_key R) k key (length s.plan) s.dedup_map j (
            subst (λ d. lookup (same_key R) k d ≡ some j)
              (insert_fresh (same_key R) key (length s.plan) s.dedup_map (fresh on)) h)) [
                | inl old ↦
                    let (d, at, hit) = p on k j old in
                    (d, get_elem?-append_left s.plan (entry ∷ []) j at, hit)
                | inr (hit, here) ↦ (
                  entry,
                  subst (λ n. get_elem? (s.plan ++ entry ∷ []) n ≡ some entry) here
                      (get_elem?-append_last s.plan entry),
                  hit,
                )
              ]

    Step-IsCovered :
        (s : PlanState F) (exp_id : Value F) (key : RunKey F) (s' : PlanState F)
        → Step R args s exp_id key s'
        → IsPlaced s
        → IsCovered s'.plan exp_id key
    unfolding add_case make_entry
    Step-IsCovered s exp_id key s' (merged i on known e) p =
        let (d, at, hit) = p on key i known in
        subst (λ t. IsCovered t.plan exp_id key) (sym e)
          (record {
            position = i;
            entry = add_experiment exp_id d;
            at = append_at-get_elem? s.plan i exp_id at;
            same = inr hit;
            before = d.experiments;
            after = [];
            named = refl;
          })
    Step-IsCovered s exp_id key s' (added i workload scheduler suite_id seconds dir _ _ _ e) p =
        subst (λ t. IsCovered t.plan exp_id key) (sym e)
          (record {
            position = length s.plan;
            entry =
                make_entry R args (suc s.case_index) exp_id i workload scheduler key suite_id
                  seconds dir;
            at = get_elem?-append_last s.plan _;
            same = inl refl;
            before = [];
            after = [];
            named = refl;
          })

    plan_runs-IsCovered :
        (s : PlanState F) (exp_id : Value F) (i : ℕ) (runs : List (Value F)) (s' : PlanState F)
        (b : ℕ) (run : Value F)
        → plan_runs R args s exp_id i runs ≡ ok s'
        → IsPlaced s
        → get_elem? runs b ≡ some run
        → (key : RunKey F) × IsKeyOf R args run key × IsCovered s'.plan exp_id key
    unfolding plan_runs
    plan_runs-IsCovered s exp_id i [] s' b run h p at = absurd (cc)
    plan_runs-IsCovered s exp_id i (first ∷ runs) s' zero run h p at =
        on_ok (plan_run R args s exp_id i first) _ h λ t e h1.
          let (key, step, known) = plan_run-Step R args s exp_id i first e in
          let same : first ≡ run = cc in
          (
            key,
            subst (λ r. IsKeyOf R args r key) same known,
            IsCovered-Grows t.plan s'.plan exp_id key
                (plan_runs_ind R args {P = λ u. Grows t.plan u.plan}
                  (λ u x k u' st g. Grows-trans t.plan u.plan u'.plan g (Step-Grows u x k u' st)) t
                  exp_id (suc i) runs h1 (Grows-refl t.plan))
                (Step-IsCovered s exp_id key t step p),
          )
    plan_runs-IsCovered s exp_id i (first ∷ runs) s' (suc b) run h p at =
        on_ok (plan_run R args s exp_id i first) _ h λ t e h1.
          let (key, step, known) = plan_run-Step R args s exp_id i first e in
          plan_runs-IsCovered t exp_id (suc i) runs s' b run h1
            (Step-IsPlaced s exp_id key t step p) at

    plan_experiments-Grows :
        (s : PlanState F) (exps : List (Value F)) (s' : PlanState F)
        → plan_experiments R args s exps ≡ ok s'
        → Grows s.plan s'.plan
    plan_experiments-Grows s exps s' h =
        plan_experiments_ind R args {P = λ u. Grows s.plan u.plan}
          (λ u x k u' st g. Grows-trans s.plan u.plan u'.plan g (Step-Grows u x k u' st)) s exps h
          (Grows-refl s.plan)

    plan_experiment-IsCovered :
        (s : PlanState F) (exp : Value F) (s' : PlanState F) (b : ℕ) (exp_id run : Value F)
        → plan_experiment R args s exp ≡ ok s'
        → IsPlaced s
        → HasRun exp b exp_id run
        → (key : RunKey F) × IsKeyOf R args run key × IsCovered s'.plan exp_id key
    unfolding plan_experiment
    plan_experiment-IsCovered s exp s' b exp_id run h p has =
        plan_runs-IsCovered s exp_id 1 has.runs s' b run
          (sym (
              ap
                (λ m. m >>= λ x.
                  (get_or "runs" exp (Value.list Items.nil) >>= iterate) >>= plan_runs R args s x 1)
                has.id_eq
              ∙ ap (λ m. m >>= plan_runs R args s exp_id 1) has.runs_eq)
            ∙ h)
          p has.at

    plan_experiments-IsCovered :
        (s : PlanState F) (exps : List (Value F)) (s' : PlanState F) (a b : ℕ)
        (exp exp_id run : Value F)
        → plan_experiments R args s exps ≡ ok s'
        → IsPlaced s
        → get_elem? exps a ≡ some exp
        → HasRun exp b exp_id run
        → (key : RunKey F) × IsKeyOf R args run key × IsCovered s'.plan exp_id key
    unfolding plan_experiments
    plan_experiments-IsCovered s [] s' a b exp exp_id run h p at has = absurd (cc)
    plan_experiments-IsCovered s (first ∷ exps) s' zero b exp exp_id run h p at has =
        on_ok (plan_experiment R args s first) _ h λ t e h1.
          let same : exp ≡ first = cc in
          let (key, known, c) =
            plan_experiment-IsCovered s first t b exp_id run e p
              (subst (λ x. HasRun x b exp_id run) same has) in
          (
            key,
            known,
            IsCovered-Grows t.plan s'.plan exp_id key (plan_experiments-Grows t exps s' h1) c,
          )
    plan_experiments-IsCovered s (first ∷ exps) s' (suc a) b exp exp_id run h p at has =
        on_ok (plan_experiment R args s first) _ h λ t e h1.
          plan_experiments-IsCovered t exps s' a b exp exp_id run h1
            (plan_experiments_ind R args {P = IsPlaced} Step-IsPlaced s (first ∷ [])
              (one s first t e) p)
            at has
      where
        one :
            (u : PlanState F) (x : Value F) (v : PlanState F)
            → plan_experiment R args u x ≡ ok v
            → plan_experiments R args u (x ∷ []) ≡ ok v
        one u x v q = ap (λ m. m >>= ok) q

    -- Each run of each selected experiment has a case: one with the key that `run_key` makes of the
    -- run, or with an equal key, and with the id of the experiment among its experiments.
    pub build_run_plan-IsCovered :
        (selected : List (Value F)) (plan : List (Entry F)) (a b : ℕ) (exp exp_id run : Value F)
        → build_run_plan R args selected ≡ ok plan
        → get_elem? selected a ≡ some exp
        → HasRun exp b exp_id run
        → (key : RunKey F) × IsKeyOf R args run key × IsCovered plan exp_id key
    unfolding build_run_plan lookup
    build_run_plan-IsCovered selected plan a b exp exp_id run h at has =
        on_ok (plan_experiments R args empty_state selected) _ h λ s e h1.
          let (key, known, c) =
            plan_experiments-IsCovered empty_state selected s a b exp exp_id run e
              (λ on k i none_yet. absurd (cc)) at has in
          (key, known, subst (λ l. IsCovered l exp_id key) (ok-injective h1) c)
