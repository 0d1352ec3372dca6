-- ===== src/Suite/Plan/Numbering.antt =====
-- Numbers, seeds, run ids and artifact folders of the cases that `build_run_plan` returns.
use scheduler_simulator.Prelude.{
  ℕ, zero, suc, ◌+◌, ◌*◌, ◌≡◌, ◌≢◌, refl, sym, ap, subst, ◌∙◌, true, false, some, List, [], ◌∷◌,
  ◌++◌, Text, pos, ◌+ℤ◌, length, length-append, get_elem?, All, All-append, All-get_elem?,
  All-map_of, append-left_cancel, show_padded, show_padded-injective, show_padded-IsDigit,
  show_padded-ne-nil, IsDigit, arith,
}
use scheduler_simulator.Python.{ok, Value, Runtime, index, to_text, ok-injective}
use scheduler_simulator.Suite.Sanitize.{dash, is_word}
use scheduler_simulator.Suite.Sanitize.Words.{
  words, close, words-append, words-sanitize_id, words_word,
}
use scheduler_simulator.Suite.Plan.{
  RunKey, Entry, PlanState, PlanArgs, join_path, append_at, make_run_id, run_id_rest, suite_dir,
  make_entry, add_case, build_run_plan,
}
use scheduler_simulator.Suite.Plan.Steps.{Step, merged, added, build_run_plan_ind}

-- The number of a case can be read off its run id.
digit-word : (c : ℕ) → IsDigit c → is_word c ≡ true
unfolding is_word
digit-word c h = ground arith

dash-separates : is_word dash ≡ false
unfolding is_word
dash-separates = refl

words-show_padded : (n : ℕ) → words (show_padded n) ≡ show_padded n ∷ []
words-show_padded n =
    words_word (show_padded n) (
      All-map_of IsDigit (λ c. is_word c ≡ true) digit-word (show_padded n) (show_padded-IsDigit n))
    ∙ closed (show_padded n) (show_padded-ne-nil n)
  where
    closed : (s : Text) → s ≢ [] → close s [] ≡ s ∷ []
    closed [] h = absurd (h refl)
    closed (c ∷ s) h = refl

words-run_id :
    (suite_id : Text) (n : ℕ) (rest : Text)
    → words (suite_id ++ dash ∷ (show_padded n ++ dash ∷ rest))
      ≡ words suite_id ++ show_padded n ∷ words rest
words-run_id suite_id n rest =
    words-append suite_id (show_padded n ++ dash ∷ rest) dash dash-separates
    ∙ ap (λ (t : List Text). words suite_id ++ t)
        (words-append (show_padded n) rest dash dash-separates
          ∙ ap (λ (t : List Text). t ++ words rest) (words-show_padded n))

append-ne-nil : {A : Type 0} (xs : List A) (y : A) (ys : List A) → xs ++ y ∷ ys ≢ []
append-ne-nil [] y ys h = cc
append-ne-nil (x ∷ xs) y ys h = cc

words-make_run_id :
    (suite_id : Text) (n : ℕ) (rest : Text)
    → words (make_run_id suite_id n rest) ≡ words suite_id ++ show_padded n ∷ words rest
unfolding make_run_id
words-make_run_id suite_id n rest =
    words-sanitize_id _ (λ e.
      append-ne-nil (words suite_id) (show_padded n) (words rest)
        (sym (words-run_id suite_id n rest) ∙ e))
    ∙ words-run_id suite_id n rest

make_run_id-injective :
    (suite_id : Text) (m n : ℕ) (a b : Text)
    → make_run_id suite_id m a ≡ make_run_id suite_id n b
    → m ≡ n
make_run_id-injective suite_id m n a b e = show_padded-injective m n (
    heads (
      append-left_cancel (words suite_id)
        (sym (words-make_run_id suite_id m a) ∙ ap words e ∙ words-make_run_id suite_id n b)))
  where
    heads : {x y : Text} {xs ys : List Text} → x ∷ xs ≡ y ∷ ys → x ≡ y
    heads h = cc

-- The cases are numbered in their order, from `k + 1` on.
abbrev IsNumbered : {F : Type 0} → ℕ → List (Entry F) → Type 0
IsNumbered k [] = Unit
IsNumbered k (e ∷ plan) = (e.case_index ≡ suc k) × IsNumbered (suc k) plan

IsNumbered-append_at :
    {F : Type 0} (k : ℕ) (plan : List (Entry F)) (i : ℕ) (exp_id : Value F)
    → IsNumbered k plan
    → IsNumbered k (append_at plan i exp_id)
unfolding append_at
IsNumbered-append_at k [] i exp_id h = tt
IsNumbered-append_at k (e ∷ plan) zero exp_id h = h
IsNumbered-append_at k (e ∷ plan) (suc i) exp_id h =
    (h.0, IsNumbered-append_at (suc k) plan i exp_id h.1)

pub length-append_at :
    {F : Type 0} (plan : List (Entry F)) (i : ℕ) (exp_id : Value F)
    → length (append_at plan i exp_id) ≡ length plan
unfolding append_at
length-append_at [] i exp_id = refl
length-append_at (e ∷ plan) zero exp_id = refl
length-append_at (e ∷ plan) (suc i) exp_id = ap suc (length-append_at plan i exp_id)

IsNumbered-append :
    {F : Type 0} (k : ℕ) (plan : List (Entry F)) (e : Entry F)
    → IsNumbered k plan
    → e.case_index ≡ suc (k + length plan)
    → IsNumbered k (plan ++ e ∷ [])
IsNumbered-append k [] e h same = (omega arith, tt)
IsNumbered-append k (d ∷ plan) e h same = (h.0, IsNumbered-append (suc k) plan e h.1 (omega arith))

IsNumbered-get_elem? :
    {F : Type 0} (k : ℕ) (plan : List (Entry F)) (i : ℕ) {e : Entry F}
    → IsNumbered k plan
    → get_elem? plan i ≡ some e
    → e.case_index ≡ suc (k + i)
IsNumbered-get_elem? k [] i h p = absurd (cc)
IsNumbered-get_elem? k (d ∷ plan) zero h p = ground arith
IsNumbered-get_elem? k (d ∷ plan) (suc i) h p =
    omega (arith, IsNumbered-get_elem? (suc k) plan i h.1 p)

module _ {F : Type 0} (R : Runtime F) (args : PlanArgs F) where
  open args use {suite, seed_base, runs_dir}

  -- What the entry of a case holds besides its key and its experiments.
  pub record IsCase (e : Entry F) : Type 0 where
    pub seed : e.seed ≡ seed_base +ℤ pos (e.case_index * 1000)
    pub suite_id : Value F
    pub suite_id_eq : index "suite_id" suite ≡ ok suite_id
    pub rest : Text
    pub run_id : e.run_id ≡ make_run_id (to_text R suite_id) e.case_index rest
    pub dir : Text
    pub dir_eq : suite_dir suite_id ≡ ok dir
    pub artifact_dir : e.artifact_dir ≡ join_path (join_path runs_dir dir) e.run_id

  IsCase-append_at :
      (plan : List (Entry F)) (i : ℕ) (exp_id : Value F)
      → All IsCase plan
      → All IsCase (append_at plan i exp_id)
  unfolding append_at
  IsCase-append_at [] i exp_id h = tt
  IsCase-append_at (e ∷ plan) zero exp_id h = (
    record {
      seed = h.0.seed;
      suite_id = h.0.suite_id;
      suite_id_eq = h.0.suite_id_eq;
      rest = h.0.rest;
      run_id = h.0.run_id;
      dir = h.0.dir;
      dir_eq = h.0.dir_eq;
      artifact_dir = h.0.artifact_dir;
    },
    h.1,
  )
  IsCase-append_at (e ∷ plan) (suc i) exp_id h = (h.0, IsCase-append_at plan i exp_id h.1)

  record Inv (s : PlanState F) : Type 0 where
    numbered : IsNumbered 0 s.plan
    counted : s.case_index ≡ length s.plan
    cases : All IsCase s.plan

  Step-Inv :
      (s : PlanState F) (exp_id : Value F) (key : RunKey F) (s' : PlanState F)
      → Step R args s exp_id key s'
      → Inv s
      → Inv s'
  unfolding add_case make_entry
  Step-Inv s exp_id key s' (merged i _ _ e) inv = subst Inv (sym e) (record {
    numbered = IsNumbered-append_at 0 s.plan i exp_id inv.numbered;
    counted = inv.counted ∙ sym (length-append_at s.plan i exp_id);
    cases = IsCase-append_at s.plan i exp_id inv.cases;
  })
  Step-Inv s exp_id key s' (added i workload scheduler suite_id seconds dir _ has_id is_dir e) inv =
      subst Inv (sym e) (record {
        numbered = IsNumbered-append 0 s.plan _ inv.numbered (omega (arith, inv.counted));
        counted = omega (arith, inv.counted, length-append {0} s.plan);
        cases = All-append IsCase s.plan _ inv.cases (
          record {
            seed = refl;
            suite_id = suite_id;
            suite_id_eq = has_id;
            rest = run_id_rest R workload.key key seconds;
            run_id = refl;
            dir = dir;
            dir_eq = is_dir;
            artifact_dir = refl;
          },
          tt,
        );
      })

  build_run_plan-Inv :
      (selected : List (Value F)) {plan : List (Entry F)}
      → build_run_plan R args selected ≡ ok plan
      → IsNumbered 0 plan × All IsCase plan
  build_run_plan-Inv selected h =
      let (s, e, inv) =
        build_run_plan_ind R args Step-Inv selected h
          (record { numbered = tt; counted = refl; cases = tt }) in
      (subst (IsNumbered 0) e inv.numbered, subst (All IsCase) e inv.cases)

  -- The case at position i of a plan has the number i + 1 and the seed seed_base + 1000 (i + 1).
  pub build_run_plan-seed :
      (selected : List (Value F)) (plan : List (Entry F)) (i : ℕ) (e : Entry F)
      → build_run_plan R args selected ≡ ok plan
      → get_elem? plan i ≡ some e
      → (e.case_index ≡ i + 1) × (e.seed ≡ seed_base +ℤ pos ((i + 1) * 1000))
  build_run_plan-seed selected plan i e h at =
      let (numbered, cases) = build_run_plan-Inv selected h in
      let n : e.case_index ≡ i + 1 = omega (arith, IsNumbered-get_elem? 0 plan i numbered at) in
      (n, (All-get_elem? IsCase plan i cases at).seed ∙ ap (λ k. seed_base +ℤ pos (k * 1000)) n)

  same_suite_id :
      (a b : Value F) → index "suite_id" suite ≡ ok a → index "suite_id" suite ≡ ok b → a ≡ b
  same_suite_id a b p q = ok-injective (sym p ∙ q)

  -- Two cases of a plan with one run id are one case.
  pub build_run_plan-run_id :
      (selected : List (Value F)) (plan : List (Entry F)) (i j : ℕ) (d e : Entry F)
      → build_run_plan R args selected ≡ ok plan
      → get_elem? plan i ≡ some d
      → get_elem? plan j ≡ some e
      → d.run_id ≡ e.run_id
      → i ≡ j
  build_run_plan-run_id selected plan i j d e h at_i at_j same =
      let (numbered, cases) = build_run_plan-Inv selected h in
      let c = All-get_elem? IsCase plan i cases at_i in
      let c' = All-get_elem? IsCase plan j cases at_j in
      let m =
        make_run_id-injective (to_text R c.suite_id) d.case_index e.case_index c.rest c'.rest (
          sym c.run_id
          ∙ same
          ∙ c'.run_id
          ∙ ap (λ v. make_run_id (to_text R v) e.case_index c'.rest)
              (same_suite_id c'.suite_id c.suite_id c'.suite_id_eq c.suite_id_eq)) in
      omega (
        arith,
        m,
        IsNumbered-get_elem? 0 plan i numbered at_i,
        IsNumbered-get_elem? 0 plan j numbered at_j,
      )

  path-cancel : (a b c : Text) → join_path a b ≡ join_path a c → b ≡ c
  path-cancel a b c h = tails (append-left_cancel a h)
    where
      tails : {x : ℕ} {s t : Text} → x ∷ s ≡ x ∷ t → s ≡ t
      tails p = cc

  -- Two cases of a plan that write to one artifact folder are one case.
  pub build_run_plan-artifact_dir :
      (selected : List (Value F)) (plan : List (Entry F)) (i j : ℕ) (d e : Entry F)
      → build_run_plan R args selected ≡ ok plan
      → get_elem? plan i ≡ some d
      → get_elem? plan j ≡ some e
      → d.artifact_dir ≡ e.artifact_dir
      → i ≡ j
  build_run_plan-artifact_dir selected plan i j d e h at_i at_j same =
      let (numbered, cases) = build_run_plan-Inv selected h in
      let c = All-get_elem? IsCase plan i cases at_i in
      let c' = All-get_elem? IsCase plan j cases at_j in
      let dirs : c'.dir ≡ c.dir = ok-injective (
        sym c'.dir_eq
        ∙ ap suite_dir (same_suite_id c'.suite_id c.suite_id c'.suite_id_eq c.suite_id_eq)
        ∙ c.dir_eq) in
      build_run_plan-run_id selected plan i j d e h at_i at_j (
        path-cancel (join_path runs_dir c.dir) d.run_id e.run_id (
          sym c.artifact_dir
          ∙ same
          ∙ c'.artifact_dir
          ∙ ap (λ v. join_path (join_path runs_dir v) e.run_id) dirs))
