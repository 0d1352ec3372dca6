-- ===== src/Suite/Execute/Outcome.antt =====
-- What the summary of `execute_plan` says of the cases that ran.
use scheduler_simulator.Prelude.{
  ℕ, suc, ◌+◌, ◌<◌, ◌≡◌, ◌⊎◌, refl, sym, subst, ap, inl, inr, true, false, none, some, List, [],
  ◌∷◌, if◌then◌else◌, Text, pos, eq_ℤ, length, on_if, arith,
}
use scheduler_simulator.Python.{ok, check, type_error, Value, Runtime, index, on_ok, ok-injective}
use scheduler_simulator.Suite.Plan.{Entry}
use scheduler_simulator.Suite.Command.{build_command}
use scheduler_simulator.Suite.Execute.{
  Status, planned, passed, failed, CaseResult, Executed, Summary, ExecuteArgs, is_planned,
  is_passed, is_failed, count_status, all_text, prepend, settle, log_file, run_cases, execute_plan,
}

module _ {F : Type 0} where
  -- Every case has one of the three statuses.
  counts-add :
      (cs : List (CaseResult F))
      → count_status is_passed cs + count_status is_failed cs + count_status is_planned cs
        ≡ length cs
  unfolding count_status
  counts-add [] = refl
  counts-add (c ∷ cs) = one c.status (counts-add cs)
    where
      one :
          (s : Status)
          → count_status is_passed cs + count_status is_failed cs + count_status is_planned cs
            ≡ length cs
          → (if is_passed s then suc (count_status is_passed cs) else count_status is_passed cs)
              + (if is_failed s then suc (count_status is_failed cs) else count_status is_failed cs)
              + (if is_planned s
                  then suc (count_status is_planned cs)
                  else count_status is_planned cs)
            ≡ suc (length cs)
      one planned h = omega arith
      one passed h = omega arith
      one failed h = omega arith

module _ {F : Type 0} (R : Runtime F) (args : ExecuteArgs F) where
  open args use {dry_run, continue_on_error, relative_path, bin_path, suite}

  -- The result of a round, by the four ways through its end.
  data Round (idx : ℕ) (e : Entry F) (plan : List (Entry F)) (x : Executed F) : Type 0 where
    dry :
        (c : CaseResult F) (y : Executed F)
        → dry_run ≡ true
        → c.status ≡ planned
        → run_cases R args (suc idx) plan ≡ ok y
        → x ≡ prepend R args c y
        → Round idx e plan x
    success :
        (c : CaseResult F) (y : Executed F)
        → dry_run ≡ false
        → c.status ≡ passed
        → run_cases R args (suc idx) plan ≡ ok y
        → x ≡ prepend R args c y
        → Round idx e plan x
    failure :
        (c : CaseResult F) (y : Executed F)
        → dry_run ≡ false
        → continue_on_error ≡ true
        → c.status ≡ failed
        → run_cases R args (suc idx) plan ≡ ok y
        → x ≡ prepend R args c y
        → Round idx e plan x
    stop :
        (c : CaseResult F)
        → dry_run ≡ false
        → continue_on_error ≡ false
        → c.status ≡ failed
        → x ≡ record { cases = c ∷ []; stopped_early = some (idx, e.run_id) }
        → Round idx e plan x

  settle-Round :
      (idx : ℕ) (e : Entry F) (plan : List (Entry F)) (cmd : List (Value F)) (log : Text)
      (x : Executed F)
      → settle R args idx e cmd log (run_cases R args (suc idx) plan) ≡ ok x
      → Round idx e plan x
  unfolding settle
  settle-Round idx e plan cmd log x h =
      on_if dry_run _ _ h
        (λ on h1.
          on_ok (run_cases R args (suc idx) plan) _ h1
            λ y r h2. dry _ y on refl r (sym (ok-injective h2)))
        (λ off h1.
          on_if (eq_ℤ (args.return_code idx cmd) (pos 0)) _ _ h1
            (λ _ h2.
              on_ok (run_cases R args (suc idx) plan) _ h2
                λ y r h3. success _ y off refl r (sym (ok-injective h3)))
            (λ _ h2.
              on_if continue_on_error _ _ h2
                (λ go h3.
                  on_ok (run_cases R args (suc idx) plan) _ h3
                    λ y r h4. failure _ y off go refl r (sym (ok-injective h4)))
                (λ halt h3. stop _ off halt refl (sym (ok-injective h3)))))

  run_cases-Round :
      (idx : ℕ) (e : Entry F) (plan : List (Entry F)) (x : Executed F)
      → run_cases R args idx (e ∷ plan) ≡ ok x
      → Round idx e plan x
  unfolding run_cases
  run_cases-Round idx e plan x h = on_ok (build_command R bin_path suite e) _ h λ cmd _ h1.
      on_ok (check (all_text cmd) type_error) _ h1 λ _ _ h2.
        on_ok (relative_path (log_file R args e)) _ h2
          λ log _ h3. settle-Round idx e plan cmd log x h3

  -- A dry run plans every case, and starts none.
  abbrev IsDry : (size : ℕ) → Executed F → Type 0
  IsDry size x =
      (length x.cases ≡ size) × (count_status is_planned x.cases ≡ size) × (x.stopped_early ≡ none)

  run_cases-IsDry :
      (idx : ℕ) (plan : List (Entry F)) (x : Executed F)
      → dry_run ≡ true
      → run_cases R args idx plan ≡ ok x
      → IsDry (length plan) x
  unfolding run_cases count_status
  run_cases-IsDry idx [] x on h = subst (IsDry 0) (ok-injective h) (refl, refl, refl)
  run_cases-IsDry idx (e ∷ plan) x on h =
      go (run_cases-Round idx e plan x h) (λ y r. run_cases-IsDry (suc idx) plan y on r)
    where
      go :
          Round idx e plan x
          → ((y : Executed F) → run_cases R args (suc idx) plan ≡ ok y → IsDry (length plan) y)
          → IsDry (suc (length plan)) x
      go (dry c y _ s r q) ih = subst (IsDry (suc (length plan))) (sym q) (ground (arith, ih y r))
      go (success c y off s r q) ih = absurd (cc)
      go (failure c y off _ s r q) ih = absurd (cc)
      go (stop c off _ s q) ih = absurd (cc)

  -- A run that goes on after errors runs every case.
  abbrev IsFull : (size : ℕ) → Executed F → Type 0
  IsFull size x =
      (length x.cases ≡ size) × (count_status is_planned x.cases ≡ 0) × (x.stopped_early ≡ none)

  run_cases-IsFull :
      (idx : ℕ) (plan : List (Entry F)) (x : Executed F)
      → dry_run ≡ false
      → continue_on_error ≡ true
      → run_cases R args idx plan ≡ ok x
      → IsFull (length plan) x
  unfolding run_cases count_status
  run_cases-IsFull idx [] x off go_on h = subst (IsFull 0) (ok-injective h) (refl, refl, refl)
  run_cases-IsFull idx (e ∷ plan) x off go_on h =
      go (run_cases-Round idx e plan x h) (λ y r. run_cases-IsFull (suc idx) plan y off go_on r)
    where
      go :
          Round idx e plan x
          → ((y : Executed F) → run_cases R args (suc idx) plan ≡ ok y → IsFull (length plan) y)
          → IsFull (suc (length plan)) x
      go (dry c y on s r q) ih = absurd (cc)
      go (success c y _ s r q) ih =
          subst (IsFull (suc (length plan))) (sym q) (ground (arith, ih y r))
      go (failure c y _ _ s r q) ih =
          subst (IsFull (suc (length plan))) (sym q) (ground (arith, ih y r))
      go (stop c _ halt s q) ih = absurd (cc)

  -- A run that stops at the first error: either every case passed, or the case at the position
  -- where it stopped is the only one that failed, and the last one that ran.
  abbrev pub IsHalting : (idx size : ℕ) → Executed F → Type 0
  IsHalting idx size x =
      ((x.stopped_early ≡ none) × (length x.cases ≡ size) × (count_status is_passed x.cases ≡ size))
      ⊎ ((n : ℕ) × (run_id : Text) × (x.stopped_early ≡ some (idx + n, run_id))
          × (n < size)
          × (length x.cases ≡ n + 1)
          × (count_status is_passed x.cases ≡ n)
          × (count_status is_failed x.cases ≡ 1))

  run_cases-IsHalting :
      (idx : ℕ) (plan : List (Entry F)) (x : Executed F)
      → dry_run ≡ false
      → continue_on_error ≡ false
      → run_cases R args idx plan ≡ ok x
      → IsHalting idx (length plan) x
  unfolding run_cases count_status
  run_cases-IsHalting idx [] x off halt h =
      subst (IsHalting idx 0) (ok-injective h) (inl (refl, refl, refl))
  run_cases-IsHalting idx (e ∷ plan) x off halt h =
      go (run_cases-Round idx e plan x h) (λ y r. run_cases-IsHalting (suc idx) plan y off halt r)
    where
      later :
          (c : CaseResult F) (y : Executed F)
          → c.status ≡ passed
          → IsHalting (suc idx) (length plan) y
          → IsHalting idx (suc (length plan)) (prepend R args c y)
      later c y s (inl (none_yet, full, fine)) = inl (none_yet, ap suc full, ground arith)
      later c y s (inr (n, run_id, at, small, size, ok_count, bad_count)) =
          inr (suc n, run_id, ground arith, omega arith, omega arith, ground arith, ground arith)

      go :
          Round idx e plan x
          → ((y : Executed F)
              → run_cases R args (suc idx) plan ≡ ok y
              → IsHalting (suc idx) (length plan) y)
          → IsHalting idx (suc (length plan)) x
      go (dry c y on s r q) ih = absurd (cc)
      go (success c y _ s r q) ih =
          subst (IsHalting idx (suc (length plan))) (sym q) (later c y s (ih y r))
      go (failure c y _ go_on s r q) ih = absurd (cc)
      go (stop c _ _ s q) ih =
          subst (IsHalting idx (suc (length plan))) (sym q)
            (inr (0, e.run_id, ground arith, omega arith, refl, ground arith, ground arith))

  -- What the summary of a plan of `size` cases says, for each of the three modes.
  pub record IsAccount (size : ℕ) (s : Summary F) : Type 0 where
    pub total : s.total_cases ≡ size
    pub sums : s.passed_count + s.failed_count + s.planned_count ≡ length s.executed.cases
    pub passed_cases : s.passed_count ≡ count_status is_passed s.executed.cases
    pub failed_cases : s.failed_count ≡ count_status is_failed s.executed.cases
    pub dry :
        dry_run ≡ true
        → (s.planned_count ≡ size)
          × (length s.executed.cases ≡ size)
          × (s.executed.stopped_early ≡ none)
    pub full :
        dry_run ≡ false
        → continue_on_error ≡ true
        → (s.planned_count ≡ 0)
          × (length s.executed.cases ≡ size)
          × (s.executed.stopped_early ≡ none)
    pub halting : dry_run ≡ false → continue_on_error ≡ false → IsHalting 1 size s.executed

  -- The summary of an execution that returns: its three counts add up to the cases listed. A dry run
  -- plans every case. Otherwise, with --continue-on-error every case ran, and without it the run
  -- ended with the first failed case, or all cases passed.
  pub execute_plan-IsAccount :
      (plan : List (Entry F)) (s : Summary F)
      → execute_plan R args plan ≡ ok s
      → IsAccount (length plan) s
  unfolding execute_plan
  execute_plan-IsAccount plan s h = on_ok (index "suite_id" suite) _ h λ suite_id _ h1.
      on_ok (index "benchmark_version" suite) _ h1 λ version _ h2.
        on_ok (run_cases R args 1 plan) _ h2 λ x r h3.
          subst (IsAccount (length plan)) (ok-injective h3) (record {
            total = refl;
            passed_cases = refl;
            failed_cases = refl;
            sums = counts-add x.cases;
            dry = λ on. let (a, b, c) = run_cases-IsDry 1 plan x on r in (b, a, c);
            full = λ off go_on. let (a, b, c) = run_cases-IsFull 1 plan x off go_on r in (b, a, c);
            halting = λ off halt. run_cases-IsHalting 1 plan x off halt r;
          })
