-- ===== src/Suite/Main/Finished.antt =====
-- What a run of `main` that returns has done (benchmark/runner/run_suite.py).
use scheduler_simulator.Prelude.{
  ap, sym, Text, ◌*◌, ◌≡◌, subst, true, false, none, some, List, [], ◌∷◌, ℕ, ◌+◌, ◌<◌, ℤ, pos, ◌≤ℤ◌,
  leb_ℤ, length, get_elem?, Bool-cases, inl, inr, arith,
}
use scheduler_simulator.Python.{
  ok, ◌>>=◌, check, require, system_exit, Value, Runtime, index, iterate, to_text, on_ok,
  ok-injective, check-eq-ok,
}
use scheduler_simulator.Plugins.Registry.{Registry, resolve_scheduler}
use scheduler_simulator.Plugins.Loader.{build_plugin_registry}
use scheduler_simulator.Suite.Experiments.{pick_experiments}
use scheduler_simulator.Suite.Plan.{Entry, suite_dir, build_run_plan}
use scheduler_simulator.Suite.Plan.Numbering.{build_run_plan-seed}
use scheduler_simulator.Suite.Execute.{Summary, execute_plan}
use scheduler_simulator.Suite.Execute.Outcome.{IsAccount, execute_plan-IsAccount}
use scheduler_simulator.Suite.Main.{
  Options, World, Outcome, load_suite, loaded_registry, scheduler_name, number_or_default, is_cons,
  plan_args, execute_args, run_plan, main,
}

module _ {F : Type 0} (R : Runtime F) (options : Options) (world : World F) where
  abbrev pub IsComplete : Outcome F → Type 0
  IsComplete out =
      (0 < length out.plan)
      × (out.summary.failed_count ≡ 0)
      × (out.summary.passed_count + out.summary.planned_count ≡ length out.plan)
      × (length out.summary.executed.cases ≡ length out.plan)
      × (out.summary.executed.stopped_early ≡ none)

  is_cons-length : (plan : List (Entry F)) → is_cons R plan ≡ true → 0 < length plan
  is_cons-length [] h = absurd (cc)
  is_cons-length (e ∷ plan) h = omega arith

  executed_all :
      (suite : Value F) (plan : List (Entry F)) (s : Summary F)
      → IsAccount R (execute_args R options world suite) (length plan) s
      → s.failed_count ≡ 0
      → (s.passed_count + s.planned_count ≡ length plan)
        × (length s.executed.cases ≡ length plan)
        × (s.executed.stopped_early ≡ none)
  executed_all suite plan s a fine = elim (Bool-cases options.dry_run) [
    | inl on ↦ let (x, y, z) = a.dry on in (ground (arith, a.sums), y, z)
    | inr off ↦ elim (Bool-cases options.continue_on_error) [
      | inl go_on ↦ let (x, y, z) = a.full off go_on in (ground (arith, a.sums), y, z)
      | inr halt ↦ elim (a.halting off halt) [
        | inl (x, y, z) ↦ (ground (arith, a.sums, a.passed_cases), y, x)
        | inr (n, run_id, x, lt, y, z, one) ↦ absurd (ground (arith, a.failed_cases))
      ]
    ]
  ]

  ran-IsComplete :
      (suite : Value F) (plan : List (Entry F)) (out : Outcome F)
      → run_plan R options world suite plan ≡ ok out
      → out.exit_failed ≡ false
      → IsComplete out
  unfolding run_plan
  ran-IsComplete suite plan out h fine = on_ok (check (is_cons R plan) system_exit) _ h λ _ e1 h1.
      on_ok (index "suite_id" suite >>= suite_dir) _ h1 λ dir _ h2.
        on_ok (execute_plan R (execute_args R options world suite) plan) _ h2 λ s e3 h3.
          subst (λ o. o.exit_failed ≡ false → IsComplete o) (ok-injective h3)
            (λ passed.
              let none_failed : s.failed_count ≡ 0 = ground arith in
              let (counted, listed, went_on) =
                executed_all suite plan s
                  (execute_plan-IsAccount R (execute_args R options world suite) plan s e3)
                  none_failed in
              (
                is_cons-length plan (check-eq-ok _ system_exit e1),
                none_failed,
                counted,
                listed,
                went_on,
              ))
            fine

  -- A run of `main` that returns has read a suite, made a plan of it and executed the plan.
  main-parts :
      (out : Outcome F) {C : Type 0}
      → main R options world ≡ ok out
      → ((suite : Value F) (registry : Registry) (key : Text) (r s : ℤ) (selected : List (Value F))
            (plan : List (Entry F))
          → leb_ℤ (pos 1) r ≡ true
          → leb_ℤ (pos 1) s ≡ true
          → build_run_plan R (plan_args R options world suite registry key r s) selected ≡ ok plan
          → run_plan R options world suite plan ≡ ok out
          → C)
      → C
  unfolding main
  main-parts out h go = on_ok (check world.bin_exists system_exit) _ h λ _ _ h1.
      on_ok
        (loaded_registry R
          (build_plugin_registry world.load world.files world.local_dir options.plugins))
        _ h1
        λ registry _ h2. on_ok (load_suite R world.suite_file registry) _ h2 λ suite _ h3.
          on_ok (index "experiments" suite >>= iterate) _ h3 λ exps _ h4.
            on_ok (pick_experiments exps options.only_experiments) _ h4 λ selected _ h5.
              on_ok (scheduler_name R options.scheduler suite) _ h5 λ name _ h6.
                on_ok (require system_exit (resolve_scheduler registry (to_text R name))) _ h6
                  λ plugin _ h7.
                    on_ok (number_or_default R options.replications "replications" suite) _ h7
                      λ r _ h8.
                        on_ok (number_or_default R options.seed_base "seed_base" suite) _ h8
                          λ s _ h9. on_ok (check (leb_ℤ (pos 1) r) system_exit) _ h9 λ _ e10 h10.
                            on_ok (check (leb_ℤ (pos 1) s) system_exit) _ h10 λ _ e11 h11.
                              on_ok
                                (build_run_plan R
                                  (plan_args R options world suite registry plugin.key r s)
                                  selected)
                                _ h11
                                λ plan e12 h12.
                                  go suite registry plugin.key r s selected plan
                                    (check-eq-ok _ system_exit e10) (check-eq-ok _ system_exit e11)
                                    e12 h12

  -- If `main` returns and does not exit with status 1, then the plan has a case, no case failed, each
  -- case of the plan was executed (or listed, in a dry run), and the execution did not stop early.
  pub main-IsComplete :
      (out : Outcome F) → main R options world ≡ ok out → out.exit_failed ≡ false → IsComplete out
  main-IsComplete out h fine =
      main-parts out h
        λ suite registry key r s selected plan _ _ _ ran. ran-IsComplete suite plan out ran fine

  ran-plan :
      (suite : Value F) (plan : List (Entry F)) (out : Outcome F)
      → run_plan R options world suite plan ≡ ok out
      → plan ≡ out.plan
  unfolding run_plan
  ran-plan suite plan out h = on_ok (check (is_cons R plan) system_exit) _ h λ _ _ h1.
      on_ok (index "suite_id" suite >>= suite_dir) _ h1 λ dir _ h2.
        on_ok (execute_plan R (execute_args R options world suite) plan) _ h2
          λ s _ h3. ap (λ o. o.plan) (ok-injective h3)

  -- If `main` returns, the case at position i of its plan has a seed above 1000 (i + 1).
  pub main-seeds :
      (out : Outcome F) (i : ℕ) (e : Entry F)
      → main R options world ≡ ok out
      → get_elem? out.plan i ≡ some e
      → pos ((i + 1) * 1000 + 1) ≤ℤ e.seed
  main-seeds out i e h at =
      main-parts out h λ suite registry key r s selected plan _ at_least made ran.
        let (_, seed) =
          build_run_plan-seed R (plan_args R options world suite registry key r s) selected plan i e
            made (subst (λ l. get_elem? l i ≡ some e) (sym (ran-plan suite plan out ran)) at) in
        ground (arith, seed)
