-- ===== src/Suite/Ready.antt =====
-- `validate_suite` against `build_run_plan` (benchmark/runner/run_suite.py): what the validator
-- accepts can be planned.
mod Place
use scheduler_simulator.Prelude.{
  ℕ, suc, ◌≡◌, refl, sym, ap, subst, ◌∙◌, inl, inr, Bool, true, false, ◌&&◌, Option, none, some,
  List, [], ◌∷◌, if◌then◌else◌, String, Text, codes, arith, Bool-cases, Option-cases, All, lookup,
}
use scheduler_simulator.Python.{
  Result, ok, ◌>>=◌, check, is_some, default_to, require, value_error, type_error, key_error,
  system_exit, Value, Items, Fields, bool, text, dict, Runtime, find_field, get_or, index, iterate,
  is_text, is_hashable, to_text, to_float, on_ok, ok-injective, Returns, Returns-bind,
  Returns-require, Returns-check, is_list,
}
use scheduler_simulator.Plugins.Table.{Plugin}
use scheduler_simulator.Plugins.Registry.{resolve_scheduler, resolve_workload}
use scheduler_simulator.Suite.Experiments.{pick_experiments}
use scheduler_simulator.Suite.Experiments.Picked.{pick_experiments-All}
use scheduler_simulator.Suite.Validate.{
  validate_suite, require_keys, suite_keys, validate_defaults, experiment_ids, validate_experiments,
}
use scheduler_simulator.Suite.Validate.Sound.{
  IsValidRun, IsValidExperiment, validate_experiments-valid,
}
use scheduler_simulator.Suite.Ready.Place.{place-Returns}
use scheduler_simulator.Suite.Plan.{
  RunKey, PlanState, PlanArgs, empty_state, is_hashable_key, append_at, suite_dir, same_key,
  run_key, new_case, place, plan_run, plan_runs, plan_experiment, plan_experiments, build_run_plan,
}

module _ {F : Type 0} (R : Runtime F) where
  -- What the validator does not check of a run: its stop time is finite, and the values that become
  -- part of the run key can be hashed.
  pub record IsPlain (fs : Fields F) : Type 0 where
    pub finite :
        (v : Value F) (x : F)
        → find_field "stop_time" fs ≡ some v
        → to_float R v ≡ ok x
        → Returns (R.truncate x)
    pub topology : (v : Value F) → find_field "topology" fs ≡ some v → is_hashable v ≡ true
    pub balancer : (v : Value F) → find_field "balancer" fs ≡ some v → is_hashable v ≡ true
    pub work_stealing :
        (v : Value F) → find_field "work_stealing" fs ≡ some v → is_hashable v ≡ true

  -- All runs of an experiment are plain.
  abbrev pub PlainRuns : List (Value F) → Type 0
  PlainRuns = All (λ run. (fs : Fields F) → run ≡ dict fs → IsPlain fs)

  -- The runs of every experiment are plain.
  abbrev pub PlainExperiments : List (Value F) → Type 0
  PlainExperiments = All (λ exp.
      (runs : List (Value F))
      → (get_or "runs" exp (Value.list Items.nil) >>= iterate) ≡ ok runs
      → PlainRuns runs)

  module _ (args : PlanArgs F) (suite_id : Text)
      (named : index "suite_id" args.suite ≡ ok (text suite_id))
      (known : is_some (resolve_scheduler args.registry args.scheduler_key) ≡ true) where
    open args use {suite, dedupe, scheduler_key, registry}

    module _ (fs : Fields F) (valid : IsValidRun R registry fs) (plain : IsPlain fs) where
      scheduler-resolves :
          is_some (
            resolve_scheduler registry
              (to_text R (default_to (find_field "scheduler" fs) (text scheduler_key))))
          ≡ true
      unfolding to_text
      scheduler-resolves = elim (Option-cases (find_field "scheduler" fs)) [
        | inl absent ↦ rw absent known
        | inr (v, given) ↦ rw given (valid.scheduler_known v given)
      ]

      default-is_hashable :
          (k : String) (d : Value F)
          → ((v : Value F) → find_field k fs ≡ some v → is_hashable v ≡ true)
          → is_hashable d ≡ true
          → is_hashable (default_to (find_field k fs) d) ≡ true
      default-is_hashable k d h e = elim (Option-cases (find_field k fs)) [
        | inl absent ↦ rw absent e
        | inr (v, given) ↦ rw given (h v given)
      ]

      -- The run key exists, has the stop time of the run and can be hashed.
      run_key-Returns :
          (w c : Text)
          → (key : RunKey F) × (run_key R (dict fs) w c ≡ ok key)
            × (key.stop_time ≡ valid.seconds)
            × (is_hashable_key key ≡ true)
      unfolding run_key index get_or
      run_key-Returns w c = elim (Bool-cases (is_text "mq" valid.topology)) [
        | inl mq ↦
            rw
              (
                valid.topology_at, mq, valid.cores_at, valid.cores_eq, valid.num_tasks_at,
                valid.num_tasks_eq, valid.stop_time_at, valid.stop_time_eq,
              )
              (
                _,
                refl,
                refl,
                all_hashable (plain.topology valid.topology valid.topology_at)
                    (default-is_hashable "balancer" (text (codes "leastloaded")) plain.balancer
                      refl)
                    (default-is_hashable "work_stealing" (bool true) plain.work_stealing refl),
              )
        | inr sq ↦
            rw
              (
                valid.topology_at, sq, valid.cores_at, valid.cores_eq, valid.num_tasks_at,
                valid.num_tasks_eq, valid.stop_time_at, valid.stop_time_eq,
              )
              (
                _,
                refl,
                refl,
                all_hashable (plain.topology valid.topology valid.topology_at) refl refl,
              )
      ]
        where
          all_hashable : {a b d : Bool} → a ≡ true → b ≡ true → d ≡ true → (a && b && d) ≡ true
          all_hashable p q r = ground arith

      plan_run-Returns :
          (s : PlanState F) (exp_id : Value F) (i : ℕ)
          → Returns (plan_run R args s exp_id i (dict fs))
      unfolding plan_run get_or index
      plan_run-Returns s exp_id i =
          let name = default_to (find_field "scheduler" fs) (text scheduler_key) in
          Returns-bind (require system_exit (resolve_scheduler registry (to_text R name))) _
            (Returns-require system_exit _ scheduler-resolves)
            λ scheduler _.
              Returns-bind (require key_error (find_field "workload" fs)) _
                (valid.workload, ap (require key_error) valid.workload_at)
                λ kind is_kind.
                  Returns-bind (require system_exit (resolve_workload registry (to_text R kind))) _
                    (Returns-require system_exit _ (
                      subst (λ v. is_some (resolve_workload registry (to_text R v)) ≡ true)
                        (same_kind kind is_kind) valid.workload_known))
                    λ workload _.
                      let (key, made, seconds, hashable) =
                        run_key-Returns workload.cli_token scheduler.cli_token in
                      Returns-bind (run_key R (dict fs) workload.cli_token scheduler.cli_token) _
                        (key, made)
                        λ key' made'.
                          subst (λ k. Returns (place R args s exp_id i workload scheduler k))
                            (ok-injective (sym made ∙ made'))
                            (place-Returns R args suite_id named s exp_id i workload scheduler key
                              (subst (λ x. Returns (R.truncate x)) (sym seconds)
                                (plain.finite valid.stop_time valid.seconds valid.stop_time_at
                                  valid.stop_time_eq))
                              hashable)
        where
          same_kind :
              (kind : Value F)
              → require key_error (find_field "workload" fs) ≡ ok kind
              → valid.workload ≡ kind
          same_kind kind h = ok-injective (ap (require key_error) (sym valid.workload_at) ∙ h)

    plan_runs-Returns :
        (s : PlanState F) (exp_id : Value F) (i : ℕ) (runs : List (Value F))
        → All (λ run. (fs : Fields F) × (run ≡ dict fs) × IsValidRun R registry fs) runs
        → PlainRuns runs
        → Returns (plan_runs R args s exp_id i runs)
    unfolding plan_runs
    plan_runs-Returns s exp_id i [] valid plain = (s, refl)
    plan_runs-Returns s exp_id i (run ∷ runs) valid plain =
        let (fs, is_dict, fine) = valid.0 in
        Returns-bind (plan_run R args s exp_id i run) _
          (subst (λ r. Returns (plan_run R args s exp_id i r)) (sym is_dict)
            (plan_run-Returns fs fine (plain.0 fs is_dict) s exp_id i))
          λ t _. plan_runs-Returns t exp_id (suc i) runs valid.1 plain.1

    module _ (unnamed : resolve_workload registry [] ≡ none) where
      plan_experiments-Returns :
          (s : PlanState F) (exps : List (Value F))
          → All (IsValidExperiment R registry unnamed) exps
          → PlainExperiments exps
          → Returns (plan_experiments R args s exps)
      unfolding plan_experiments plan_experiment
      plan_experiments-Returns s [] valid plain = (s, refl)
      plan_experiments-Returns s (exp ∷ exps) valid plain =
          let v = valid.0 in
          Returns-bind (plan_experiment R args s exp) _
            (Returns-bind (index "id" exp) _ (v.exp_id, v.id_eq)
              λ exp_id _.
                Returns-bind (get_or "runs" exp (Value.list Items.nil) >>= iterate) _
                  (v.runs, v.runs_eq)
                  λ runs same.
                    subst (λ l. Returns (plan_runs R args s exp_id 1 l))
                      (ok-injective (sym v.runs_eq ∙ same))
                      (plan_runs-Returns s exp_id 1 v.runs v.valid (plain.0 v.runs v.runs_eq)))
            λ t _. plan_experiments-Returns t exps valid.1 plain.1

      -- The experiments of a suite that the validator accepts.
      validated-experiments :
          (doc : Value F) (exps : List (Value F)) {u : Unit {0}}
          → validate_suite R registry doc ≡ ok u
          → (index "experiments" doc >>= iterate) ≡ ok exps
          → All (IsValidExperiment R registry unnamed) exps
      unfolding validate_suite
      validated-experiments doc exps h listed = on_ok (require_keys suite_keys doc) _ h λ _ _ h1.
          on_ok (index "schema_version" doc) _ h1 λ version _ h2.
            on_ok (check (is_text "suite.v1" version) value_error) _ h2 λ _ _ h3.
              on_ok (index "experiments" doc) _ h3 λ experiments e4 h4.
                on_ok (check (is_list experiments) value_error) _ h4 λ _ _ h5.
                  on_ok (index "defaults" doc) _ h5 λ defaults _ h6.
                    on_ok (validate_defaults R registry defaults) _ h6 λ _ _ h7.
                      on_ok (iterate experiments) _ h7 λ l e8 h8.
                        on_ok (experiment_ids R registry l) _ h8 λ exp_ids _ h9.
                          on_ok (validate_experiments R registry l) _ h9 λ _ e10 h10.
                            subst (All (IsValidExperiment R registry unnamed))
                              (ok-injective (sym e8 ∙ sym (ap (λ m. m >>= iterate) e4) ∙ listed))
                              (validate_experiments-valid R registry unnamed l e10)

      -- If the validator accepts a suite, then every selection of its experiments can be planned,
      -- given that the suite id is a text, the runs are plain, the default scheduler resolves and no
      -- workload answers to the empty name.
      pub build_run_plan-Returns :
          (exps selected : List (Value F)) (only : Text) {u : Unit {0}}
          → validate_suite R registry suite ≡ ok u
          → (index "experiments" suite >>= iterate) ≡ ok exps
          → PlainExperiments exps
          → pick_experiments exps only ≡ ok selected
          → Returns (build_run_plan R args selected)
      unfolding build_run_plan
      build_run_plan-Returns exps selected only accepted listed plain picked =
          Returns-bind (plan_experiments R args empty_state selected) _
            (plan_experiments-Returns empty_state selected
              (pick_experiments-All (IsValidExperiment R registry unnamed) exps only picked
                (validated-experiments suite exps accepted listed))
              (pick_experiments-All _ exps only picked plain))
            λ s _. (s.plan, refl)
