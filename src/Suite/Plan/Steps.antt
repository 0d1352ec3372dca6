-- ===== src/Suite/Plan/Steps.antt =====
-- The body of the loops of `build_run_plan` as a step relation on their state, and induction over
-- the loops.
use scheduler_simulator.Prelude.{
  ℕ, suc, ◌≡◌, inl, inr, true, none, some, List, [], ◌∷◌, Text, ℤ, lookup, on_if, Option-cases,
  subst, sym,
}
use scheduler_simulator.Python.{
  ok, ◌>>=◌, check, require, Value, Items, text, Runtime, get_or, index, iterate, to_text, on_ok,
  ok-injective, require-eq-ok, type_error, system_exit,
}
use scheduler_simulator.Plugins.Table.{Plugin}
use scheduler_simulator.Plugins.Registry.{resolve_scheduler, resolve_workload}
use scheduler_simulator.Suite.Plan.{
  RunKey, Entry, PlanState, empty_state, PlanArgs, is_hashable_key, append_at, make_entry, add_case,
  suite_dir, same_key, run_key, new_case, place, plan_run, plan_runs, plan_experiment,
  plan_experiments, build_run_plan,
}

module _ {F : Type 0} (R : Runtime F) (args : PlanArgs F) where
  open args use {suite, dedupe, scheduler_key, replications, seed_base, runs_dir, registry}

  -- One round, for the experiment `exp_id` and a run with the key `key`.
  pub data Step (s : PlanState F) (exp_id : Value F) (key : RunKey F) (s' : PlanState F)
      : Type 0 where
    merged :
        (i : ℕ)
        → dedupe ≡ true
        → lookup (same_key R) key s.dedup_map ≡ some i
        → s' ≡ record s { plan = append_at s.plan i exp_id }
        → Step s exp_id key s'
    added :
        (i : ℕ) (workload scheduler : Plugin) (suite_id : Value F) (seconds : ℤ) (dir : Text)
        → (dedupe ≡ true → lookup (same_key R) key s.dedup_map ≡ none)
        → index "suite_id" suite ≡ ok suite_id
        → suite_dir suite_id ≡ ok dir
        → s'
          ≡ add_case R args s (
              make_entry R args
                (suc s.case_index)
                exp_id
                i
                workload
                scheduler
                key
                suite_id
                seconds
                dir)
        → Step s exp_id key s'

  new_case-Step :
      (s : PlanState F) (exp_id : Value F) (i : ℕ) (workload scheduler : Plugin) (key : RunKey F)
      {s' : PlanState F}
      → (dedupe ≡ true → lookup (same_key R) key s.dedup_map ≡ none)
      → new_case R args s exp_id i workload scheduler key ≡ ok s'
      → Step s exp_id key s'
  unfolding new_case
  new_case-Step s exp_id i workload scheduler key fresh h =
      on_ok (index "suite_id" suite) _ h λ suite_id has_id h1.
        on_ok (R.truncate key.stop_time) _ h1 λ seconds finite h2.
          on_ok (suite_dir suite_id) _ h2 λ dir is_dir h3.
            on_ok (check (is_hashable_key key) type_error) _ h3 λ u hashable h4.
              added i workload scheduler suite_id seconds dir fresh has_id is_dir
                (sym (ok-injective h4))

  place-Step :
      (s : PlanState F) (exp_id : Value F) (i : ℕ) (workload scheduler : Plugin) (key : RunKey F)
      {s' : PlanState F}
      → place R args s exp_id i workload scheduler key ≡ ok s'
      → Step s exp_id key s'
  unfolding place
  place-Step s exp_id i workload scheduler key h =
      on_if dedupe _ _ h
        (λ on h1. on_ok (check (is_hashable_key key) type_error) _ h1 λ u hashable h2.
          elim (Option-cases (lookup (same_key R) key s.dedup_map)) [
            | inl fresh ↦
                new_case-Step s exp_id i workload scheduler key (λ _. fresh) (rw fresh at h2)
            | inr (j, known) ↦ merged j on known (sym (ok-injective (rw known at h2)))
          ])
        (λ off h1. new_case-Step s exp_id i workload scheduler key (λ on. absurd (cc)) h1)

  -- `key` is what `run_key` makes of a run, with the plugins that its scheduler, or the default one,
  -- and its workload resolve to.
  pub record IsKeyOf (run : Value F) (key : RunKey F) : Type 0 where
    pub name : Value F
    pub name_eq : get_or "scheduler" run (text scheduler_key) ≡ ok name
    pub scheduler : Plugin
    pub scheduler_eq : resolve_scheduler registry (to_text R name) ≡ some scheduler
    pub kind : Value F
    pub kind_eq : index "workload" run ≡ ok kind
    pub workload : Plugin
    pub workload_eq : resolve_workload registry (to_text R kind) ≡ some workload
    pub key_eq : run_key R run workload.cli_token scheduler.cli_token ≡ ok key

  -- Every round that returns is a step, for the key of its run.
  pub plan_run-Step :
      (s : PlanState F) (exp_id : Value F) (i : ℕ) (run : Value F) {s' : PlanState F}
      → plan_run R args s exp_id i run ≡ ok s'
      → (key : RunKey F) × Step s exp_id key s' × IsKeyOf run key
  unfolding plan_run
  plan_run-Step s exp_id i run h =
      on_ok (get_or "scheduler" run (text scheduler_key)) _ h λ name e1 h1.
        on_ok (require system_exit (resolve_scheduler registry (to_text R name))) _ h1
          λ scheduler e2 h2. on_ok (index "workload" run) _ h2 λ kind e3 h3.
            on_ok (require system_exit (resolve_workload registry (to_text R kind))) _ h3
              λ workload e4 h4.
                on_ok (run_key R run workload.cli_token scheduler.cli_token) _ h4 λ key e5 h5. (
                  key,
                  place-Step s exp_id i workload scheduler key h5,
                  record {
                    name = name;
                    name_eq = e1;
                    scheduler = scheduler;
                    scheduler_eq = require-eq-ok system_exit _ e2;
                    kind = kind;
                    kind_eq = e3;
                    workload = workload;
                    workload_eq = require-eq-ok system_exit _ e4;
                    key_eq = e5;
                  },
                )

  -- What every step keeps holds at the end, if it holds at the start.
  module _ {P : PlanState F → Type 0}
      (keep : (s : PlanState F) (exp_id : Value F) (key : RunKey F) (s' : PlanState F)
        → Step s exp_id key s'
        → P s
        → P s') where
    pub plan_runs_ind :
        (s : PlanState F) (exp_id : Value F) (i : ℕ) (runs : List (Value F)) {s' : PlanState F}
        → plan_runs R args s exp_id i runs ≡ ok s'
        → P s
        → P s'
    unfolding plan_runs
    plan_runs_ind s exp_id i [] h p = subst P (ok-injective h) p
    plan_runs_ind s exp_id i (run ∷ runs) h p = on_ok (plan_run R args s exp_id i run) _ h λ t e h1.
        let (key, step, _) = plan_run-Step s exp_id i run e in
        plan_runs_ind t exp_id (suc i) runs h1 (keep s exp_id key t step p)

    pub plan_experiments_ind :
        (s : PlanState F) (exps : List (Value F)) {s' : PlanState F}
        → plan_experiments R args s exps ≡ ok s'
        → P s
        → P s'
    unfolding plan_experiments plan_experiment
    plan_experiments_ind s [] h p = subst P (ok-injective h) p
    plan_experiments_ind s (exp ∷ exps) h p = on_ok (plan_experiment R args s exp) _ h λ t e h1.
        plan_experiments_ind t exps h1 (
          on_ok (index "id" exp) _ e λ exp_id _ e1.
            on_ok (get_or "runs" exp (Value.list Items.nil) >>= iterate) _ e1
              λ runs _ e2. plan_runs_ind s exp_id 1 runs e2 p)

    pub build_run_plan_ind :
        (selected : List (Value F)) {plan : List (Entry F)}
        → build_run_plan R args selected ≡ ok plan
        → P empty_state
        → (s : PlanState F) × (s.plan ≡ plan) × P s
    unfolding build_run_plan
    build_run_plan_ind selected h p =
        on_ok (plan_experiments R args empty_state selected) _ h
          λ s e h1. (s, ok-injective h1, plan_experiments_ind empty_state selected e p)
