-- ===== src/Spec.antt =====
-- scripts/validate_benchmark_spec.py: the stricter validator for the authors of a suite.
pub mod Accepted
use scheduler_simulator.Prelude.{
  Bool, true, false, not, ◌||◌, List, [], ◌∷◌, if◌then◌else◌, String, pos, leb_ℤ, any, is_empty,
  strip,
}
use scheduler_simulator.Python.{
  Exception, value_error, type_error, Result, ok, err, ◌>>=◌, ◌>>◌, check, Value, null, text, bool,
  Runtime, get_or, index, has_key, is_list, is_hashable, iterate, is_text, member_of, to_float,
  truthy, same_value,
}
use scheduler_simulator.Plugins.Registry.{Registry}
use scheduler_simulator.Suite.Validate.{
  suite_keys, default_keys, valid_topologies, valid_balancers, require_keys, check_at_least_one,
  check_scheduler, check_workload, check_run_scheduler,
}

abbrev pub run_keys : List String
run_keys = "workload" ∷ "cores" ∷ "num_tasks" ∷ "stop_time" ∷ "topology" ∷ []

abbrev pub experiment_keys : List String
experiment_keys = "id" ∷ "title" ∷ "objective" ∷ "runs" ∷ []

module _ {F : Type 0} where
  abbrev pub is_bool : Value F → Bool
  is_bool (bool b) = true
  is_bool _ = false

  -- isinstance(v, str) and v.strip()
  abbrev pub is_full_text : Value F → Bool
  is_full_text (text t) = not (is_empty (strip t))
  is_full_text _ = false

  unfoldable pub validate_top_level : Value F → Result (Unit {0})
  validate_top_level doc = do
    require_keys suite_keys doc
    version ← index "schema_version" doc
    check (is_text "suite.v1" version) value_error
    benchmark_version ← index "benchmark_version" doc
    check (is_full_text benchmark_version) value_error
    suite_id ← index "suite_id" doc
    check (is_full_text suite_id) value_error
    experiments ← index "experiments" doc
    check (is_list experiments) value_error
    exps ← iterate experiments
    check (any (λ e. true) exps) value_error

  -- The checks behind `if run["topology"] == "mq"`.
  unfoldable pub validate_balancer : Value F → Result (Unit {0})
  validate_balancer run = do
    given ← has_key "balancer" run
    check given value_error
    balancer ← index "balancer" run
    known ← member_of valid_balancers balancer
    check known value_error
    stealing ← has_key "work_stealing" run
    fine ← if stealing then (index "work_stealing" run >>= λ v. ok (is_bool v)) else ok true
    check fine value_error

module _ {F : Type 0} (R : Runtime F) (registry : Registry) where
  open R use {positive}

  unfoldable pub validate_spec_defaults : Value F → Result (Unit {0})
  validate_spec_defaults defaults = do
    require_keys default_keys defaults
    scheduler ← index "scheduler" defaults
    check_scheduler R registry scheduler
    replications ← index "replications" defaults
    check_at_least_one R registry replications
    topology ← index "topology" defaults
    known ← member_of valid_topologies topology
    check known value_error
    seed_base ← index "seed_base" defaults
    check_at_least_one R registry seed_base

  unfoldable pub validate_spec_run : Value F → Result (Unit {0})
  validate_spec_run run = do
    require_keys run_keys run
    workload ← index "workload" run
    check_workload R registry workload
    cores ← index "cores" run
    check_at_least_one R registry cores
    num_tasks ← index "num_tasks" run
    check_at_least_one R registry num_tasks
    stop ← index "stop_time" run
    stop_time ← to_float R stop
    check (positive stop_time) value_error
    topology ← index "topology" run
    known ← member_of valid_topologies topology
    check known value_error
    if is_text "mq" topology then validate_balancer run else ok tt
    check_run_scheduler R registry run

  unfoldable pub validate_spec_runs : List (Value F) → Result (Unit {0})
  validate_spec_runs [] = ok tt
  validate_spec_runs (run ∷ runs) = do validate_spec_run run; validate_spec_runs runs

  -- exp_id in seen, for a set: the id must be hashable
  unfoldable pub is_seen : Value F → List (Value F) → Result Bool
  is_seen v seen = do check (is_hashable v) type_error; ok (any (same_value R v) seen)

  -- The first loop; the result is `seen`.
  unfoldable pub validate_spec_experiments :
      (seen : List (Value F)) → List (Value F) → Result (List (Value F))
  validate_spec_experiments seen [] = ok seen
  validate_spec_experiments seen (exp ∷ exps) = do
    require_keys experiment_keys exp
    exp_id ← index "id" exp
    known ← is_seen exp_id seen
    check (not known) value_error
    runs ← index "runs" exp
    check (is_list runs) value_error
    iterate runs >>= validate_spec_runs
    validate_spec_experiments (exp_id ∷ seen) exps

  -- The second loop.
  unfoldable pub validate_spec_parents :
      (seen : List (Value F)) → List (Value F) → Result (Unit {0})
  validate_spec_parents seen [] = ok tt
  validate_spec_parents seen (exp ∷ exps) = do
    parent ← get_or "reuse_from_experiment" exp null
    known ← if truthy R parent then is_seen parent seen else ok true
    check known value_error
    validate_spec_parents seen exps

  -- The calls of `main`.
  unfoldable pub validate_spec : Value F → Result (Unit {0})
  validate_spec doc = do
    validate_top_level doc
    index "defaults" doc >>= validate_spec_defaults
    exps ← index "experiments" doc >>= iterate
    seen ← validate_spec_experiments [] exps
    validate_spec_parents seen exps
