-- ===== src/Suite/Validate.antt =====
-- `validate_suite` of benchmark/runner/run_suite.py. The document is what `json.load` returned.
pub mod Sound
use scheduler_simulator.Prelude.{
  ℕ, zero, suc, Bool, true, false, not, Option, none, some, List, [], ◌∷◌, if◌then◌else◌, String,
  Text, ℤ, pos, leb_ℤ, codes, text_eq, is_empty, strip, lower, contains,
}
use scheduler_simulator.Python.{
  Exception, value_error, type_error, Result, ok, err, ◌>>=◌, ◌>>◌, check, is_some, Value, Items,
  null, int, float, text, list, Runtime, get, get_or, index, has_key, is_list, is_hashable, iterate,
  is_text, member_of, to_text, to_int, to_float, truthy,
}
use scheduler_simulator.Plugins.Registry.{Registry, resolve_scheduler, resolve_workload}

abbrev pub suite_keys : List String
suite_keys =
    "schema_version" ∷ "benchmark_version" ∷ "suite_id" ∷ "title" ∷ "description" ∷ "defaults"
    ∷ "experiments" ∷ []

abbrev pub default_keys : List String
default_keys = "scheduler" ∷ "replications" ∷ "topology" ∷ "seed_base" ∷ []

abbrev pub valid_topologies : List Text
valid_topologies = codes "sq" ∷ codes "mq" ∷ []

abbrev pub valid_balancers : List Text
valid_balancers = codes "rr" ∷ codes "leastloaded" ∷ []

module _ {F : Type 0} where
  -- for key in keys: if key not in v: fail(…)
  unfoldable pub require_keys : List String → Value F → Result (Unit {0})
  require_keys [] v = ok tt
  require_keys (key ∷ keys) v = do
    present ← has_key key v
    check present value_error
    require_keys keys v

module _ {F : Type 0} (R : Runtime F) (registry : Registry) where
  open R use {positive, float_zero}

  -- int(v) >= 1, or the failure of the validator
  unfoldable pub check_at_least_one : Value F → Result (Unit {0})
  check_at_least_one v = do n ← to_int R v; check (leb_ℤ (pos 1) n) value_error

  unfoldable pub check_scheduler : Value F → Result (Unit {0})
  check_scheduler v = check (is_some (resolve_scheduler registry (to_text R v))) value_error

  unfoldable pub check_workload : Value F → Result (Unit {0})
  check_workload v = check (is_some (resolve_workload registry (to_text R v))) value_error

  unfoldable pub validate_defaults : Value F → Result (Unit {0})
  validate_defaults defaults = do
    require_keys default_keys defaults
    replications ← index "replications" defaults
    check_at_least_one replications
    seed_base ← index "seed_base" defaults
    check_at_least_one seed_base
    topology ← index "topology" defaults
    known ← member_of valid_topologies topology
    check known value_error
    scheduler ← index "scheduler" defaults
    check_scheduler scheduler

  -- str(exp.get("id", "")).strip()
  unfoldable pub experiment_id : Value F → Result Text
  experiment_id exp = do v ← get_or "id" exp (text []); ok (strip (to_text R v))

  unfoldable pub experiment_ids : List (Value F) → Result (List Text)
  experiment_ids [] = ok []
  experiment_ids (exp ∷ exps) = do
    exp_id ← experiment_id exp
    rest ← experiment_ids exps
    ok (exp_id ∷ rest)

  unfoldable pub check_balancer : (topology : Text) → Value F → Result (Unit {0})
  check_balancer topology run =
      if text_eq topology (codes "mq")
      then (do
        balancer ← get_or "balancer" run (text [])
        check (contains valid_balancers (lower (to_text R balancer))) value_error)
      else ok tt

  -- if "scheduler" in run and registry.resolve_scheduler(run["scheduler"]) is None: fail(…)
  unfoldable pub check_run_scheduler : Value F → Result (Unit {0})
  check_run_scheduler run = do
    given ← has_key "scheduler" run
    if given then index "scheduler" run >>= check_scheduler else ok tt

  -- The body of the loop over the runs of an experiment.
  unfoldable pub validate_run : Value F → Result (Unit {0})
  validate_run run = do
    workload ← get_or "workload" run (text [])
    check_workload workload
    cores ← get_or "cores" run (int (pos 0))
    check_at_least_one cores
    num_tasks ← get_or "num_tasks" run (int (pos 0))
    check_at_least_one num_tasks
    stop ← get_or "stop_time" run (float float_zero)
    stop_time ← to_float R stop
    check (positive stop_time) value_error
    v ← get_or "topology" run (text [])
    let topology = lower (to_text R v)
    check (contains valid_topologies topology) value_error
    check_balancer topology run
    check_run_scheduler run

  unfoldable pub validate_runs : List (Value F) → Result (Unit {0})
  validate_runs [] = ok tt
  validate_runs (run ∷ runs) = do validate_run run; validate_runs runs

  unfoldable pub validate_experiment : Value F → Result (Unit {0})
  validate_experiment exp = do
    exp_id ← experiment_id exp
    check (not (is_empty exp_id)) value_error
    runs ← get_or "runs" exp (list Items.nil)
    check (is_list runs) value_error
    iterate runs >>= validate_runs

  unfoldable pub validate_experiments : List (Value F) → Result (Unit {0})
  validate_experiments [] = ok tt
  validate_experiments (exp ∷ exps) = do validate_experiment exp; validate_experiments exps

  -- The last loop: `reuse_from_experiment` names an experiment.
  unfoldable pub validate_parents : (exp_ids : List Text) → List (Value F) → Result (Unit {0})
  validate_parents exp_ids [] = ok tt
  validate_parents exp_ids (exp ∷ exps) = do
    parent ← get_or "reuse_from_experiment" exp null
    known ← if truthy R parent then member_of exp_ids parent else ok true
    check known value_error
    validate_parents exp_ids exps

  unfoldable pub validate_suite : Value F → Result (Unit {0})
  validate_suite doc = do
    require_keys suite_keys doc
    version ← index "schema_version" doc
    check (is_text "suite.v1" version) value_error
    experiments ← index "experiments" doc
    check (is_list experiments) value_error
    defaults ← index "defaults" doc
    validate_defaults defaults
    exps ← iterate experiments
    exp_ids ← experiment_ids exps
    validate_experiments exps
    validate_parents exp_ids exps
