-- ===== src/Tests/Samples.antt =====
-- Small inputs: whole numbers in place of floating point numbers, the built-in registry and a suite
-- with two experiments that share a run.
use scheduler_simulator.Prelude.{
  get_elem?, some, ℕ, ◌≡◌, refl, true, false, not, List, [], ◌∷◌, String, ℤ, pos, codes, eq_ℤ,
  ltb_ℤ, lookup, insert, text_eq, strip, strip_by, strip_left, strip_right, is_space, lower,
  sorted_set, add_sorted, text_lt, show, show_ℤ, show_padded, split, strip_parts,
}
use scheduler_simulator.Python.{
  default_to, Result, ok, err, value_error, Value, Items, bool, int, text, list, dict, nil, cons,
  end, field, Runtime, get, get_or, index, has_key, member_of, iterate, to_text, to_int, to_float,
  truthy, same_value,
}
use scheduler_simulator.Plugins.Table.{
  norm, normalize, register, register_normalized, add_plugin, add_alias, add_aliases, resolve,
}
use scheduler_simulator.Plugins.Registry.{
  Registry, new_registry, register_scheduler, register_workload, resolve_scheduler,
  resolve_workload,
}
use scheduler_simulator.Plugins.Builtins.{
  builtin_schedulers, builtin_workloads, register_all, register_builtin_plugins,
}
use scheduler_simulator.Suite.Sanitize.{
  sanitize_id, is_word, is_id_char, replace_others, collapse_dashes,
}
use scheduler_simulator.Suite.Validate.{
  require_keys, check_at_least_one, check_scheduler, check_workload, validate_defaults,
  experiment_id, experiment_ids, check_balancer, check_run_scheduler, validate_run, validate_runs,
  validate_experiment, validate_experiments, validate_parents, validate_suite,
}
use scheduler_simulator.Suite.Experiments.{is_wanted, pick, has_id, all_found, pick_experiments}
use scheduler_simulator.Suite.Plan.{
  Entry, PlanArgs, append_at, same_key, run_key, run_id_end, run_id_rest, make_run_id, make_entry,
  add_case, new_case, place, plan_run, plan_runs, plan_experiment, plan_experiments, build_run_plan,
}

-- Opens the whole program.
unfoldable pub program : Unit {0}
unfolding lookup insert text_eq strip strip_by strip_left strip_right is_space lower sorted_set
    add_sorted text_lt show show_ℤ show_padded split strip_parts get get_or index has_key member_of
    iterate to_text to_int to_float truthy same_value norm normalize register register_normalized
    add_plugin add_alias add_aliases resolve register_scheduler register_workload resolve_scheduler
    resolve_workload builtin_schedulers builtin_workloads register_all register_builtin_plugins
    sanitize_id is_word is_id_char replace_others collapse_dashes require_keys check_at_least_one
    check_scheduler check_workload validate_defaults experiment_id experiment_ids check_balancer
    check_run_scheduler validate_run validate_runs validate_experiment validate_experiments
    validate_parents validate_suite is_wanted pick has_id all_found pick_experiments append_at
    same_key run_key run_id_end run_id_rest make_run_id make_entry add_case new_case place plan_run
    plan_runs plan_experiment plan_experiments build_run_plan
program = tt

-- A runtime whose floating point numbers are integers.
abbrev pub whole : Runtime ℤ
whole = record {
  truncate = λ x. ok x;
  widen = λ n. ok n;
  positive = λ x. ltb_ℤ (pos 0) x;
  nonzero = λ x. not (eq_ℤ x (pos 0));
  float_zero = pos 0;
  same_float = eq_ℤ;
  same_mixed = eq_ℤ;
  int_of_text = λ s. err value_error;
  float_of_text = λ s. err value_error;
  show_value = λ v. codes "?";
  float_zero-not_positive = refl;
}

abbrev word : String → Value ℤ
word s = text (codes s)

abbrev pub built_in : Registry
built_in = (register_builtin_plugins new_registry).0

abbrev pub run_of : (workload : String) (cores : ℕ) → Value ℤ
run_of workload cores = dict (
    field "workload" (word workload) (
      field "cores" (int (pos cores)) (
        field "num_tasks" (int (pos 50))
          (field "stop_time" (int (pos 1000)) (field "topology" (word "sq") end)))))

abbrev pub balanced_run : Value ℤ
balanced_run = dict (
    field "workload" (word "Server") (
      field "cores" (int (pos 4)) (
        field "num_tasks" (int (pos 50)) (
          field "stop_time" (int (pos 1000)) (
            field "topology" (word "mq")
              (field "balancer" (word "rr") (field "work_stealing" (bool false) end)))))))

abbrev experiment : (id : String) → Items ℤ → Value ℤ
experiment id runs = dict (field "id" (word id) (field "runs" (list runs) end))

abbrev pub exp1 : Value ℤ
exp1 = experiment "exp1" (cons (run_of "desktop" 1) (cons (run_of "google" 2) nil))

abbrev pub exp2 : Value ℤ
exp2 = experiment "exp2" (cons (run_of "Desktop" 1) (cons balanced_run nil))

abbrev pub exps : List (Value ℤ)
exps = exp1 ∷ exp2 ∷ []

abbrev pub suite : Value ℤ
suite = dict (
    field "schema_version" (word "suite.v1") (
      field "benchmark_version" (word "v1") (
        field "suite_id" (word "my suite!") (
          field "title" (word "t") (
            field "description" (word "d") (
              field "defaults"
                (dict (
                  field "scheduler" (word "all") (
                    field "replications" (int (pos 1))
                      (field "topology" (word "sq") (field "seed_base" (int (pos 7)) end)))))
                (field "experiments" (list (cons exp1 (cons exp2 nil))) end)))))))

abbrev pub args : PlanArgs ℤ
args = record {
  suite = suite;
  dedupe = true;
  scheduler_key = codes "all";
  replications = pos 1;
  seed_base = pos 7;
  runs_dir = codes "/runs";
  registry = built_in;
}

-- The plan: three cases for the four runs.
abbrev value_of : Result (List (Entry ℤ)) → List (Entry ℤ)
value_of (ok l) = l
value_of (err e) = []

unfoldable pub plan : List (Entry ℤ)
plan = value_of (build_run_plan whole args exps)

pub planned : build_run_plan whole args exps ≡ ok plan
unfolding program plan
planned = refl

abbrev no_case : Entry ℤ
no_case = record {
  case_index = 0;
  experiments = [];
  exp_run_index = 0;
  key = record {
    workload_cli = [];
    scheduler_cli = [];
    cores = pos 0;
    num_tasks = pos 0;
    stop_time = pos 0;
    topology = Value.null;
    balancer = Value.null;
    work_stealing = Value.null;
  };
  workload_key = [];
  scheduler_key = [];
  run_id = [];
  seed = pos 0;
  replications = pos 0;
  artifact_dir = [];
}

unfoldable pub case_at : ℕ → Entry ℤ
case_at n = default_to (get_elem? plan n) no_case

pub at_0 : get_elem? plan 0 ≡ some (case_at 0)
unfolding program plan case_at
at_0 = refl

pub at_1 : get_elem? plan 1 ≡ some (case_at 1)
unfolding program plan case_at
at_1 = refl
