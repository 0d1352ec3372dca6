-- ===== src/Suite/Validate/Sound.antt =====
-- What a run that `validate_suite` accepts has.
use scheduler_simulator.Prelude.{
  ◌≡◌, refl, ap, true, false, not, Option, none, some, List, [], ◌∷◌, ℤ, pos, leb_ℤ, text_eq,
  is_empty, strip, lower, contains, arith, All, strip_left, strip_right, strip_by,
}
use scheduler_simulator.Python.{
  value_error, key_error, require, ok, ◌>>=◌, check, is_some, default_to, Value, Items, Fields, int,
  float, text, list, dict, Runtime, find_field, get_or, index, has_key, is_list, iterate, to_text,
  to_int, to_float, on_ok, ok-injective, check-eq-ok,
}
use scheduler_simulator.Plugins.Registry.{Registry, resolve_scheduler, resolve_workload}
use scheduler_simulator.Suite.Validate.{
  valid_topologies, check_at_least_one, check_scheduler, check_workload, check_balancer,
  check_run_scheduler, validate_run, validate_runs, experiment_id, validate_experiment,
  validate_experiments,
}

-- A test that the default fails is passed by a value that is there.
present :
    {A : Type 0} (P : A → Type 0) (o : Option A) (d : A)
    → P (default_to o d)
    → ¬ P d
    → (v : A) × (o ≡ some v) × P v
present P none d h bad = absurd (bad h)
present P (some v) d h bad = (v, refl, h)

module _ {F : Type 0} (R : Runtime F) (registry : Registry) where
  -- The fields of an accepted run, with what is known of them.
  pub record IsValidRun (fs : Fields F) : Type 0 where
    pub workload : Value F
    pub workload_at : find_field "workload" fs ≡ some workload
    pub workload_known : is_some (resolve_workload registry (to_text R workload)) ≡ true
    pub cores : Value F
    pub cores_at : find_field "cores" fs ≡ some cores
    pub core_count : ℤ
    pub cores_eq : to_int R cores ≡ ok core_count
    pub cores_positive : leb_ℤ (pos 1) core_count ≡ true
    pub num_tasks : Value F
    pub num_tasks_at : find_field "num_tasks" fs ≡ some num_tasks
    pub task_count : ℤ
    pub num_tasks_eq : to_int R num_tasks ≡ ok task_count
    pub num_tasks_positive : leb_ℤ (pos 1) task_count ≡ true
    pub stop_time : Value F
    pub stop_time_at : find_field "stop_time" fs ≡ some stop_time
    pub seconds : F
    pub stop_time_eq : to_float R stop_time ≡ ok seconds
    pub stop_time_positive : R.positive seconds ≡ true
    pub topology : Value F
    pub topology_at : find_field "topology" fs ≡ some topology
    pub topology_known : contains valid_topologies (lower (to_text R topology)) ≡ true
    pub scheduler_known :
        (v : Value F)
        → find_field "scheduler" fs ≡ some v
        → is_some (resolve_scheduler registry (to_text R v)) ≡ true

  abbrev AtLeastOne : Value F → Type 0
  AtLeastOne v = (n : ℤ) × (to_int R v ≡ ok n) × (leb_ℤ (pos 1) n ≡ true)

  check_at_least_one-AtLeastOne :
      (v : Value F) {u : Unit {0}} → check_at_least_one R registry v ≡ ok u → AtLeastOne v
  unfolding check_at_least_one
  check_at_least_one-AtLeastOne v h =
      on_ok (to_int R v) _ h λ n e h1. (n, e, check-eq-ok _ value_error h1)

  zero-not_AtLeastOne : ¬ AtLeastOne (int (pos 0))
  unfolding to_int
  zero-not_AtLeastOne (n, e, h) = ground arith

  abbrev IsPositive : Value F → Type 0
  IsPositive v = (x : F) × (to_float R v ≡ ok x) × (R.positive x ≡ true)

  zero-not_IsPositive : ¬ IsPositive (float R.float_zero)
  unfolding to_float
  zero-not_IsPositive (x, e, h) = cc (R.float_zero-not_positive, ok-injective e)

  abbrev IsTopology : Value F → Type 0
  IsTopology v = contains valid_topologies (lower (to_text R v)) ≡ true

  empty-not_IsTopology : ¬ IsTopology (text [])
  unfolding to_text lower text_eq
  empty-not_IsTopology h = cc

  scheduler-known :
      (fs : Fields F) {u : Unit {0}}
      → check_run_scheduler R registry (dict fs) ≡ ok u
      → (v : Value F) → find_field "scheduler" fs ≡ some v
      → is_some (resolve_scheduler registry (to_text R v)) ≡ true
  unfolding check_run_scheduler check_scheduler has_key index
  scheduler-known fs h v e = check-eq-ok _ value_error (rw e at h)

  abbrev IsWorkload : Value F → Type 0
  IsWorkload v = is_some (resolve_workload registry (to_text R v)) ≡ true

  assemble :
      (fs : Fields F)
      → (v : Value F) × (find_field "workload" fs ≡ some v) × IsWorkload v
      → (v : Value F) × (find_field "cores" fs ≡ some v) × AtLeastOne v
      → (v : Value F) × (find_field "num_tasks" fs ≡ some v) × AtLeastOne v
      → (v : Value F) × (find_field "stop_time" fs ≡ some v) × IsPositive v
      → (v : Value F) × (find_field "topology" fs ≡ some v) × IsTopology v
      → ((v : Value F)
          → find_field "scheduler" fs ≡ some v
          → is_some (resolve_scheduler registry (to_text R v)) ≡ true)
      → IsValidRun fs
  assemble fs (w, w_at, w_known) (c, c_at, (m, c_eq, c_pos)) (t, t_at, (n, t_eq, t_pos))
        (s, s_at, (x, s_eq, s_pos)) (q, q_at, q_known) schedulers =
      record {
        workload = w;
        workload_at = w_at;
        workload_known = w_known;
        cores = c;
        cores_at = c_at;
        core_count = m;
        cores_eq = c_eq;
        cores_positive = c_pos;
        num_tasks = t;
        num_tasks_at = t_at;
        task_count = n;
        num_tasks_eq = t_eq;
        num_tasks_positive = t_pos;
        stop_time = s;
        stop_time_at = s_at;
        seconds = x;
        stop_time_eq = s_eq;
        stop_time_positive = s_pos;
        topology = q;
        topology_at = q_at;
        topology_known = q_known;
        scheduler_known = schedulers;
      }

  -- No workload answers to the empty name.
  module _ (unnamed : resolve_workload registry [] ≡ none) where
    empty-not_IsWorkload : ¬ IsWorkload (text [])
    unfolding to_text
    empty-not_IsWorkload h = cc (unnamed, h)

    validate_run-IsValidRun :
        (run : Value F) {u : Unit {0}}
        → validate_run R registry run ≡ ok u
        → (fs : Fields F) × (run ≡ dict fs) × IsValidRun fs
    unfolding validate_run check_workload get_or
    validate_run-IsValidRun (dict fs) h =
        on_ok
          (check
            (is_some (
              resolve_workload registry
                (to_text R (default_to (find_field "workload" fs) (text [])))))
            value_error)
          _ h
          λ _ h1 k1.
            on_ok (check_at_least_one R registry (default_to (find_field "cores" fs) (int (pos 0))))
              _ k1
              λ _ h2 k2.
                on_ok
                  (check_at_least_one R registry
                    (default_to (find_field "num_tasks" fs) (int (pos 0))))
                  _ k2
                  λ _ h3 k3.
                    on_ok (to_float R (default_to (find_field "stop_time" fs) (float R.float_zero)))
                      _ k3
                      λ x h4 k4. on_ok (check (R.positive x) value_error) _ k4 λ _ h5 k5.
                        let t = default_to (find_field "topology" fs) (text []) in
                        on_ok (check (contains valid_topologies (lower (to_text R t))) value_error)
                          _ k5
                          λ _ h6 k6.
                            on_ok (check_balancer R registry (lower (to_text R t)) (dict fs)) _ k6
                              λ _ h7 k7. (
                                fs,
                                refl,
                                assemble fs
                                    (present IsWorkload (find_field "workload" fs) (text [])
                                      (check-eq-ok _ value_error h1) empty-not_IsWorkload)
                                    (present AtLeastOne (find_field "cores" fs) (int (pos 0))
                                      (check_at_least_one-AtLeastOne _ h2) zero-not_AtLeastOne)
                                    (present AtLeastOne (find_field "num_tasks" fs) (int (pos 0))
                                      (check_at_least_one-AtLeastOne _ h3) zero-not_AtLeastOne)
                                    (present IsPositive (find_field "stop_time" fs)
                                      (float R.float_zero) (x, h4, check-eq-ok _ value_error h5)
                                      zero-not_IsPositive)
                                    (present IsTopology (find_field "topology" fs) (text [])
                                      (check-eq-ok _ value_error h6) empty-not_IsTopology)
                                    (scheduler-known fs k7),
                              )
    validate_run-IsValidRun _ h = absurd (cc)

    -- An accepted experiment has an id and a list of runs, each of them accepted.
    pub record IsValidExperiment (exp : Value F) : Type 0 where
      pub exp_id : Value F
      pub id_eq : index "id" exp ≡ ok exp_id
      pub runs : List (Value F)
      pub runs_eq : (get_or "runs" exp (list Items.nil) >>= iterate) ≡ ok runs
      pub valid : All (λ run. (fs : Fields F) × (run ≡ dict fs) × IsValidRun fs) runs

    validate_runs-valid :
        (runs : List (Value F)) {u : Unit {0}}
        → validate_runs R registry runs ≡ ok u
        → All (λ run. (fs : Fields F) × (run ≡ dict fs) × IsValidRun fs) runs
    unfolding validate_runs
    validate_runs-valid [] h = tt
    validate_runs-valid (run ∷ runs) h =
        on_ok (validate_run R registry run) _ h
          λ u e h1. (validate_run-IsValidRun run e, validate_runs-valid runs h1)

    abbrev HasText : Value F → Type 0
    HasText v = is_empty (strip (to_text R v)) ≡ false

    empty-not_HasText : ¬ HasText (text [])
    unfolding to_text strip strip_by strip_left strip_right
    empty-not_HasText h = cc

    validate_experiment-IsValidExperiment :
        (exp : Value F) {u : Unit {0}}
        → validate_experiment R registry exp ≡ ok u
        → IsValidExperiment exp
    unfolding validate_experiment experiment_id get_or index
    validate_experiment-IsValidExperiment (dict fs) h =
        on_ok
          (check (not (is_empty (strip (to_text R (default_to (find_field "id" fs) (text []))))))
            value_error)
          _ h
          λ _ h1 k1.
            let runs = default_to (find_field "runs" fs) (list Items.nil) in
            on_ok (check (is_list runs) value_error) _ k1 λ _ h2 k2.
              on_ok (iterate runs) _ k2 λ l h3 k3.
                let (v, at, _) =
                  present HasText (find_field "id" fs) (text [])
                    (ground (arith, check-eq-ok _ value_error h1)) empty-not_HasText in
                record {
                  exp_id = v;
                  id_eq = ap (require key_error) at;
                  runs = l;
                  runs_eq = h3;
                  valid = validate_runs-valid l k3;
                }
    validate_experiment-IsValidExperiment _ h = absurd (cc)

    pub validate_experiments-valid :
        (exps : List (Value F)) {u : Unit {0}}
        → validate_experiments R registry exps ≡ ok u
        → All IsValidExperiment exps
    unfolding validate_experiments
    validate_experiments-valid [] h = tt
    validate_experiments-valid (exp ∷ exps) h =
        on_ok (validate_experiment R registry exp) _ h λ u e h1.
          (validate_experiment-IsValidExperiment exp e, validate_experiments-valid exps h1)
