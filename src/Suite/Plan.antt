-- ===== src/Suite/Plan.antt =====
-- `run_key` and `build_run_plan` of benchmark/runner/run_suite.py.
-- `dedup_map` holds the same dictionaries as `plan`, and appending to one is seen in the other: a
-- reference is modelled as the position in `plan`. The loops carry the three variables as
-- `PlanState`.
pub mod Steps
pub mod Numbering
pub mod Dedupe
pub mod Growth
pub mod Coverage
use scheduler_simulator.Prelude.{
  ℕ, zero, suc, ◌+◌, ◌*◌, Bool, true, false, ◌&&◌, Option, none, some, List, [], ◌∷◌, ◌++◌,
  if◌then◌else◌, String, Text, ℤ, pos, ◌+ℤ◌, eq_ℤ, codes, text_eq, Dict, lookup, insert, show_ℤ,
  show_padded, length, get_elem?, set,
}
use scheduler_simulator.Python.{
  Exception, type_error, attribute_error, system_exit, Result, ok, err, ◌>>=◌, ◌>>◌, check, require,
  Value, Items, null, bool, text, Runtime, get_or, index, iterate, is_text, is_hashable, to_text,
  to_int, to_float, truthy, same_value,
}
use scheduler_simulator.Plugins.Table.{Plugin}
use scheduler_simulator.Plugins.Registry.{Registry, resolve_scheduler, resolve_workload}
use scheduler_simulator.Suite.Sanitize.{sanitize_id}

-- The tuple that `run_key` returns.
pub record RunKey (F : Type 0) : Type 0 where
  pub workload_cli : Text
  pub scheduler_cli : Text
  pub cores : ℤ
  pub num_tasks : ℤ
  pub stop_time : F
  pub topology : Value F
  pub balancer : Value F
  pub work_stealing : Value F

-- A dictionary of the plan; `key` holds the fields that are unpacked from the run key.
pub record Entry (F : Type 0) : Type 0 where
  pub case_index : ℕ
  pub experiments : List (Value F)
  pub exp_run_index : ℕ
  pub key : RunKey F
  pub workload_key : Text
  pub scheduler_key : Text
  pub run_id : Text
  pub seed : ℤ
  pub replications : ℤ
  pub artifact_dir : Text

pub record PlanState (F : Type 0) : Type 0 where
  pub plan : List (Entry F)
  pub dedup_map : Dict (RunKey F) ℕ
  pub case_index : ℕ

abbrev pub empty_state : {F : Type 0} → PlanState F
empty_state = record { plan = []; dedup_map = []; case_index = 0 }

-- The arguments of `build_run_plan` that its loops only read.
pub record PlanArgs (F : Type 0) : Type 0 where
  pub suite : Value F
  pub dedupe : Bool
  pub scheduler_key : Text
  pub replications : ℤ
  pub seed_base : ℤ
  pub runs_dir : Text
  pub registry : Registry

-- str(a / b)
abbrev pub join_path : Text → Text → Text
join_path a b = a ++ b'/' ∷ b

-- f"{suite['suite_id']}-{case_index:03d}-…", sanitized.
unfoldable pub make_run_id : (suite_id : Text) → (case_index : ℕ) → (rest : Text) → Text
make_run_id suite_id case_index rest =
    sanitize_id (suite_id ++ b'-' ∷ (show_padded case_index ++ b'-' ∷ rest))

module _ {F : Type 0} where
  -- sanitize_id(suite["suite_id"]), which calls a method of `str`
  abbrev pub suite_dir : Value F → Result Text
  suite_dir (text t) = ok (sanitize_id t)
  suite_dir _ = err attribute_error

  -- The tuple can be hashed if its components can.
  abbrev pub is_hashable_key : RunKey F → Bool
  is_hashable_key k =
      is_hashable k.topology && is_hashable k.balancer && is_hashable k.work_stealing

  -- dedup_map[key]["experiments"].append(exp_id)
  abbrev pub add_experiment : Value F → Entry F → Entry F
  add_experiment exp_id e = record e { experiments = e.experiments ++ exp_id ∷ [] }

  unfoldable pub append_at : List (Entry F) → ℕ → Value F → List (Entry F)
  append_at [] i exp_id = []
  append_at (e ∷ plan) zero exp_id = add_experiment exp_id e ∷ plan
  append_at (e ∷ plan) (suc i) exp_id = e ∷ append_at plan i exp_id

module _ {F : Type 0} (R : Runtime F) where
  open R use {truncate}

  unfoldable pub same_key : RunKey F → RunKey F → Bool
  same_key a b =
      text_eq a.workload_cli b.workload_cli
      && text_eq a.scheduler_cli b.scheduler_cli
      && eq_ℤ a.cores b.cores
      && eq_ℤ a.num_tasks b.num_tasks
      && R.same_float a.stop_time b.stop_time
      && same_value R a.topology b.topology
      && same_value R a.balancer b.balancer
      && same_value R a.work_stealing b.work_stealing

  unfoldable pub run_key : Value F → (workload_cli scheduler_cli : Text) → Result (RunKey F)
  run_key run workload_cli scheduler_cli = do
    topology ← index "topology" run
    let mq = is_text "mq" topology
    balancer ←
        if mq then get_or "balancer" run (text (codes "leastloaded")) else ok (text (codes "na"))
    ws ← if mq then get_or "work_stealing" run (bool true) else ok null
    cores ← index "cores" run >>= to_int R
    num_tasks ← index "num_tasks" run >>= to_int R
    stop_time ← index "stop_time" run >>= to_float R
    ok (record {
      workload_cli = workload_cli;
      scheduler_cli = scheduler_cli;
      cores = cores;
      num_tasks = num_tasks;
      stop_time = stop_time;
      topology = topology;
      balancer = balancer;
      work_stealing = ws;
    })

  -- The end of the run id: f"-{balancer}-ws-{'on' if ws else 'off'}" or "-sq".
  unfoldable pub run_id_end : RunKey F → Text
  run_id_end k =
      if is_text "mq" k.topology
      then b'-' ∷ to_text R k.balancer
        ++ codes "-ws-"
        ++ (if truthy R k.work_stealing then codes "on" else codes "off")
      else codes "-sq"

  -- f"{workload_plugin.key}-{cores}c-n{num_tasks}-t{int(stop_time)}" and the end.
  unfoldable pub run_id_rest : (workload_key : Text) → RunKey F → (seconds : ℤ) → Text
  run_id_rest workload_key k seconds =
      workload_key
      ++ b'-' ∷ show_ℤ k.cores
      ++ codes "c-n"
      ++ show_ℤ k.num_tasks
      ++ codes "-t"
      ++ show_ℤ seconds
      ++ run_id_end k

  module _ (args : PlanArgs F) where
    open args use {suite, dedupe, scheduler_key, replications, seed_base, runs_dir, registry}

    -- The dictionary of a new case.
    unfoldable pub make_entry :
        (case_index : ℕ)
        → (exp_id : Value F) → (exp_run_index : ℕ) → (workload scheduler : Plugin) → RunKey F
        → (suite_id : Value F) → (seconds : ℤ) → (dir : Text) → Entry F
    make_entry case_index exp_id exp_run_index workload scheduler key suite_id seconds dir =
        let run_id =
          make_run_id (to_text R suite_id) case_index (run_id_rest workload.key key seconds) in
        record {
          case_index = case_index;
          experiments = exp_id ∷ [];
          exp_run_index = exp_run_index;
          key = key;
          workload_key = workload.key;
          scheduler_key = scheduler.key;
          run_id = run_id;
          seed = seed_base +ℤ pos (case_index * 1000);
          replications = replications;
          artifact_dir = join_path (join_path runs_dir dir) run_id;
        }

    -- plan.append(entry); dedup_map[key] = entry
    unfoldable pub add_case : PlanState F → Entry F → PlanState F
    add_case s e = record {
      plan = s.plan ++ e ∷ [];
      dedup_map = insert same_key e.key (length s.plan) s.dedup_map;
      case_index = suc s.case_index;
    }

    -- The part of the loop body behind the lookup in `dedup_map`.
    unfoldable pub new_case :
        PlanState F
        → (exp_id : Value F) → (exp_run_index : ℕ) → (workload scheduler : Plugin) → RunKey F
        → Result (PlanState F)
    new_case s exp_id exp_run_index workload scheduler key = do
      suite_id ← index "suite_id" suite
      seconds ← truncate key.stop_time
      dir ← suite_dir suite_id
      check (is_hashable_key key) type_error
      ok (
          add_case s (
            make_entry (suc s.case_index) exp_id exp_run_index workload scheduler key suite_id
              seconds dir))

    -- The lookup in `dedup_map` and the two ways on.
    unfoldable pub place :
        PlanState F
        → (exp_id : Value F) → (exp_run_index : ℕ) → (workload scheduler : Plugin) → RunKey F
        → Result (PlanState F)
    place s exp_id exp_run_index workload scheduler key =
        if dedupe
        then (do
          check (is_hashable_key key) type_error
          elim (lookup same_key key s.dedup_map) [
            | some i ↦ ok (record s { plan = append_at s.plan i exp_id })
            | none ↦ new_case s exp_id exp_run_index workload scheduler key
          ])
        else new_case s exp_id exp_run_index workload scheduler key

    -- The body of the inner loop.
    unfoldable pub plan_run :
        PlanState F → (exp_id : Value F) → (exp_run_index : ℕ) → Value F → Result (PlanState F)
    plan_run s exp_id exp_run_index run = do
      name ← get_or "scheduler" run (text scheduler_key)
      scheduler ← require system_exit (resolve_scheduler registry (to_text R name))
      kind ← index "workload" run
      workload ← require system_exit (resolve_workload registry (to_text R kind))
      key ← run_key run workload.cli_token scheduler.cli_token
      place s exp_id exp_run_index workload scheduler key

    -- for exp_run_index, run in enumerate(…, start=1)
    unfoldable pub plan_runs :
        PlanState F
        → (exp_id : Value F) → (exp_run_index : ℕ) → List (Value F)
        → Result (PlanState F)
    plan_runs s exp_id i [] = ok s
    plan_runs s exp_id i (run ∷ runs) = do
      s' ← plan_run s exp_id i run
      plan_runs s' exp_id (suc i) runs

    unfoldable pub plan_experiment : PlanState F → Value F → Result (PlanState F)
    plan_experiment s exp = do
      exp_id ← index "id" exp
      runs ← get_or "runs" exp (Value.list Items.nil) >>= iterate
      plan_runs s exp_id 1 runs

    -- for exp in selected_experiments
    unfoldable pub plan_experiments : PlanState F → List (Value F) → Result (PlanState F)
    plan_experiments s [] = ok s
    plan_experiments s (exp ∷ exps) = do s' ← plan_experiment s exp; plan_experiments s' exps

    unfoldable pub build_run_plan : (selected : List (Value F)) → Result (List (Entry F))
    build_run_plan selected = do s ← plan_experiments empty_state selected; ok s.plan
