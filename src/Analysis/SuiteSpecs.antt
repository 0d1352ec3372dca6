-- ===== src/Analysis/SuiteSpecs.antt =====
-- scripts/aggregate_results.py, list_suite_specs: the runs of the experiments of each suite
-- specification, with those of the experiments that they reuse. The depth of calls that the
-- interpreter allows is an argument; a chain that goes deeper raises RecursionError.
pub mod Depth
use scheduler_simulator.Prelude.{
  Bool, true, false, if◌then◌else◌, List, [], ◌∷◌, ◌++◌, String, Text, codes, lower, Option, none,
  some, ℕ, zero, suc, ℤ, pos, Dict, lookup, insert,
}
use scheduler_simulator.Python.{
  Result, ok, err, recursion_error, type_error, ◌>>=◌, ◌>>◌, check, default_to, Value, null, bool,
  int, float, text, list, dict, nil, end, get, get_or, index, has_key, iterate, is_text,
  is_hashable, truthy, to_text, to_int, to_float, same_value,
}
use scheduler_simulator.Analysis.Cells.{Floats}

-- A run as the specification means it.
pub record RunDef (F : Type 0) : Type 0 where
  pub workload : Text
  pub cores : ℤ
  pub num_tasks : ℤ
  pub stop_time : F
  pub topology : Value F
  pub balancer : Value F
  pub work_stealing : Text

-- The runs of the experiments, by id.
abbrev pub SuiteSpec : Type 0 → Type 0
SuiteSpec F = List (Value F × List (RunDef F))

-- "on" if v is True else ("off" if v is False else "na")
unfoldable pub stealing_text : {F : Type 0} → Value F → Text
stealing_text (bool true) = codes "on"
stealing_text (bool false) = codes "off"
stealing_text _ = codes "na"

module _ {F : Type 0} where
  -- list(exp.get("runs", []))
  unfoldable pub own_runs : Value F → Result (List (Value F))
  own_runs exp = get_or "runs" exp (list nil) >>= iterate

  -- The default topology of the suite.
  unfoldable pub default_topology : Value F → Result (Value F)
  default_topology spec = get_or "defaults" spec (dict end) >>= λ defaults.
      get_or "topology" defaults (text (codes "sq"))

  -- run.get(k, d) if topology == "mq" else "na"
  unfoldable pub only_mq : Value F → String → Value F → Value F → Result (Value F)
  only_mq topology k run d =
      if is_text "mq" topology then get_or k run d else ok (text (codes "na"))

module _ {F : Type 0} (A : Floats F) where
  open A use {runtime}
  open runtime use {float_zero}

  -- {exp["id"]: exp for exp in experiments if "id" in exp}
  unfoldable pub experiments_by_id :
      List (Value F) → Dict (Value F) (Value F) → Result (Dict (Value F) (Value F))
  experiments_by_id [] d = ok d
  experiments_by_id (exp ∷ exps) d = has_key "id" exp >>= λ has. elim has [
    | false ↦ experiments_by_id exps d
    | true ↦ index "id" exp >>= λ exp_id.
        check (is_hashable exp_id) type_error
        >> experiments_by_id exps (insert (same_value runtime) exp_id exp d)
  ]

  -- The end of resolved_runs: the runs of the parent are appended, if there is one.
  unfoldable pub extended :
      (has_parent : Bool)
      → Value F
      → List (Value F)
      → Dict (Value F) (List (Value F))
      → (of_parent : Result (List (Value F) × Dict (Value F) (List (Value F))))
      → Result (List (Value F) × Dict (Value F) (List (Value F)))
  extended false exp_id runs memo of_parent =
      ok (runs, insert (same_value runtime) exp_id runs memo)
  extended true exp_id runs memo of_parent = of_parent >>= λ (more, after).
      ok (runs ++ more, insert (same_value runtime) exp_id (runs ++ more) after)

  -- resolved_runs, with the memo before and after the call
  unfoldable pub resolved_runs :
      (depth : ℕ)
      → Dict (Value F) (Value F)
      → Value F
      → Dict (Value F) (List (Value F))
      → Result (List (Value F) × Dict (Value F) (List (Value F)))
  resolved_runs zero exp_by_id exp_id memo = err recursion_error
  resolved_runs (suc depth) exp_by_id exp_id memo =
      check (is_hashable exp_id) type_error >> elim (lookup (same_value runtime) exp_id memo) [
        | some runs ↦ ok (runs, memo)
        | none ↦
            let exp = default_to (lookup (same_value runtime) exp_id exp_by_id) (dict end) in
            own_runs exp >>= λ runs. get_or "reuse_from_experiment" exp null >>= λ parent.
            extended (truthy runtime parent) exp_id runs memo
              (resolved_runs depth exp_by_id parent memo)
      ]

  unfoldable pub normalized_run : Value F → Value F → Result (RunDef F)
  normalized_run spec run = default_topology spec >>= λ by_default.
      get_or "topology" run by_default >>= λ topology.
      only_mq topology "balancer" run (text (codes "leastloaded")) >>= λ balancer.
      only_mq topology "work_stealing" run (bool true) >>= λ ws.
      get_or "workload" run (text []) >>= λ workload. get_or "cores" run (int (pos 0)) >>= λ cores.
      to_int runtime cores >>= λ n_cores. get_or "num_tasks" run (int (pos 0)) >>= λ tasks.
      to_int runtime tasks >>= λ n_tasks. get_or "stop_time" run (float float_zero) >>= λ stop.
      to_float runtime stop >>= λ stop_time. ok record {
        workload = lower (to_text runtime workload);
        cores = n_cores;
        num_tasks = n_tasks;
        stop_time = stop_time;
        topology = topology;
        balancer = balancer;
        work_stealing = stealing_text ws;
      }

  unfoldable pub normalized_runs : Value F → List (Value F) → Result (List (RunDef F))
  normalized_runs spec [] = ok []
  normalized_runs spec (run ∷ runs) =
      normalized_run spec run >>= λ r. normalized_runs spec runs >>= λ rs. ok (r ∷ rs)

  unfoldable pub spec_experiments :
      (depth : ℕ)
      → Value F
      → Dict (Value F) (Value F)
      → List (Value F)
      → Dict (Value F) (List (Value F))
      → Result (SuiteSpec F)
  spec_experiments depth spec exp_by_id [] memo = ok []
  spec_experiments depth spec exp_by_id (exp ∷ exps) memo = get_or "id" exp null >>= λ exp_id.
      elim (truthy runtime exp_id) [
        | false ↦ spec_experiments depth spec exp_by_id exps memo
        | true ↦ resolved_runs depth exp_by_id exp_id memo >>= λ (runs, after).
            normalized_runs spec runs >>= λ rs.
            spec_experiments depth spec exp_by_id exps after >>= λ rest. ok ((exp_id, rs) ∷ rest)
      ]

  -- What is listed of one specification.
  unfoldable pub suite_spec : (depth : ℕ) → Value F → Result (SuiteSpec F)
  suite_spec depth spec = get_or "experiments" spec (list nil) >>= λ exps.
      iterate exps >>= λ listed.
      experiments_by_id listed [] >>= λ exp_by_id. spec_experiments depth spec exp_by_id listed []

  -- The loop over the files, of which some may not load.
  unfoldable pub list_suite_specs :
      (depth : ℕ)
      → List (Option (Value F))
      → Dict (Value F) (SuiteSpec F)
      → Result (Dict (Value F) (SuiteSpec F))
  list_suite_specs depth [] out = ok out
  list_suite_specs depth (some (dict fs) ∷ docs) out =
      get_or "suite_id" (dict fs) null >>= λ suite_id. elim (truthy runtime suite_id) [
        | false ↦ list_suite_specs depth docs out
        | true ↦ suite_spec depth (dict fs) >>= λ listed.
            check (is_hashable suite_id) type_error
            >> list_suite_specs depth docs (insert (same_value runtime) suite_id listed out)
      ]
  list_suite_specs depth (doc ∷ docs) out = list_suite_specs depth docs out
