-- ===== src/Analysis/Matching.antt =====
-- scripts/aggregate_results.py: which experiments of a suite a run belongs to, found by comparing the
-- definitions of their runs with the summary of the run. An id that is no text raises when the ids
-- are sorted, and not only when they are joined.
pub mod Found
use scheduler_simulator.Prelude.{
  Bool, true, false, ◌&&◌, if◌then◌else◌, List, [], ◌∷◌, String, Text, codes, lower, text_eq, none,
  some, ℤ, eq_ℤ, any, contains, sorted_set, leb, length, Dict, lookup,
}
use scheduler_simulator.Python.{
  Result, ok, err, type_error, ◌>>=◌, ◌>>◌, check, Value, null, text, list, nil, to_list, get_or,
  is_text, is_hashable, to_text, to_int, to_float, same_value, member_of,
}
use scheduler_simulator.Analysis.Cells.{Floats, approx_eq}
use scheduler_simulator.Analysis.SuiteSpecs.{RunDef, SuiteSpec}

unfoldable pub canonical_workload_name : Text → Text
canonical_workload_name key =
    let k = lower key in
    if text_eq k (codes "desktop")
    then codes "Desktop"
    else if text_eq k (codes "server")
    then codes "Server"
    else if text_eq k (codes "google")
    then codes "GoogleTraceV3"
    else if text_eq k (codes "alibaba")
    then codes "AlibabaTraceV2018"
    else key

-- The values of a summary entry that is there.
unfoldable pub as_values : {F : Type 0} → Value F → List (Value F)
as_values null = []
as_values (list vs) = to_list vs
as_values v = v ∷ []

unfoldable pub normalize_summary_values : {F : Type 0} → Value F → String → Result (List (Value F))
normalize_summary_values run_summary key =
    get_or key run_summary (list nil) >>= λ vals. ok (as_values vals)

-- f(v) for v in vs
unfoldable pub convert : {F B : Type 0} → (Value F → Result B) → List (Value F) → Result (List B)
convert f [] = ok []
convert f (v ∷ vs) = f v >>= λ b. convert f vs >>= λ bs. ok (b ∷ bs)

-- What is compared of a summary.
pub record SummarySets (F : Type 0) : Type 0 where
  pub workloads : List (Value F)
  pub cores : List ℤ
  pub num_tasks : List ℤ
  pub stop_times : List F
  pub topologies : List Text
  pub balancers : List Text
  pub ws_vals : List Text

module _ {F : Type 0} where
  -- The tests on the topology, the balancer and the work stealing.
  unfoldable pub topology_matches : RunDef F → SummarySets F → Result Bool
  topology_matches r s = member_of s.topologies r.topology >>= λ known.
      if known && is_text "mq" r.topology
      then (member_of s.balancers r.balancer >>= λ balanced.
          ok (balanced && contains s.ws_vals r.work_stealing))
      else ok known

  unfoldable pub id_text : Value F → Result Text
  id_text (text t) = ok t
  id_text _ = err type_error

module _ {F : Type 0} (A : Floats F) where
  open A use {runtime}

  -- set(values)
  unfoldable pub distinct_values : List (Value F) → Result (List (Value F))
  distinct_values [] = ok []
  distinct_values (v ∷ vs) =
      check (is_hashable v) type_error
      >> (distinct_values vs >>= λ ws. ok (if any (same_value runtime v) ws then ws else v ∷ ws))

  abbrev pub lower_text : Value F → Result Text
  lower_text v = ok (lower (to_text runtime v))

  unfoldable pub summary_sets : Value F → Result (SummarySets F)
  summary_sets s = normalize_summary_values s "workloads" >>= λ ws.
      distinct_values ws >>= λ workloads. normalize_summary_values s "cores" >>= λ cs.
      convert (to_int runtime) cs >>= λ cores. normalize_summary_values s "num_tasks" >>= λ ns.
      convert (to_int runtime) ns >>= λ num_tasks. normalize_summary_values s "stop_time" >>= λ sts.
      convert (to_float runtime) sts >>= λ stop_times.
      normalize_summary_values s "topologies" >>= λ ts. convert lower_text ts >>= λ topologies.
      normalize_summary_values s "balancers" >>= λ bs. convert lower_text bs >>= λ balancers.
      normalize_summary_values s "work_stealing_values" >>= λ vs.
      convert lower_text vs >>= λ ws_vals. ok record {
        workloads = workloads;
        cores = cores;
        num_tasks = num_tasks;
        stop_times = stop_times;
        topologies = topologies;
        balancers = balancers;
        ws_vals = ws_vals;
      }

  unfoldable pub workload_matches : Text → List (Value F) → Bool
  workload_matches workload workloads =
      if text_eq workload (codes "all")
      then leb 2 (length workloads)
      else any (same_value runtime (text (canonical_workload_name workload))) workloads

  -- The tests of one run on the sets of the summary.
  unfoldable pub sets_match : RunDef F → SummarySets F → Result Bool
  sets_match r s =
      if workload_matches r.workload s.workloads
        && (any (eq_ℤ r.cores) s.cores
            && (any (eq_ℤ r.num_tasks) s.num_tasks && any (approx_eq A r.stop_time) s.stop_times))
      then topology_matches r s
      else ok false

  unfoldable pub run_def_matches_summary : RunDef F → Value F → Result Bool
  run_def_matches_summary r run_summary = summary_sets run_summary >>= sets_match r

  -- The loop over the runs of an experiment, up to the first that matches.
  unfoldable pub some_run_matches : List (RunDef F) → Value F → Result Bool
  some_run_matches [] run_summary = ok false
  some_run_matches (r ∷ rs) run_summary = run_def_matches_summary r run_summary >>= λ hit.
      elim hit [ true ↦ ok true | false ↦ some_run_matches rs run_summary ]

  unfoldable pub matched_ids : SuiteSpec F → Value F → Result (List (Value F))
  matched_ids [] run_summary = ok []
  matched_ids ((exp_id, runs) ∷ exps) run_summary = some_run_matches runs run_summary >>= λ hit.
      matched_ids exps run_summary >>= λ ids. ok (if hit then exp_id ∷ ids else ids)

  unfoldable pub infer_experiments_from_spec :
      Value F → Value F → Dict (Value F) (SuiteSpec F) → Result (List Text)
  infer_experiments_from_spec suite_id run_summary suite_specs =
      elim (lookup (same_value runtime) suite_id suite_specs) [
        | none ↦ ok []
        | some suite ↦ matched_ids suite run_summary >>= λ matched.
            convert id_text matched >>= λ ids. ok (sorted_set ids)
      ]
