-- ===== src/Tests/Matching.antt =====
-- A small suite specification, with experiments that reuse others, and the summary of a run.
use scheduler_simulator.Prelude.{
  Text, List, ◌≡◌, refl, sym, subst, ◌↔◌, inr, true, none, some, [], ◌∷◌, codes, String, ℤ, pos,
  contains, lookup, insert, text_eq, lower, sorted_set, add_sorted, text_lt, Dict,
}
use scheduler_simulator.Python.{
  ok, err, recursion_error, Value, null, int, float, text, list, dict, nil, cons, end, field, get,
  get_or, iterate, has_key, index, truthy, same_value, to_text, to_int, to_float, member_of,
  Returns,
}
use scheduler_simulator.Analysis.Cells.{approx_eq}
use scheduler_simulator.Analysis.SuiteSpecs.{
  RunDef, SuiteSpec, stealing_text, experiments_by_id, own_runs, extended, resolved_runs,
  default_topology, only_mq, normalized_run, normalized_runs, spec_experiments, suite_spec,
  list_suite_specs,
}
use scheduler_simulator.Analysis.SuiteSpecs.Depth.{
  Reuses, IsChain, resolved_runs-Reuses, resolved_runs-IsChain,
}
use scheduler_simulator.Analysis.Matching.{
  canonical_workload_name, as_values, normalize_summary_values, convert, distinct_values,
  summary_sets, workload_matches, topology_matches, sets_match, run_def_matches_summary,
  some_run_matches, matched_ids, id_text, infer_experiments_from_spec,
}
use scheduler_simulator.Analysis.Matching.Found.{IsMatched}
use scheduler_simulator.Analysis.Cells.{CsvRow}
use scheduler_simulator.Analysis.Runs.{summarize_run_rows}
use scheduler_simulator.Analysis.Runs.Inferred.{
  IsListed, infer_experiments_from_spec-summarize_run_rows,
}
use scheduler_simulator.Tests.Numbers.{numbers}

-- Opens the matching.
unfoldable matching : Unit {0}
unfolding lookup insert text_eq lower sorted_set add_sorted text_lt get get_or iterate has_key index
    truthy same_value to_text to_int to_float member_of approx_eq stealing_text experiments_by_id
    own_runs extended resolved_runs default_topology only_mq normalized_run normalized_runs
    spec_experiments suite_spec list_suite_specs canonical_workload_name as_values
    normalize_summary_values convert distinct_values summary_sets workload_matches topology_matches
    sets_match run_def_matches_summary some_run_matches matched_ids id_text
    infer_experiments_from_spec
matching = tt

abbrev word : String → Value ℤ
word s = text (codes s)

abbrev one_run : Value ℤ
one_run = dict (
    field "workload" (word "google") (
      field "cores" (int (pos 2))
        (field "num_tasks" (int (pos 50)) (field "stop_time" (int (pos 1000)) end))))

abbrev own : Value ℤ
own = dict (field "id" (word "exp1") (field "runs" (list (cons one_run nil)) end))

abbrev reusing : Value ℤ
reusing = dict (field "id" (word "exp2") (field "reuse_from_experiment" (word "exp1") end))

abbrev circular : Value ℤ
circular = dict (field "id" (word "exp1") (field "reuse_from_experiment" (word "exp1") end))

abbrev spec_of : (first second : Value ℤ) → Value ℤ
spec_of first second =
    dict
      (field "suite_id" (word "s") (field "experiments" (list (cons first (cons second nil))) end))

abbrev by_id : (first : Value ℤ) → Dict (Value ℤ) (Value ℤ)
by_id first = (word "exp1", first) ∷ (word "exp2", reusing) ∷ []

abbrev run_def : RunDef ℤ
run_def = record {
  workload = codes "google";
  cores = pos 2;
  num_tasks = pos 50;
  stop_time = pos 1000;
  topology = word "sq";
  balancer = word "na";
  work_stealing = codes "na";
}

abbrev listed : SuiteSpec ℤ
listed = (word "exp1", run_def ∷ []) ∷ (word "exp2", run_def ∷ []) ∷ []

-- Both experiments have the run.
specs_listed :
    list_suite_specs numbers 3 (some (spec_of own reusing) ∷ none ∷ []) []
    ≡ ok ((word "s", listed) ∷ [])
unfolding matching
specs_listed = refl

abbrev Circle : Value ℤ → Type 0
Circle v = v ≡ word "exp1"

circle : (v : Value ℤ) → Circle v → Reuses numbers (by_id circular) Circle v
unfolding matching
circle v p = subst (Reuses numbers (by_id circular) Circle) (sym p) record {
  hashable = refl;
  runs = [];
  has_runs = refl;
  parent = word "exp1";
  reads = refl;
  full = refl;
  next = refl;
}

resolved_runs-Reuses_example :
    resolved_runs numbers 1000 (by_id circular) (word "exp1") [] ≡ err recursion_error
resolved_runs-Reuses_example =
    resolved_runs-Reuses numbers (by_id circular) Circle circle 1000 (word "exp1") refl

chain : IsChain numbers (by_id own) 1 (word "exp2")
unfolding matching
chain = inr record {
  hashable = refl;
  runs = [];
  has_runs = refl;
  parent = word "exp1";
  reads = refl;
  full = refl;
  next = record {
    hashable = refl;
    runs = one_run ∷ [];
    has_runs = refl;
    found = null;
    reads = refl;
    empty = refl;
  };
}

resolved_runs-IsChain_example : Returns (resolved_runs numbers 2 (by_id own) (word "exp2") [])
resolved_runs-IsChain_example = resolved_runs-IsChain numbers (by_id own) 1 (word "exp2") [] chain

abbrev summary : Value ℤ
summary = dict (
    field "workloads" (list (cons (word "GoogleTraceV3") nil)) (
      field "cores" (list (cons (float (pos 2)) nil)) (
        field "num_tasks" (int (pos 50)) (
          field "stop_time" (list (cons (int (pos 1000)) nil))
            (field "topologies" (list (cons (word "SQ") nil)) end)))))

inferred :
    infer_experiments_from_spec numbers (word "s") summary ((word "s", listed) ∷ [])
    ≡ ok (codes "exp1" ∷ codes "exp2" ∷ [])
unfolding matching
inferred = refl

known : lookup (same_value numbers.runtime) (word "s") ((word "s", listed) ∷ []) ≡ some listed
unfolding matching
known = refl

first-IsListed : IsListed (word "exp1", run_def ∷ [])
first-IsListed = record { id = codes "exp1"; id_eq = refl; hashable = ((refl, refl), tt) }

second-IsListed : IsListed (word "exp2", run_def ∷ [])
second-IsListed = record { id = codes "exp2"; id_eq = refl; hashable = ((refl, refl), tt) }

abbrev google_lines : List CsvRow
google_lines =
    ((codes "Workload", some (codes "GoogleTraceV3"))
      ∷ (codes "Cores", some (codes "2"))
      ∷ (codes "NumTasks", some (codes "50"))
      ∷ (codes "StopTime", some (codes "1000"))
      ∷ (codes "Topology", some (codes "sq"))
      ∷ [])
    ∷ []

infer_experiments_from_spec-summarize_run_rows_example :
    (ids : List Text) × (infer_experiments_from_spec numbers
        (word "s")
        (summarize_run_rows numbers google_lines)
        ((word "s", listed) ∷ [])
      ≡ ok ids)
    × ((x : Text)
        → (contains ids x ≡ true)
          ↔ IsMatched numbers (summarize_run_rows numbers google_lines) x listed)
infer_experiments_from_spec-summarize_run_rows_example =
    infer_experiments_from_spec-summarize_run_rows numbers google_lines (word "s")
      ((word "s", listed) ∷ []) listed known (first-IsListed, (second-IsListed, tt))
