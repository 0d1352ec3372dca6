-- ===== src/Analysis/Runs.antt =====
-- scripts/aggregate_results.py, the start of the loop over the metrics files: the ids of a run, its
-- summary and its experiments, from its lines, its manifest, its folders, the execution summaries and
-- the suite specifications.
pub mod Inferred
use scheduler_simulator.Prelude.{
  Bool, true, false, ◌&&◌, if◌then◌else◌, List, [], ◌∷◌, map, String, Text, codes, Option, none,
  some, ℤ, pos, eq_ℤ, ltb_ℤ, length, Dict, lookup, insert, sorted_set,
}
use scheduler_simulator.Python.{
  Result, ok, type_error, ◌>>=◌, ◌>>◌, check, default_to, Value, null, int, text, list, dict, Items,
  nil, cons, end, field, get_or, iterate, is_hashable, truthy, to_text, same_value,
}
use scheduler_simulator.Analysis.Cells.{Floats, CsvRow, cell, shown, full_cell, to_float, to_int}
use scheduler_simulator.Analysis.SuiteSpecs.{SuiteSpec}
use scheduler_simulator.Analysis.Matching.{convert, id_text, infer_experiments_from_spec}
use scheduler_simulator.Analysis.Metrics.{RunInfo}
use scheduler_simulator.Manifests.{present_texts, text_list, number_list, sorted_numbers}

-- What an execution summary says of a case.
pub record ExecMeta (F : Type 0) : Type 0 where
  pub experiments : List (Value F)
  pub status : Value F
  pub log_path : Value F
  pub summary_path : Text

-- Where a metrics file lies: below the root, and the names of its folder and of the folder above.
pub record MetricsFile (F : Type 0) : Type 0 where
  pub source : Text
  pub suite_folder : Text
  pub run_folder : Text
  -- what load_json gives for the manifest, or None
  pub manifest : Value F
  pub raw_rows : List CsvRow
  -- the paths of the tasks file and of the manifest, or no text where there is no such file
  pub tasks_path : Text
  pub manifest_path : Text

-- sorted({…}) of integers
unfoldable pub add_int : ℤ → List ℤ → List ℤ
add_int n [] = n ∷ []
add_int n (m ∷ ns) = if eq_ℤ n m then m ∷ ns else if ltb_ℤ n m then n ∷ m ∷ ns else m ∷ add_int n ns

unfoldable pub sorted_ints : List ℤ → List ℤ
sorted_ints [] = []
sorted_ints (n ∷ ns) = add_int n (sorted_ints ns)

abbrev pub int_list : {F : Type 0} → List ℤ → Items F
int_list [] = nil
int_list (n ∷ ns) = cons (int n) (int_list ns)

module _ {F : Type 0} (A : Floats F) where
  open A use {runtime}

  unfoldable pub summarize_run_rows : List CsvRow → Value F
  summarize_run_rows rows = dict (
      field "rows" (int (pos (length rows))) (
        field "replications"
          (list (int_list (sorted_ints (map (λ r. to_int A (cell "Replication" r)) rows))))
          (field "num_tasks"
            (list (int_list (sorted_ints (map (λ r. to_int A (cell "NumTasks" r)) rows))))
            (field "cores"
              (list (int_list (sorted_ints (map (λ r. to_int A (cell "Cores" r)) rows))))
              (field "stop_time"
                (list
                  (number_list (sorted_numbers A (map (λ r. to_float A (cell "StopTime" r)) rows))))
                (field "topologies" (text_list (sorted_set (present_texts "Topology" rows))) (
                  field "balancers" (text_list (sorted_set (present_texts "Balancer" rows))) (
                    field "work_stealing_values"
                      (text_list (sorted_set (present_texts "WorkStealing" rows)))
                      (field "schedulers" (text_list (sorted_set (present_texts "Scheduler" rows)))
                        (field "workloads" (text_list (sorted_set (present_texts "Workload" rows)))
                          end))))))))))

  -- (manifest or {})
  abbrev pub or_empty : Value F → Value F
  or_empty manifest = if truthy runtime manifest then manifest else dict end

  -- str(first.get(k) or (manifest or {}).get("benchmark_metadata", {}).get(j) or name)
  unfoldable pub id_of :
      (k j : String) → CsvRow → (manifest : Value F) → (name : Text) → Result Text
  id_of k j first manifest name =
      let found = cell k first in
      if full_cell found
      then ok (shown (default_to found none))
      else get_or "benchmark_metadata" (or_empty manifest) (dict end) >>= λ metadata.
          get_or j metadata null >>= λ id.
          ok (if truthy runtime id then to_text runtime id else name)

  -- (manifest or {}).get("run_summary") or summarize_run_rows(raw_rows)
  unfoldable pub summary_of : (manifest : Value F) → List CsvRow → Result (Value F)
  summary_of manifest rows = get_or "run_summary" (or_empty manifest) null >>= λ found.
      ok (if truthy runtime found then found else summarize_run_rows rows)

  abbrev pub same_run : Value F × Value F → Value F × Value F → Bool
  same_run (s, r) (t, q) = same_value runtime s t && same_value runtime r q

  unfoldable pub index_cases :
      (suite_id : Value F) (summary_path : Text)
      → List (Value F)
      → Dict (Value F × Value F) (ExecMeta F)
      → Result (Dict (Value F × Value F) (ExecMeta F))
  index_cases suite_id summary_path [] out = ok out
  index_cases suite_id summary_path (case ∷ cases) out =
      get_or "run_id" case (text []) >>= λ run_id. elim (truthy runtime run_id) [
        | false ↦ index_cases suite_id summary_path cases out
        | true ↦ get_or "experiments" case (list nil) >>= λ exps. iterate exps >>= λ experiments.
            get_or "status" case (text []) >>= λ status.
            get_or "log_path" case (text []) >>= λ log_path.
            check (is_hashable suite_id && is_hashable run_id) type_error
            >> index_cases suite_id summary_path cases (
                insert same_run (suite_id, run_id)
                  record {
                    experiments = experiments;
                    status = status;
                    log_path = log_path;
                    summary_path = summary_path;
                  }
                  out)
      ]

  -- The loop over the execution summaries, of which some may not load.
  unfoldable pub load_execution_summary_index :
      List (Text × Option (Value F))
      → Dict (Value F × Value F) (ExecMeta F)
      → Result (Dict (Value F × Value F) (ExecMeta F))
  load_execution_summary_index [] out = ok out
  load_execution_summary_index ((path, some (dict fs)) ∷ docs) out =
      get_or "suite_id" (dict fs) (text []) >>= λ suite_id. elim (truthy runtime suite_id) [
        | false ↦ load_execution_summary_index docs out
        | true ↦ get_or "cases" (dict fs) (list nil) >>= λ cs. iterate cs >>= λ cases.
            index_cases suite_id path cases out >>= λ after. load_execution_summary_index docs after
      ]
  load_execution_summary_index (doc ∷ docs) out = load_execution_summary_index docs out

  -- The experiments of the execution summary if it names some, else those that match.
  unfoldable pub run_experiments :
      Dict (Value F × Value F) (ExecMeta F)
      → Dict (Value F) (SuiteSpec F)
      → (suite_id run_id : Text) (run_summary : Value F) → Result (List Text)
  run_experiments execution_idx suite_specs suite_id run_id run_summary =
      elim (lookup same_run (text suite_id, text run_id) execution_idx) [
        | none ↦ infer_experiments_from_spec A (text suite_id) run_summary suite_specs
        | some exec_meta ↦ elim exec_meta.experiments [
          | [] ↦ infer_experiments_from_spec A (text suite_id) run_summary suite_specs
          | e ∷ es ↦ convert id_text (e ∷ es) >>= λ ids. ok (sorted_set ids)
        ]
      ]

  -- What the loop finds out of a file; a file without rows is passed over.
  unfoldable pub run_info :
      Dict (Value F × Value F) (ExecMeta F)
      → Dict (Value F) (SuiteSpec F)
      → MetricsFile F
      → Result (Option RunInfo)
  run_info execution_idx suite_specs file = elim file.raw_rows [
    | [] ↦ ok none
    | first ∷ rows ↦
        id_of "SuiteId" "suite_id" first file.manifest file.suite_folder >>= λ suite_id.
        id_of "RunId" "run_id" first file.manifest file.run_folder >>= λ run_id.
        id_of "BenchmarkVersion" "benchmark_version" first file.manifest (codes "unknown")
        >>= λ version.
            let found = cell "SchemaVersion" first in
            summary_of file.manifest (first ∷ rows) >>= λ run_summary.
            run_experiments execution_idx suite_specs suite_id run_id run_summary >>= λ ids. ok (
              some record {
                benchmark_version = version;
                schema_version =
                    if full_cell found then shown (default_to found none) else codes "metrics.v2";
                suite_id = suite_id;
                run_id = run_id;
                source_file = file.source;
                experiment_ids = ids;
              })
  ]
