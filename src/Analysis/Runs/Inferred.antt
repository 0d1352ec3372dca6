-- ===== src/Analysis/Runs/Inferred.antt =====
-- The experiments that are inferred from the summary of the lines of a run (Analysis/Runs).
use scheduler_simulator.Prelude.{
  ◌≡◌, refl, ◌↔◌, Bool, true, false, Bool-cases, inl, inr, All, List, [], ◌∷◌, Text, contains, Dict,
  lookup, some, if◌then◌else◌, ◌&&◌, any, map, ℤ, String, sorted_set, eq_ℤ,
}
use scheduler_simulator.Python.{
  Result, ok, type_error, Value, text, int, float, list, to_list, is_text, is_hashable, same_value,
  to_int, to_float, member_of, get_or, Returns, Returns-bind, Returns-check, check,
}
use scheduler_simulator.Analysis.Cells.{
  Floats, CsvRow, cell, approx_eq, to_int as to_whole, to_float as to_number,
}
use scheduler_simulator.Analysis.SuiteSpecs.{RunDef, SuiteSpec}
use scheduler_simulator.Analysis.Matching.{
  convert, as_values, normalize_summary_values, SummarySets, distinct_values, summary_sets,
  workload_matches, topology_matches, sets_match, run_def_matches_summary, some_run_matches,
  matched_ids, id_text, infer_experiments_from_spec, lower_text,
}
use scheduler_simulator.Analysis.Matching.Found.{IsMatched, infer_experiments_from_spec-IsMatched}
use scheduler_simulator.Analysis.Runs.{summarize_run_rows, int_list, sorted_ints}
use scheduler_simulator.Manifests.{text_items, number_list, present_texts, sorted_numbers}

module _ {F : Type 0} where
  -- An experiment with an id that is a text, and whose runs have a topology and a balancer that can
  -- be looked for in a set.
  pub record IsListed (e : Value F × List (RunDef F)) : Type 0 where
    pub id : Text
    pub id_eq : e.0 ≡ text id
    pub hashable : All (λ r. (is_hashable r.topology ≡ true) × (is_hashable r.balancer ≡ true)) e.1

  convert-Returns :
      {B : Type 0} (f : Value F → Result B) (vs : List (Value F))
      → All (λ v. Returns (f v)) vs
      → Returns (convert f vs)
  unfolding convert
  convert-Returns f [] h = ([], refl)
  convert-Returns f (v ∷ vs) (h, hs) =
      Returns-bind (f v) _ h
        λ b _. Returns-bind (convert f vs) _ (convert-Returns f vs hs) λ bs _. (_, refl)

  member_of-Returns :
      (ts : List Text) (v : Value F) → is_hashable v ≡ true → Returns (member_of ts v)
  unfolding member_of
  member_of-Returns ts (list vs) h = absurd (cc)
  member_of-Returns ts (Value.dict fs) h = absurd (cc)
  member_of-Returns ts _ h = (_, refl)

  texts-All :
      (P : Value F → Type 0)
      → ((t : Text) → P (text t))
      → (ts : List Text) → All P (to_list (text_items ts))
  texts-All P h [] = tt
  texts-All P h (t ∷ ts) = (h t, texts-All P h ts)

  ints-All :
      (P : Value F → Type 0) → ((n : ℤ) → P (int n)) → (ns : List ℤ) → All P (to_list (int_list ns))
  ints-All P h [] = tt
  ints-All P h (n ∷ ns) = (h n, ints-All P h ns)

  numbers-All :
      (P : Value F → Type 0)
      → ((x : F) → P (float x))
      → (xs : List F) → All P (to_list (number_list xs))
  numbers-All P h [] = tt
  numbers-All P h (x ∷ xs) = (h x, numbers-All P h xs)

module _ {F : Type 0} (A : Floats F) where
  distinct_values-Returns :
      (vs : List (Value F)) → All (λ v. is_hashable v ≡ true) vs → Returns (distinct_values A vs)
  unfolding distinct_values
  distinct_values-Returns [] h = ([], refl)
  distinct_values-Returns (v ∷ vs) (h, hs) =
      Returns-bind (check (is_hashable v) type_error) _ (Returns-check (is_hashable v) type_error h)
        λ _ _.
          Returns-bind (distinct_values A vs) _ (distinct_values-Returns vs hs) λ ws _. (_, refl)

  topology_matches-Returns :
      (r : RunDef F) (s : SummarySets F)
      → is_hashable r.topology ≡ true
      → is_hashable r.balancer ≡ true
      → Returns (topology_matches r s)
  unfolding topology_matches
  topology_matches-Returns r s h g =
      Returns-bind (member_of s.topologies r.topology) _
        (member_of-Returns s.topologies r.topology h)
        λ known _. elim (Bool-cases (known && is_text "mq" r.topology)) [
          | inl mq ↦ rw mq (
              Returns-bind (member_of s.balancers r.balancer) _
                (member_of-Returns s.balancers r.balancer g) λ b _. (_, refl))
          | inr other ↦ rw other (_, refl)
        ]

  ints_converted : (ns : List ℤ) → Returns (convert (to_int A.runtime) (to_list (int_list ns)))
  unfolding to_int
  ints_converted ns =
      convert-Returns (to_int A.runtime) (to_list (int_list ns))
        (ints-All (λ v. Returns (to_int A.runtime v)) (λ n. (n, refl)) ns)

  floats_converted :
      (xs : List F) → Returns (convert (to_float A.runtime) (to_list (number_list xs)))
  unfolding to_float
  floats_converted xs =
      convert-Returns (to_float A.runtime) (to_list (number_list xs))
        (numbers-All (λ v. Returns (to_float A.runtime v)) (λ x. (x, refl)) xs)

  texts_converted : (ts : List Text) → Returns (convert (lower_text A) (to_list (text_items ts)))
  texts_converted ts =
      convert-Returns (lower_text A) (to_list (text_items ts))
        (texts-All (λ v. Returns (lower_text A v)) (λ t. (_, refl)) ts)

  summary_sets-Returns : (rows : List CsvRow) → Returns (summary_sets A (summarize_run_rows A rows))
  unfolding summary_sets summarize_run_rows normalize_summary_values get_or as_values
  summary_sets-Returns rows =
      let (_, p1) =
        distinct_values-Returns (to_list (text_items (texts_of "Workload")))
          (texts-All (λ v. is_hashable v ≡ true) (λ t. refl) (texts_of "Workload")) in
      let (_, p2) = ints_converted (ints_of "Cores") in
      let (_, p3) = ints_converted (ints_of "NumTasks") in
      let (_, p4) =
        floats_converted (sorted_numbers A (map (λ r. to_number A (cell "StopTime" r)) rows)) in
      let (_, p5) = texts_converted (texts_of "Topology") in
      let (_, p6) = texts_converted (texts_of "Balancer") in
      let (_, p7) = texts_converted (texts_of "WorkStealing") in
      rw (p1, p2, p3, p4, p5, p6, p7) (_, refl)
    where
      texts_of : String → List Text
      texts_of k = sorted_set (present_texts k rows)

      ints_of : String → List ℤ
      ints_of k = sorted_ints (map (λ r. to_whole A (cell k r)) rows)

  run_def_matches-Returns :
      (rows : List CsvRow) (r : RunDef F)
      → is_hashable r.topology ≡ true
      → is_hashable r.balancer ≡ true
      → Returns (run_def_matches_summary A r (summarize_run_rows A rows))
  unfolding run_def_matches_summary sets_match
  run_def_matches-Returns rows r h g =
      Returns-bind (summary_sets A (summarize_run_rows A rows)) _ (summary_sets-Returns rows) λ s _.
        let tests =
          workload_matches A r.workload s.workloads
          && (any (eq_ℤ r.cores) s.cores
              && (any (eq_ℤ r.num_tasks) s.num_tasks
                  && any (approx_eq A r.stop_time) s.stop_times)) in
        elim (Bool-cases tests) [
          | inl hit ↦ rw hit (topology_matches-Returns r s h g)
          | inr miss ↦ rw miss (_, refl)
        ]

  some_run_matches-Returns :
      (rows : List CsvRow) (rs : List (RunDef F))
      → All (λ r. (is_hashable r.topology ≡ true) × (is_hashable r.balancer ≡ true)) rs
      → Returns (some_run_matches A rs (summarize_run_rows A rows))
  unfolding some_run_matches
  some_run_matches-Returns rows [] h = (_, refl)
  some_run_matches-Returns rows (r ∷ rs) ((h, g), hs) =
      Returns-bind (run_def_matches_summary A r (summarize_run_rows A rows)) _
        (run_def_matches-Returns rows r h g)
        λ hit _. by_first r rs (some_run_matches-Returns rows rs hs) hit
    where
      by_first :
          (r : RunDef F) (rs : List (RunDef F))
          → Returns (some_run_matches A rs (summarize_run_rows A rows))
          → (hit : Bool)
          → Returns (elim hit as (λ _. Result Bool) [
            | true ↦ ok true
            | false ↦ some_run_matches A rs (summarize_run_rows A rows)
          ])
      by_first r rs later true = (_, refl)
      by_first r rs later false = later

  matched_ids-Returns :
      (rows : List CsvRow) (suite : SuiteSpec F)
      → All IsListed suite
      → (matched : List (Value F)) × (matched_ids A suite (summarize_run_rows A rows) ≡ ok matched)
        × All (λ v. Returns (id_text v)) matched
  unfolding matched_ids id_text
  matched_ids-Returns rows [] h = ([], refl, tt)
  matched_ids-Returns rows ((exp_id, runs) ∷ exps) (h, hs) =
      let (hit, p) = some_run_matches-Returns rows runs h.hashable in
      let (ids, q, texts) = matched_ids-Returns rows exps hs in
      let named : Returns (id_text exp_id) = rw (h.id_eq) (h.id, refl) in
      rw (p, q) (with_hit exp_id named ids texts hit)
    where
      with_hit :
          (exp_id : Value F)
          → Returns (id_text exp_id)
          → (ids : List (Value F)) → All (λ v. Returns (id_text v)) ids
          → (hit : Bool)
          → (matched : List (Value F)) × (Result.ok (if hit then exp_id ∷ ids else ids)
              ≡ ok matched)
            × All (λ v. Returns (id_text v)) matched
      with_hit exp_id named ids texts true = (exp_id ∷ ids, refl, (named, texts))
      with_hit exp_id named ids texts false = (ids, refl, texts)

  infer-Returns :
      (rows : List CsvRow) (suite_id : Value F) (specs : Dict (Value F) (SuiteSpec F))
      (suite : SuiteSpec F)
      → lookup (same_value A.runtime) suite_id specs ≡ some suite
      → All IsListed suite
      → Returns (infer_experiments_from_spec A suite_id (summarize_run_rows A rows) specs)
  unfolding infer_experiments_from_spec
  infer-Returns rows suite_id specs suite known listed =
      let (matched, p, texts) = matched_ids-Returns rows suite listed in
      let (_, q) = convert-Returns id_text matched texts in
      rw (known, infer_experiments_from_spec) (rw (p, q) (_, refl))

  -- From the summary of the lines of a run, the experiments are found: no exception is raised, and an
  -- id is found exactly if an experiment of the suite has it and a run that matches. The ids of the
  -- suite are texts, and the topologies and balancers of its runs can be hashed.
  pub infer_experiments_from_spec-summarize_run_rows :
      (rows : List CsvRow) (suite_id : Value F) (specs : Dict (Value F) (SuiteSpec F))
      (suite : SuiteSpec F)
      → lookup (same_value A.runtime) suite_id specs ≡ some suite
      → All IsListed suite
      → (ids : List Text) × (infer_experiments_from_spec A suite_id
            (summarize_run_rows A rows)
            specs
          ≡ ok ids)
        × ((x : Text) → (contains ids x ≡ true) ↔ IsMatched A (summarize_run_rows A rows) x suite)
  infer_experiments_from_spec-summarize_run_rows rows suite_id specs suite known listed =
      let (ids, p) = infer-Returns rows suite_id specs suite known listed in
      (
        ids,
        p,
        λ x.
            infer_experiments_from_spec-IsMatched A (summarize_run_rows A rows) suite_id specs suite
              ids x known p,
      )
