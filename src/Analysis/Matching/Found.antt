-- ===== src/Analysis/Matching/Found.antt =====
-- The ids that infer_experiments_from_spec returns (Analysis/Matching).
use scheduler_simulator.Prelude.{
  ◌≡◌, refl, sym, ap, subst, ◌∙◌, ◌↔◌, ◌⊎◌, inl, inr, Bool, true, false, List, [], ◌∷◌, Text,
  text_eq, text_eq→eq, text_eq_refl, contains, contains-sorted_set, Dict, lookup, some, Bool-cases,
  if◌then◌else◌, arith,
}
use scheduler_simulator.Python.{Result, ok, Value, text, same_value, on_ok, ok-injective}
use scheduler_simulator.Analysis.Cells.{Floats}
use scheduler_simulator.Analysis.SuiteSpecs.{RunDef, SuiteSpec}
use scheduler_simulator.Analysis.Matching.{
  convert, run_def_matches_summary, some_run_matches, matched_ids, id_text,
  infer_experiments_from_spec,
}

id_text-eq-ok : {F : Type 0} (v : Value F) (t : Text) → id_text v ≡ ok t → v ≡ text t
unfolding id_text
id_text-eq-ok (text s) t h = ap text (ok-injective h)
id_text-eq-ok _ t h = absurd (cc)

module _ {F : Type 0} (A : Floats F) (run_summary : Value F) where
  -- One of the runs matches the summary.
  abbrev pub HasMatch : List (RunDef F) → Type 0
  HasMatch [] = ⊥
  HasMatch (r ∷ rs) = (run_def_matches_summary A r run_summary ≡ ok true) ⊎ HasMatch rs

  -- An experiment of the suite has the id and a run that matches.
  abbrev pub IsMatched : Text → SuiteSpec F → Type 0
  IsMatched x [] = ⊥
  IsMatched x ((exp_id, runs) ∷ exps) = ((exp_id ≡ text x) × HasMatch runs) ⊎ IsMatched x exps

  some_run_matches-HasMatch :
      (rs : List (RunDef F)) (hit : Bool)
      → some_run_matches A rs run_summary ≡ ok hit
      → (hit ≡ true) ↔ HasMatch rs
  unfolding some_run_matches
  some_run_matches-HasMatch [] hit h = (λ t. absurd (cc), λ e. absurd e)
  some_run_matches-HasMatch (r ∷ rs) hit h =
      on_ok (run_def_matches_summary A r run_summary) _ h
        λ b e g. by_first r rs hit (some_run_matches-HasMatch rs hit) b e g
    where
      by_first :
          (r : RunDef F) (rs : List (RunDef F)) (hit : Bool)
          → (some_run_matches A rs run_summary ≡ ok hit → (hit ≡ true) ↔ HasMatch rs)
          → (b : Bool) → run_def_matches_summary A r run_summary ≡ ok b
          → elim b as (λ _. Result Bool) [
            | true ↦ ok true
            | false ↦ some_run_matches A rs run_summary
          ]
            ≡ ok hit
          → (hit ≡ true) ↔ HasMatch (r ∷ rs)
      by_first r rs hit later true e g = (λ t. inl e, λ m. sym (ok-injective g))
      by_first r rs hit later false e g =
          let (down, up) = later g in
          (λ t. inr (down t), λ m. elim m [ inl now ↦ absurd (cc) | inr rest ↦ up rest ])

  matched_ids-IsMatched :
      (x : Text) (suite : SuiteSpec F) (matched : List (Value F)) (ids : List Text)
      → matched_ids A suite run_summary ≡ ok matched
      → convert id_text matched ≡ ok ids
      → (contains ids x ≡ true) ↔ IsMatched x suite
  unfolding matched_ids convert id_text
  matched_ids-IsMatched x [] matched ids h g =
      let none_found : [] ≡ matched = ok-injective h in
      let none_left : [] ≡ ids = ok-injective (ap (convert id_text) none_found ∙ g) in
      (λ t. absurd (cc), λ m. absurd m)
  matched_ids-IsMatched x ((exp_id, runs) ∷ exps) matched ids h g =
      on_ok (some_run_matches A runs run_summary) _ h λ hit e1 h1.
        on_ok (matched_ids A exps run_summary) _ h1 λ found e2 h2.
          let (down, up) = some_run_matches-HasMatch runs hit e1 in
          by_hit x exp_id runs exps matched ids hit found (some_run_matches-HasMatch runs hit e1)
            (λ l. matched_ids-IsMatched x exps found l e2) (ok-injective h2) g
    where
      by_hit :
          (x : Text) (exp_id : Value F) (runs : List (RunDef F)) (exps : SuiteSpec F)
          (matched : List (Value F)) (ids : List Text) (hit : Bool) (found : List (Value F))
          → ((hit ≡ true) ↔ HasMatch runs)
          → ((l : List Text)
              → convert id_text found ≡ ok l
              → (contains l x ≡ true) ↔ IsMatched x exps)
          → (if hit then exp_id ∷ found else found) ≡ matched
          → convert id_text matched ≡ ok ids
          → (contains ids x ≡ true) ↔ IsMatched x ((exp_id, runs) ∷ exps)
      by_hit x exp_id runs exps matched ids true found (down, up) rest same g =
          on_ok (id_text exp_id) _ (ap (convert id_text) same ∙ g) λ t e1 h1.
            on_ok (convert id_text found) _ h1 λ l e2 h2.
              let (d, u) = rest l e2 in
              let all : t ∷ l ≡ ids = ok-injective h2 in
              (
                λ c. elim (Bool-cases (text_eq x t)) [
                  | inl here ↦
                      inl
                        (id_text-eq-ok exp_id t e1 ∙ ap text (sym (text_eq→eq x t here)), down refl)
                  | inr other ↦
                      let c' : contains (t ∷ l) x ≡ true =
                        subst (λ is. contains is x ≡ true) (sym all) c in
                      inr (d (ground arith))
                ],
                λ m.
                    subst (λ is. contains is x ≡ true) all
                      (elim m [
                        | inl (p, _) ↦
                            let same_id : x ≡ t = ok-injective (sym (ap id_text p) ∙ e1) in
                            rw (sym same_id, text_eq_refl x) refl
                        | inr later ↦ ground (arith, u later)
                      ]),
              )
      by_hit x exp_id runs exps matched ids false found (down, up) rest same g =
          let (d, u) = rest ids (ap (convert id_text) same ∙ g) in
          (
            λ t. inr (d t),
            λ m. elim m [
              | inl (_, now) ↦ let clash : false ≡ true = up now in absurd (cc)
              | inr later ↦ u later
            ],
          )

  -- If the experiments of a run are inferred, an id is among them exactly if an experiment of the
  -- suite has that id and a run that matches the summary.
  pub infer_experiments_from_spec-IsMatched :
      (suite_id : Value F) (specs : Dict (Value F) (SuiteSpec F)) (suite : SuiteSpec F)
      (ids : List Text) (x : Text)
      → lookup (same_value A.runtime) suite_id specs ≡ some suite
      → infer_experiments_from_spec A suite_id run_summary specs ≡ ok ids
      → (contains ids x ≡ true) ↔ IsMatched x suite
  unfolding infer_experiments_from_spec
  infer_experiments_from_spec-IsMatched suite_id specs suite ids x known h =
      on_ok (matched_ids A suite run_summary) _ (rw (known, infer_experiments_from_spec) at h)
        λ matched e1 h1. on_ok (convert id_text matched) _ h1 λ found e2 h2.
          subst (λ is. (contains is x ≡ true) ↔ IsMatched x suite) (ok-injective h2)
            (subst (λ b. (b ≡ true) ↔ IsMatched x suite) (sym (contains-sorted_set x found))
              (matched_ids-IsMatched x suite matched found e1 e2))
