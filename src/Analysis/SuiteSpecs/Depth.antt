-- ===== src/Analysis/SuiteSpecs/Depth.antt =====
-- Chains and circles of experiments that reuse others (Analysis/SuiteSpecs, resolved_runs).
use scheduler_simulator.Prelude.{
  ◌≡◌, refl, ◌⊎◌, inl, inr, true, false, List, [], ℕ, zero, suc, Dict, lookup, Option-cases,
}
use scheduler_simulator.Python.{
  ok, err, recursion_error, Value, null, dict, end, get_or, is_hashable, truthy, same_value,
  default_to, Returns,
}
use scheduler_simulator.Analysis.Cells.{Floats}
use scheduler_simulator.Analysis.SuiteSpecs.{extended, own_runs, resolved_runs}

module _ {F : Type 0} (A : Floats F) (exp_by_id : Dict (Value F) (Value F)) where
  -- exp_by_id.get(exp_id, {})
  abbrev pub experiment_at : Value F → Value F
  experiment_at exp_id = default_to (lookup (same_value A.runtime) exp_id exp_by_id) (dict end)

  -- The experiment names another one to reuse, for which P holds.
  pub record Reuses (P : Value F → Type 0) (exp_id : Value F) : Type 0 where
    pub hashable : is_hashable exp_id ≡ true
    pub runs : List (Value F)
    pub has_runs : own_runs (experiment_at exp_id) ≡ ok runs
    pub parent : Value F
    pub reads : get_or "reuse_from_experiment" (experiment_at exp_id) null ≡ ok parent
    pub full : truthy A.runtime parent ≡ true
    pub next : P parent

  -- The experiments of a set that is closed under reuse, such as a circle, raise RecursionError,
  -- however many calls are allowed.
  pub resolved_runs-Reuses :
      (P : Value F → Type 0)
      → ((exp_id : Value F) → P exp_id → Reuses P exp_id)
      → (depth : ℕ) (exp_id : Value F) → P exp_id
      → resolved_runs A depth exp_by_id exp_id [] ≡ err recursion_error
  unfolding resolved_runs extended lookup
  resolved_runs-Reuses P closed zero exp_id p = refl
  resolved_runs-Reuses P closed (suc depth) exp_id p =
      let r = closed exp_id p in
      rw (r.hashable, r.has_runs, r.reads)
        (rw (r.full) (rw (resolved_runs-Reuses P closed depth r.parent r.next) refl))

  -- The experiment reuses none.
  pub record IsLast (exp_id : Value F) : Type 0 where
    pub hashable : is_hashable exp_id ≡ true
    pub runs : List (Value F)
    pub has_runs : own_runs (experiment_at exp_id) ≡ ok runs
    pub found : Value F
    pub reads : get_or "reuse_from_experiment" (experiment_at exp_id) null ≡ ok found
    pub empty : truthy A.runtime found ≡ false

  -- The experiments from this one on are at most so many more.
  abbrev pub IsChain : ℕ → Value F → Type 0
  IsChain zero exp_id = IsLast exp_id
  IsChain (suc n) exp_id = IsLast exp_id ⊎ Reuses (IsChain n) exp_id

  resolved_runs-IsLast :
      (depth : ℕ) (exp_id : Value F) (memo : Dict (Value F) (List (Value F)))
      → IsLast exp_id
      → Returns (resolved_runs A (suc depth) exp_by_id exp_id memo)
  unfolding resolved_runs extended
  resolved_runs-IsLast depth exp_id memo r =
      elim (Option-cases (lookup (same_value A.runtime) exp_id memo)) [
        | inl fresh ↦ rw (r.hashable, fresh, r.has_runs, r.reads) (rw (r.empty) (_, refl))
        | inr (runs, seen) ↦ rw (r.hashable, seen) (_, refl)
      ]

  -- A chain of n more experiments is resolved if n + 1 calls are allowed, whatever has been before.
  pub resolved_runs-IsChain :
      (n : ℕ) (exp_id : Value F) (memo : Dict (Value F) (List (Value F)))
      → IsChain n exp_id
      → Returns (resolved_runs A (suc n) exp_by_id exp_id memo)
  unfolding resolved_runs extended
  resolved_runs-IsChain zero exp_id memo r = resolved_runs-IsLast 0 exp_id memo r
  resolved_runs-IsChain (suc n) exp_id memo (inl r) = resolved_runs-IsLast (suc n) exp_id memo r
  resolved_runs-IsChain (suc n) exp_id memo (inr r) =
      elim (Option-cases (lookup (same_value A.runtime) exp_id memo)) [
        | inl fresh ↦
            let ((more, after), deeper) = resolved_runs-IsChain n r.parent memo r.next in
            rw (r.hashable, fresh, r.has_runs, r.reads) (rw (r.full) (rw deeper (_, refl)))
        | inr (runs, seen) ↦ rw (r.hashable, seen) (_, refl)
      ]
