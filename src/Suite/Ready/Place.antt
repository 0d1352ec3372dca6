-- ===== src/Suite/Ready/Place.antt =====
-- Placing a run in the plan (Suite/Plan, place and new_case).
use scheduler_simulator.Prelude.{
  ℕ, ◌≡◌, refl, sym, subst, ◌∙◌, Bool, true, false, Option, none, some, if◌then◌else◌, Text, lookup,
}
use scheduler_simulator.Python.{
  Result, ok, check, type_error, Value, text, Runtime, index, ok-injective, Returns, Returns-bind,
  Returns-check,
}
use scheduler_simulator.Plugins.Table.{Plugin}
use scheduler_simulator.Suite.Plan.{
  RunKey, PlanState, PlanArgs, is_hashable_key, append_at, suite_dir, same_key, new_case, place,
}

module _ {F : Type 0} (R : Runtime F) (args : PlanArgs F) (suite_id : Text)
    (named : index "suite_id" args.suite ≡ ok (text suite_id)) where
  open args use {suite, dedupe}

  new_case-Returns :
      (s : PlanState F) (exp_id : Value F) (i : ℕ) (workload scheduler : Plugin) (key : RunKey F)
      → Returns (R.truncate key.stop_time)
      → is_hashable_key key ≡ true
      → Returns (new_case R args s exp_id i workload scheduler key)
  unfolding new_case
  new_case-Returns s exp_id i workload scheduler key finite hashable =
      Returns-bind (index "suite_id" suite) _ (text suite_id, named)
        λ v e. Returns-bind (R.truncate key.stop_time) _ finite λ seconds _.
          Returns-bind (suite_dir v) _ (is_dir v (ok-injective (sym named ∙ e))) λ dir _.
            Returns-bind (check (is_hashable_key key) type_error) _
              (Returns-check _ type_error hashable) λ _ _. (_, refl)
    where
      is_dir : (v : Value F) → text suite_id ≡ v → Returns (suite_dir v)
      is_dir v p = subst (λ x. Returns (suite_dir x)) p (_, refl)

  pub place-Returns :
      (s : PlanState F) (exp_id : Value F) (i : ℕ) (workload scheduler : Plugin) (key : RunKey F)
      → Returns (R.truncate key.stop_time)
      → is_hashable_key key ≡ true
      → Returns (place R args s exp_id i workload scheduler key)
  unfolding place
  place-Returns s exp_id i workload scheduler key finite hashable =
      either dedupe _ _
        (Returns-bind (check (is_hashable_key key) type_error) _
          (Returns-check _ type_error hashable) λ _ _. found (lookup (same_key R) key s.dedup_map))
        fresh
    where
      fresh : Returns (new_case R args s exp_id i workload scheduler key)
      fresh = new_case-Returns s exp_id i workload scheduler key finite hashable

      either :
          (b : Bool) (x y : Result (PlanState F))
          → Returns x
          → Returns y
          → Returns (if b then x else y)
      either true x y p q = p
      either false x y p q = q

      found :
          (o : Option ℕ)
          → Returns (elim o as (λ _. Result (PlanState F)) [
            | some j ↦ ok (record s { plan = append_at s.plan j exp_id })
            | none ↦ new_case R args s exp_id i workload scheduler key
          ])
      found none = fresh
      found (some j) = (_, refl)
