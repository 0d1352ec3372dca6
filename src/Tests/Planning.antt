-- ===== src/Tests/Planning.antt =====
-- The plan of the sample suite: it can be made, and it has a case for each run.
use scheduler_simulator.Prelude.{
  ◌≡◌, refl, subst, true, none, some, List, [], ◌∷◌, String, ℤ, codes, get_elem?, String,
}
use scheduler_simulator.Python.{
  ok, ◌>>=◌, Value, Fields, text, dict, end, find_field, default_to, is_hashable, iterate, index,
  Returns, is_some, ok-injective,
}
use scheduler_simulator.Suite.Plan.{RunKey, build_run_plan}
use scheduler_simulator.Suite.Plan.Coverage.{IsCovered, HasRun, build_run_plan-IsCovered}
use scheduler_simulator.Suite.Plan.Steps.{IsKeyOf}
use scheduler_simulator.Suite.Ready.{IsPlain, PlainExperiments, PlainRuns, build_run_plan-Returns}
use scheduler_simulator.Plugins.Registry.{resolve_scheduler, resolve_workload}
use scheduler_simulator.Suite.Validate.{validate_suite}
use scheduler_simulator.Suite.Experiments.{pick_experiments}
use scheduler_simulator.Tests.Samples.{
  program, plan, planned, whole, args, suite, exps, exp2, built_in, run_of, balanced_run,
}

fields_of : Value ℤ → Fields ℤ
fields_of (dict fs) = fs
fields_of _ = end

hashable_field :
    (k : String) (fs : Fields ℤ)
    → is_hashable (default_to (find_field k fs) Value.null) ≡ true
    → (v : Value ℤ) → find_field k fs ≡ some v
    → is_hashable v ≡ true
hashable_field k fs h v e = subst (λ o. is_hashable (default_to o Value.null) ≡ true) e h

abbrev HashableFields : Fields ℤ → Type 0
HashableFields fs =
    (is_hashable (default_to (find_field "topology" fs) Value.null) ≡ true)
    × (is_hashable (default_to (find_field "balancer" fs) Value.null) ≡ true)
    × (is_hashable (default_to (find_field "work_stealing" fs) Value.null) ≡ true)

HashableFields-IsPlain : (fs : Fields ℤ) → HashableFields fs → IsPlain whole fs
HashableFields-IsPlain fs (t, b, w) = record {
  finite = λ v x _ _. (x, refl);
  topology = hashable_field "topology" fs t;
  balancer = hashable_field "balancer" fs b;
  work_stealing = hashable_field "work_stealing" fs w;
}

run-IsPlain :
    (fs : Fields ℤ) → HashableFields fs → (gs : Fields ℤ) → dict fs ≡ dict gs → IsPlain whole gs
unfolding fields_of
run-IsPlain fs h gs e = subst (λ x. IsPlain whole (fields_of x)) e (HashableFields-IsPlain fs h)

-- Two runs that are dictionaries of hashable fields are plain.
two-PlainRuns :
    (fs gs : Fields ℤ)
    → HashableFields fs
    → HashableFields gs
    → (runs : List (Value ℤ)) → ok (dict fs ∷ dict gs ∷ []) ≡ ok runs
    → PlainRuns whole runs
two-PlainRuns fs gs f g runs e =
    subst (PlainRuns whole) (ok-injective e) (run-IsPlain fs f, (run-IsPlain gs g, tt))

exps-plain : PlainExperiments whole exps
unfolding program
exps-plain = (
  λ runs e. two-PlainRuns _ _ (refl, refl, refl) (refl, refl, refl) runs e,
  (λ runs e. two-PlainRuns _ _ (refl, refl, refl) (refl, refl, refl) runs e, tt),
)

suite-accepted : validate_suite whole built_in suite ≡ ok tt
unfolding program
suite-accepted = refl

suite-listed : (index "experiments" suite >>= iterate) ≡ ok exps
unfolding program
suite-listed = refl

suite-named : index "suite_id" suite ≡ ok (text (codes "my suite!"))
unfolding program
suite-named = refl

all-known : is_some (resolve_scheduler built_in (codes "all")) ≡ true
unfolding program
all-known = refl

empty-unknown : resolve_workload built_in [] ≡ none
unfolding program
empty-unknown = refl

all-picked : pick_experiments exps [] ≡ ok exps
unfolding program
all-picked = refl

build_run_plan-Returns_example : Returns (build_run_plan whole args exps)
build_run_plan-Returns_example =
    build_run_plan-Returns whole args (codes "my suite!") suite-named all-known empty-unknown exps
      exps [] suite-accepted suite-listed exps-plain all-picked

-- The second run of the second experiment.
exp2-has : HasRun exp2 1 (text (codes "exp2")) balanced_run
unfolding program
exp2-has = record {
  id_eq = refl;
  runs = run_of "Desktop" 1 ∷ balanced_run ∷ [];
  runs_eq = refl;
  at = refl;
}

exp2_at_1 : get_elem? exps 1 ≡ some exp2
exp2_at_1 = refl

build_run_plan-IsCovered_example :
    (key : RunKey ℤ) × IsKeyOf whole args balanced_run key
    × IsCovered whole plan (text (codes "exp2")) key
build_run_plan-IsCovered_example =
    build_run_plan-IsCovered whole args exps plan 1 1 exp2 (text (codes "exp2")) balanced_run
      planned exp2_at_1 exp2-has
