-- ===== src/Tests/Suite.antt =====
-- Tests of the suite runner, and its theorems at the sample suite.
use scheduler_simulator.Prelude.{
  ℕ, ◌≡◌, ◌≢◌, true, false, none, List, [], ◌∷◌, map, refl, codes, ℤ, pos, ◌+ℤ◌, arith, any,
}
use scheduler_simulator.Python.{Result, ok, err, Value, text, bool}
use scheduler_simulator.Suite.Sanitize.{sanitize_id}
use scheduler_simulator.Suite.Sanitize.Words.{words, words_from, words-sanitize_id}
use scheduler_simulator.Suite.Plan.{Entry, same_key}
use scheduler_simulator.Suite.Plan.Numbering.{
  build_run_plan-seed, build_run_plan-run_id, build_run_plan-artifact_dir,
}
use scheduler_simulator.Suite.Plan.Dedupe.{build_run_plan-distinct}
use scheduler_simulator.Suite.Experiments.{has_id, pick_experiments}
use scheduler_simulator.Suite.Experiments.Picked.{pick_experiments-found}
use scheduler_simulator.Suite.Command.{build_command, balancer_options}
use scheduler_simulator.Suite.Command.Options.{Describes, build_command-Describes}
use scheduler_simulator.Suite.Execute.{
  ExecuteArgs, Summary, execute_plan, run_cases, settle, count_status,
}
use scheduler_simulator.Suite.Execute.Outcome.{IsAccount, execute_plan-IsAccount}
use scheduler_simulator.Suite.Sanitize.Shape.{IsClean, sanitize_id-IsClean}
use scheduler_simulator.Tests.Samples.{
  program, plan, planned, whole, args, suite, exps, exp2, case_at, at_0, at_1,
}

plan-run_ids :
    map (λ e. e.run_id) plan
    ≡ codes "my-suite-001-desktop-1c-n50-t1000-sq"
      ∷ codes "my-suite-002-google-2c-n50-t1000-sq"
      ∷ codes "my-suite-003-server-4c-n50-t1000-rr-ws-off"
      ∷ []
unfolding program plan
plan-run_ids = refl

sanitize_tests :
    (sanitize_id (codes "  a//b--c ") ≡ codes "a-b-c") × (sanitize_id (codes "-!-") ≡ codes "id")
unfolding program
sanitize_tests = (refl, refl)

build_run_plan-seed_example : ((case_at 1).case_index ≡ 2) × ((case_at 1).seed ≡ pos 7 +ℤ pos 2000)
build_run_plan-seed_example = build_run_plan-seed whole args exps plan 1 (case_at 1) planned at_1

build_run_plan-run_id_example : ◌≡◌ {A = ℕ} 1 1
build_run_plan-run_id_example =
    build_run_plan-run_id whole args exps plan 1 1 (case_at 1) (case_at 1) planned at_1 at_1 refl

build_run_plan-artifact_dir_example : ◌≡◌ {A = ℕ} 1 1
build_run_plan-artifact_dir_example =
    build_run_plan-artifact_dir whole args exps plan 1 1 (case_at 1) (case_at 1) planned at_1 at_1
      refl

build_run_plan-distinct_example : same_key whole (case_at 0).key (case_at 1).key ≡ false
build_run_plan-distinct_example =
    build_run_plan-distinct whole args refl exps plan 0 1 (case_at 0) (case_at 1) planned
      (omega arith) at_0 at_1

abbrev picked : List (Value ℤ)
picked = exp2 ∷ []

pick-exp2 : pick_experiments exps (codes " exp2, ") ≡ ok picked
unfolding program
pick-exp2 = refl

pick_experiments-found_example : any (has_id (codes "exp2")) picked ≡ true
unfolding program
pick_experiments-found_example =
    pick_experiments-found exps (codes " exp2, ") picked (codes "exp2") pick-exp2 refl refl

words-sanitize_id_example : words (sanitize_id (codes "a/b")) ≡ words (codes "a/b")
unfolding program words words_from
words-sanitize_id_example = words-sanitize_id (codes "a/b") (λ e. cc)

-- The first process fails.
abbrev execute_args : ExecuteArgs ℤ
execute_args = record {
  suite = suite;
  bin_path = codes "/bin/sim";
  runs_dir = codes "/runs";
  dry_run = false;
  continue_on_error = false;
  return_code = λ idx cmd. pos 1;
  relative_path = λ path. ok path;
}

-- Two cases, the second of which is not reached.
abbrev pub literal_case : ℕ → Entry ℤ
literal_case n = record {
  case_index = n;
  experiments = [];
  exp_run_index = 1;
  key = record {
    workload_cli = codes "google";
    scheduler_cli = codes "all";
    cores = pos 2;
    num_tasks = pos 50;
    stop_time = pos 1000;
    topology = text (codes "mq");
    balancer = text (codes "rr");
    work_stealing = bool false;
  };
  workload_key = codes "google";
  scheduler_key = codes "all";
  run_id = codes "id";
  seed = pos 7;
  replications = pos 1;
  artifact_dir = codes "/runs/id";
}

abbrev two_cases : List (Entry ℤ)
two_cases = literal_case 1 ∷ literal_case 2 ∷ []

abbrev no_summary : Summary ℤ
no_summary = record {
  suite_id = Value.null;
  benchmark_version = Value.null;
  binary = [];
  dry_run = false;
  total_cases = 0;
  executed = record { cases = []; stopped_early = none };
  passed_count = 0;
  failed_count = 0;
  planned_count = 0;
}

abbrev summary_of : Result (Summary ℤ) → Summary ℤ
summary_of (ok s) = s
summary_of (err e) = no_summary

unfoldable summary : Summary ℤ
summary = summary_of (execute_plan whole execute_args two_cases)

executed_two : execute_plan whole execute_args two_cases ≡ ok summary
unfolding program summary execute_plan run_cases settle count_status build_command balancer_options
executed_two = refl

execute_plan-IsAccount_example : IsAccount whole execute_args 2 summary
execute_plan-IsAccount_example =
    execute_plan-IsAccount whole execute_args two_cases summary executed_two

abbrev command_of : Result (List (Value ℤ)) → List (Value ℤ)
command_of (ok l) = l
command_of (err e) = []

unfoldable command : List (Value ℤ)
command = command_of (build_command whole (codes "/bin/sim") suite (literal_case 1))

command_built : build_command whole (codes "/bin/sim") suite (literal_case 1) ≡ ok command
unfolding program command build_command balancer_options
command_built = refl

build_command-Describes_example : Describes whole suite (literal_case 1) command
build_command-Describes_example =
    build_command-Describes whole (codes "/bin/sim") suite (literal_case 1) command command_built

sanitize_id-IsClean_example :
    IsClean (sanitize_id (codes "a//b")) × (sanitize_id (codes "a//b") ≢ [])
sanitize_id-IsClean_example = sanitize_id-IsClean (codes "a//b")
