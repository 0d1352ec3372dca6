-- ===== src/Tests/Running.antt =====
-- A dry run of `main` at a suite with two experiments.
use scheduler_simulator.Prelude.{
  ◌≡◌, refl, true, false, none, some, [], ℤ, pos, ◌≤ℤ◌, codes, get_elem?,
}
use scheduler_simulator.Python.{ok}
use scheduler_simulator.Plugins.Loader.{
  FileSystem, build_plugin_registry, register_files, discover_python_files, split_plugin_paths,
}
use scheduler_simulator.Suite.Plan.{Entry}
use scheduler_simulator.Suite.Command.{build_command, balancer_options}
use scheduler_simulator.Suite.Execute.{execute_plan, run_cases, settle, count_status}
use scheduler_simulator.Suite.Main.{
  Options, World, Outcome, load_suite, scheduler_name, number_or_default, run_plan, main,
}
use scheduler_simulator.Suite.Main.Finished.{IsComplete, main-IsComplete, main-seeds}
use scheduler_simulator.Tests.Samples.{program, whole, suite}

abbrev options : Options
options = record {
  bin_path = codes "/bin/sim";
  runs_dir = codes "/runs";
  only_experiments = codes "exp1";
  scheduler = [];
  replications = none;
  seed_base = some (pos 3);
  no_dedupe = false;
  dry_run = false;
  continue_on_error = false;
  generate_manifests = false;
  clean_suite_dir = true;
  plugins = [];
}

abbrev no_files : FileSystem
no_files = record {
  is_file = λ path. false;
  is_dir = λ path. false;
  suffix = λ path. [];
  name = λ path. [];
  python_files = λ path. [];
  resolve_path = λ path. path;
}

-- Each process succeeds.
abbrev world : World ℤ
world = record {
  bin_exists = true;
  suite_file = some (ok suite);
  load = λ f. none;
  files = no_files;
  local_dir = none;
  dir_exists = λ path. true;
  return_code = λ idx cmd. pos 0;
  relative_path = λ path. ok path;
}

ran :
    (out : Outcome ℤ) × (main whole options world ≡ ok out)
    × (out.exit_failed ≡ false)
    × (e : Entry ℤ) × (get_elem? out.plan 1 ≡ some e)
unfolding program main load_suite scheduler_name number_or_default run_plan build_plugin_registry
    register_files discover_python_files split_plugin_paths execute_plan run_cases settle
    count_status build_command balancer_options
ran = (_, refl, refl, _, refl)

main-IsComplete_example : IsComplete whole options world ran.0
main-IsComplete_example = main-IsComplete whole options world ran.0 ran.1 ran.2

main-seeds_example : pos 2001 ≤ℤ ran.3.seed
main-seeds_example = main-seeds whole options world ran.0 1 ran.3 ran.1 ran.4
