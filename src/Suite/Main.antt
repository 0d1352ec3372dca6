-- ===== src/Suite/Main.antt =====
-- benchmark/runner/run_suite.py: `main`, with `load_suite`. Command line arguments, files and
-- processes are parameters; the messages are left out.
pub mod Finished
use scheduler_simulator.Prelude.{
  ◌≡◌, Bool, true, false, not, ◌&&◌, Option, none, some, List, [], ◌∷◌, ◌++◌, if◌then◌else◌, Text,
  String, ℕ, ℤ, pos, leb_ℤ, ltb, codes,
}
use scheduler_simulator.Python.{
  Exception, Result, ok, err, ◌>>=◌, ◌>>◌, check, require, value_error, system_exit, Value, Runtime,
  index, iterate, to_int, to_text, default_to,
}
use scheduler_simulator.Plugins.Table.{Plugin}
use scheduler_simulator.Plugins.Registry.{Registry, resolve_scheduler}
use scheduler_simulator.Plugins.Loader.{Load, Loaded, LoadError, FileSystem, build_plugin_registry}
use scheduler_simulator.Suite.Validate.{validate_suite}
use scheduler_simulator.Suite.Experiments.{pick_experiments}
use scheduler_simulator.Suite.Plan.{Entry, PlanArgs, join_path, suite_dir, build_run_plan}
use scheduler_simulator.Suite.Execute.{ExecuteArgs, Summary, execute_plan}

-- The arguments, after `parse_args`; those with no default are optional.
pub record Options : Type 0 where
  pub bin_path : Text
  pub runs_dir : Text
  pub only_experiments : Text
  pub scheduler : Text
  pub replications : Option ℤ
  pub seed_base : Option ℤ
  pub no_dedupe : Bool
  pub dry_run : Bool
  pub continue_on_error : Bool
  pub generate_manifests : Bool
  pub clean_suite_dir : Bool
  pub plugins : Text

-- What `main` finds outside the program.
pub record World (F : Type 0) : Type 0 where
  pub bin_exists : Bool
  -- The suite file, if it exists; json.load raises a ValueError for what is not JSON.
  pub suite_file : Option (Result (Value F))
  pub load : Load
  pub files : FileSystem
  pub local_dir : Option Text
  pub dir_exists : Text → Bool
  pub return_code : ℕ → List (Value F) → ℤ
  pub relative_path : Text → Result Text

-- What `main` has done when it reaches its last statement.
pub record Outcome (F : Type 0) : Type 0 where
  pub plan : List (Entry F)
  pub removed_dir : Option Text
  pub summary : Summary F
  pub summary_path : Text
  pub manifests : Bool
  -- raise SystemExit(1)
  pub exit_failed : Bool

module _ {F : Type 0} (R : Runtime F) where
  unfoldable pub load_suite : Option (Result (Value F)) → Registry → Result (Value F)
  load_suite file registry = do
    read ← require system_exit file
    doc ← read
    validate_suite R registry doc
    ok doc

  -- The registry; a `LoadError` is a ValueError.
  abbrev pub loaded_registry : Loaded → Result Registry
  loaded_registry l = elim l.raised [ none ↦ ok l.registry | some e ↦ err value_error ]

  -- args.scheduler or suite["defaults"]["scheduler"]
  unfoldable pub scheduler_name : Text → Value F → Result (Value F)
  scheduler_name [] suite = index "defaults" suite >>= index "scheduler"
  scheduler_name (c ∷ s) suite = ok (Value.text (c ∷ s))

  -- args.x if args.x is not None else int(suite["defaults"]["x"])
  unfoldable pub number_or_default : Option ℤ → String → Value F → Result ℤ
  number_or_default (some n) k suite = ok n
  number_or_default none k suite = index "defaults" suite >>= index k >>= to_int R

  abbrev pub is_cons : List (Entry F) → Bool
  is_cons [] = false
  is_cons (e ∷ plan) = true

  module _ (options : Options) (world : World F) where
    open options use {
      bin_path, runs_dir, only_experiments, scheduler, replications, seed_base, no_dedupe, dry_run,
      continue_on_error, generate_manifests, clean_suite_dir, plugins,
    }
    open world use {
      bin_exists, suite_file, load, files, local_dir, dir_exists, return_code, relative_path,
    }

    abbrev pub plan_args : Value F → Registry → (scheduler_key : Text) → (r s : ℤ) → PlanArgs F
    plan_args suite registry scheduler_key r s = record {
      suite = suite;
      dedupe = not no_dedupe;
      scheduler_key = scheduler_key;
      replications = r;
      seed_base = s;
      runs_dir = runs_dir;
      registry = registry;
    }

    abbrev pub execute_args : Value F → ExecuteArgs F
    execute_args suite = record {
      suite = suite;
      bin_path = bin_path;
      runs_dir = runs_dir;
      dry_run = dry_run;
      continue_on_error = continue_on_error;
      return_code = return_code;
      relative_path = relative_path;
    }

    -- From the plan to the end: the clean-up, the execution and the summary file.
    unfoldable pub run_plan : Value F → List (Entry F) → Result (Outcome F)
    run_plan suite plan = do
      check (is_cons plan) system_exit
      dir ← index "suite_id" suite >>= suite_dir
      summary ← execute_plan R (execute_args suite) plan
      let output_dir = join_path runs_dir dir
      let clean = clean_suite_dir && dir_exists output_dir && not dry_run
      ok (record {
        plan = plan;
        removed_dir = if clean then some output_dir else none;
        summary = summary;
        summary_path =
            join_path (join_path runs_dir (codes "manifests"))
              (dir ++ codes ".execution_summary.json");
        manifests = generate_manifests && not dry_run;
        exit_failed = ltb 0 summary.failed_count;
      })

    unfoldable pub main : Result (Outcome F)
    main = do
      check bin_exists system_exit
      registry ← loaded_registry (build_plugin_registry load files local_dir plugins)
      suite ← load_suite suite_file registry
      exps ← index "experiments" suite >>= iterate
      selected ← pick_experiments exps only_experiments
      name ← scheduler_name scheduler suite
      plugin ← require system_exit (resolve_scheduler registry (to_text R name))
      r ← number_or_default replications "replications" suite
      s ← number_or_default seed_base "seed_base" suite
      check (leb_ℤ (pos 1) r) system_exit
      check (leb_ℤ (pos 1) s) system_exit
      plan ← build_run_plan R (plan_args suite registry plugin.key r s) selected
      run_plan suite plan
