-- ===== src/Suite/Command.antt =====
-- `build_command` of benchmark/runner/run_suite.py: the command line of one case. Its items are
-- values, since two of them are copied from the suite document as they are.
pub mod Options
use scheduler_simulator.Prelude.{
  ℕ, Bool, true, false, List, [], ◌∷◌, ◌++◌, if◌then◌else◌, Text, String, codes, show_ℤ,
}
use scheduler_simulator.Python.{Result, ok, ◌>>=◌, Value, bool, text, Runtime, index, is_text}
use scheduler_simulator.Suite.Plan.{Entry}

module _ {F : Type 0} where
  abbrev pub word : String → Value F
  word s = text (codes s)

  -- v is False
  abbrev pub is_false : Value F → Bool
  is_false (bool false) = true
  is_false _ = false

  -- The arguments behind `if case["topology"] == "mq"`.
  unfoldable pub balancer_options : Entry F → List (Value F)
  balancer_options e =
      if is_text "mq" e.key.topology
      then word "-b"
        ∷ e.key.balancer
        ∷ (if is_false e.key.work_stealing then word "--no-steal" ∷ [] else [])
      else []

  unfoldable pub build_command :
      Runtime F → (bin_path : Text) → (suite : Value F) → Entry F → Result (List (Value F))
  build_command R bin_path suite e = do
    seconds ← R.truncate e.key.stop_time
    benchmark_version ← index "benchmark_version" suite
    suite_id ← index "suite_id" suite
    ok (
        text bin_path
        ∷ word "-s"
        ∷ text e.key.scheduler_cli
        ∷ word "-w"
        ∷ text e.key.workload_cli
        ∷ word "-c"
        ∷ text (show_ℤ e.key.cores)
        ∷ word "-m"
        ∷ e.key.topology
        ∷ word "-n"
        ∷ text (show_ℤ e.key.num_tasks)
        ∷ word "-t"
        ∷ text (show_ℤ seconds)
        ∷ word "-r"
        ∷ text (show_ℤ e.replications)
        ∷ word "--benchmark-version"
        ∷ benchmark_version
        ∷ word "--suite-id"
        ∷ suite_id
        ∷ word "--run-id"
        ∷ text e.run_id
        ∷ word "--seed"
        ∷ text (show_ℤ e.seed)
        ∷ word "--artifact-dir"
        ∷ text e.artifact_dir
        ∷ balancer_options e)
