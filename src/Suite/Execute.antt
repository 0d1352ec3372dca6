-- ===== src/Suite/Execute.antt =====
-- `execute_plan` of benchmark/runner/run_suite.py. The processes that it starts are a parameter: the
-- return code of the command of the case at a position. Printing and log files are left out.
pub mod Outcome
use scheduler_simulator.Prelude.{
  ℕ, suc, ◌+◌, Bool, true, false, not, ◌&&◌, Option, none, some, List, [], ◌∷◌, ◌++◌, if◌then◌else◌,
  Text, ℤ, pos, eq_ℤ, codes, length,
}
use scheduler_simulator.Python.{
  Result, ok, err, ◌>>=◌, ◌>>◌, check, type_error, Value, text, Runtime, index,
}
use scheduler_simulator.Suite.Plan.{Entry, join_path}
use scheduler_simulator.Suite.Command.{build_command}

-- "planned", "ok" and "failed".
pub data Status : Type 0 where
  planned passed failed : Status

pub record CaseResult (F : Type 0) : Type 0 where
  pub case_index : ℕ
  pub run_id : Text
  pub experiments : List (Value F)
  pub command : List (Value F)
  pub log_path : Text
  pub status : Status
  pub return_code : Option ℤ

-- What the loop leaves: the results, and where it stopped early.
pub record Executed (F : Type 0) : Type 0 where
  pub cases : List (CaseResult F)
  pub stopped_early : Option (ℕ × Text)

pub record Summary (F : Type 0) : Type 0 where
  pub suite_id : Value F
  pub benchmark_version : Value F
  pub binary : Text
  pub dry_run : Bool
  pub total_cases : ℕ
  pub executed : Executed F
  pub passed_count : ℕ
  pub failed_count : ℕ
  pub planned_count : ℕ

abbrev pub is_planned : Status → Bool
is_planned planned = true
is_planned _ = false

abbrev pub is_passed : Status → Bool
is_passed passed = true
is_passed _ = false

abbrev pub is_failed : Status → Bool
is_failed failed = true
is_failed _ = false

module _ {F : Type 0} where
  unfoldable pub count_status : (Status → Bool) → List (CaseResult F) → ℕ
  count_status p [] = 0
  count_status p (c ∷ cs) = if p c.status then suc (count_status p cs) else count_status p cs

  abbrev pub all_text : List (Value F) → Bool
  all_text [] = true
  all_text (text t ∷ vs) = all_text vs
  all_text (_ ∷ vs) = false

-- The arguments of `execute_plan`, the environment among them.
pub record ExecuteArgs (F : Type 0) : Type 0 where
  pub suite : Value F
  pub bin_path : Text
  pub runs_dir : Text
  pub dry_run : Bool
  pub continue_on_error : Bool
  -- subprocess.run(cmd).returncode for the case at a position, from 1 on
  pub return_code : ℕ → List (Value F) → ℤ
  -- str(log_path.relative_to(ROOT_DIR)), which raises for a path outside the repository
  pub relative_path : Text → Result Text

module _ {F : Type 0} (R : Runtime F) (args : ExecuteArgs F) where
  open args use {suite, bin_path, runs_dir, dry_run, continue_on_error, return_code, relative_path}

  -- case_result as it is appended to the summary.
  abbrev pub case_result : Entry F → List (Value F) → Text → Status → Option ℤ → CaseResult F
  case_result e cmd log_path status code = record {
    case_index = e.case_index;
    run_id = e.run_id;
    experiments = e.experiments;
    command = cmd;
    log_path = log_path;
    status = status;
    return_code = code;
  }

  abbrev pub prepend : CaseResult F → Executed F → Executed F
  prepend c x = record x { cases = c ∷ x.cases }

  -- The end of the loop body: the status of the case, and the `break`.
  unfoldable pub settle :
      (idx : ℕ)
      → Entry F
      → List (Value F)
      → Text
      → (rest : Result (Executed F)) → Result (Executed F)
  settle idx e cmd log_path rest =
      let code = return_code idx cmd in
      if dry_run
      then (do x ← rest; ok (prepend (case_result e cmd log_path planned none) x))
      else if eq_ℤ code (pos 0)
      then (do x ← rest; ok (prepend (case_result e cmd log_path passed (some code)) x))
      else if continue_on_error
      then (do x ← rest; ok (prepend (case_result e cmd log_path failed (some code)) x))
      else ok (record {
        cases = case_result e cmd log_path failed (some code) ∷ [];
        stopped_early = some (idx, e.run_id);
      })

  -- logs_dir / f"{case['run_id']}.log"
  abbrev pub log_file : Entry F → Text
  log_file e =
      join_path (join_path (join_path runs_dir (codes "logs")) (codes "suite_runner"))
        (e.run_id ++ codes ".log")

  -- for idx, case in enumerate(plan, start=1); joining the command for display needs texts
  unfoldable pub run_cases : (idx : ℕ) → List (Entry F) → Result (Executed F)
  run_cases idx [] = ok (record { cases = []; stopped_early = none })
  run_cases idx (e ∷ plan) =
      let rest = run_cases (suc idx) plan in
      do
        cmd ← build_command R bin_path suite e
        check (all_text cmd) type_error
        log_path ← relative_path (log_file e)
        settle idx e cmd log_path rest

  unfoldable pub execute_plan : List (Entry F) → Result (Summary F)
  execute_plan plan = do
    suite_id ← index "suite_id" suite
    benchmark_version ← index "benchmark_version" suite
    x ← run_cases 1 plan
    ok (record {
      suite_id = suite_id;
      benchmark_version = benchmark_version;
      binary = bin_path;
      dry_run = dry_run;
      total_cases = length plan;
      executed = x;
      passed_count = count_status is_passed x.cases;
      failed_count = count_status is_failed x.cases;
      planned_count = count_status is_planned x.cases;
    })
