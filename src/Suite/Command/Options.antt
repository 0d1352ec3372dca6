-- ===== src/Suite/Command/Options.antt =====
-- A command line read back as a program reads it: options with their values, and perhaps one flag
-- at the end.
use scheduler_simulator.Prelude.{
  ◌≡◌, refl, subst, inl, inr, ◌&&◌, Option, none, some, List, [], ◌∷◌, if◌then◌else◌, Text, String,
  text_eq, Bool-cases, show_ℤ, ℤ,
}
use scheduler_simulator.Python.{ok, Value, text, Runtime, index, is_text, on_ok, ok-injective}
use scheduler_simulator.Suite.Plan.{Entry}
use scheduler_simulator.Suite.Command.{is_false, word, balancer_options, build_command}

module _ {F : Type 0} where
  -- The value of an option, in a list of options with their values.
  unfoldable pub option_in : String → List (Value F) → Option (Value F)
  option_in name [] = none
  option_in name (flag ∷ []) = none
  option_in name (flag ∷ v ∷ rest) = if is_text name flag then some v else option_in name rest

  -- The flag at the end of such a list.
  unfoldable pub last_flag : List (Value F) → Option (Value F)
  last_flag [] = none
  last_flag (flag ∷ []) = some flag
  last_flag (flag ∷ v ∷ rest) = last_flag rest

  -- The first item is the program.
  abbrev pub option : String → List (Value F) → Option (Value F)
  option name [] = none
  option name (program ∷ rest) = option_in name rest

  abbrev pub flag_of : List (Value F) → Option (Value F)
  flag_of [] = none
  flag_of (program ∷ rest) = last_flag rest

  -- What the command line of a case says: the values of the case, its simulated time as a whole number,
  -- and the suite id and the version of the suite.
  pub record Describes (R : Runtime F) (suite : Value F) (e : Entry F) (cmd : List (Value F))
      : Type 0 where
    pub scheduler : option "-s" cmd ≡ some (text e.key.scheduler_cli)
    pub workload : option "-w" cmd ≡ some (text e.key.workload_cli)
    pub cores : option "-c" cmd ≡ some (text (show_ℤ e.key.cores))
    pub topology : option "-m" cmd ≡ some e.key.topology
    pub num_tasks : option "-n" cmd ≡ some (text (show_ℤ e.key.num_tasks))
    pub replications : option "-r" cmd ≡ some (text (show_ℤ e.replications))
    pub time :
        (seconds : ℤ) × (R.truncate e.key.stop_time ≡ ok seconds)
        × (option "-t" cmd ≡ some (text (show_ℤ seconds)))
    pub suite_id :
        (v : Value F) × (index "suite_id" suite ≡ ok v) × (option "--suite-id" cmd ≡ some v)
    pub benchmark_version :
        (v : Value F) × (index "benchmark_version" suite ≡ ok v)
        × (option "--benchmark-version" cmd ≡ some v)
    pub run_id : option "--run-id" cmd ≡ some (text e.run_id)
    pub seed : option "--seed" cmd ≡ some (text (show_ℤ e.seed))
    pub artifact_dir : option "--artifact-dir" cmd ≡ some (text e.artifact_dir)
    pub balancer :
        option "-b" cmd ≡ (if is_text "mq" e.key.topology then some e.key.balancer else none)
    pub stealing : flag_of cmd ≡ (
        if is_text "mq" e.key.topology && is_false e.key.work_stealing
        then some (word "--no-steal")
        else none)

  balancer-option :
      (e : Entry F)
      → option_in "-b" (balancer_options e)
        ≡ (if is_text "mq" e.key.topology then some e.key.balancer else none)
  unfolding option_in balancer_options text_eq
  balancer-option e = elim (Bool-cases (is_text "mq" e.key.topology)) [
    | inl mq ↦ rw mq refl
    | inr sq ↦ rw sq refl
  ]

  stealing-flag :
      (e : Entry F)
      → last_flag (balancer_options e) ≡ (
          if is_text "mq" e.key.topology && is_false e.key.work_stealing
          then some (word "--no-steal")
          else none)
  unfolding last_flag balancer_options
  stealing-flag e = elim (Bool-cases (is_text "mq" e.key.topology)) [
    | inr sq ↦ rw sq refl
    | inl mq ↦ elim (Bool-cases (is_false e.key.work_stealing)) [
      | inl off ↦ rw (mq, off) refl
      | inr on ↦ rw (mq, on) refl
    ]
  ]

  -- The command line of a case gives each option the value of the case or of the suite, with the
  -- simulated time cut to a whole number of seconds, names a balancer exactly for the topology "mq",
  -- and there ends in --no-steal exactly if work stealing is the value False.
  pub build_command-Describes :
      (R : Runtime F) (bin_path : Text) (suite : Value F) (e : Entry F) (cmd : List (Value F))
      → build_command R bin_path suite e ≡ ok cmd
      → Describes R suite e cmd
  unfolding build_command option_in last_flag text_eq
  build_command-Describes R bin_path suite e cmd h =
      on_ok (R.truncate e.key.stop_time) _ h λ seconds e1 h1.
        on_ok (index "benchmark_version" suite) _ h1 λ version e2 h2.
          on_ok (index "suite_id" suite) _ h2 λ suite_id e3 h3.
            subst (Describes R suite e) (ok-injective h3) (record {
              scheduler = refl;
              workload = refl;
              cores = refl;
              topology = refl;
              num_tasks = refl;
              replications = refl;
              time = (seconds, e1, refl);
              suite_id = (suite_id, e3, refl);
              benchmark_version = (version, e2, refl);
              run_id = refl;
              seed = refl;
              artifact_dir = refl;
              balancer = balancer-option e;
              stealing = stealing-flag e;
            })
