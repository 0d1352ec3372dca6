-- ===== src/Tests/Analysis.antt =====
-- The analysis of two small runs, with whole numbers in place of floating point numbers, and its
-- theorems at these inputs.
use scheduler_simulator.Prelude.{
  ◌⊎◌, ◌≡◌, refl, ◌↔◌, false, List, [], ◌∷◌, some, ◌+◌, length, arith, map, Text, codes, String,
  strip, strip_by, strip_left, strip_right, is_space, text_eq, lower, split, strip_parts, show,
  show_ℤ, text_lt, lookup, insert, ℤ, All, get_elem?,
}
use scheduler_simulator.Analysis.Cells.{
  shown, CsvRow, Row, cell, text_cell, column, word_cell, to_float, to_int, safe_div, safe_div_int,
  key_of, same_cell, same_cells,
}
use scheduler_simulator.Analysis.Grouping.{
  push, group_onto, group_by, adjust, insert_item, sorted_items,
}
use scheduler_simulator.Analysis.Grouping.Singletons.{IsApart}
use scheduler_simulator.Analysis.Experiments.{
  join, read_digits, match_number, exp_number, set_flag, set_flags, experiment_flags,
  experiments_column, column_flags, without_none, split_experiments, topology_variant,
}
use scheduler_simulator.Analysis.Digits.{digit_of}
use scheduler_simulator.Analysis.Experiments.Flags.{OneNames, experiment_flags-get_elem?}
use scheduler_simulator.Analysis.Experiments.Column.{
  IsPlainId, split_experiments-experiments_column,
}
use scheduler_simulator.Analysis.Output.{write_csv, named_flags, ordered, keys}
use scheduler_simulator.Analysis.Metrics.{one_of, per_task, metrics_row, metrics_rows}
use scheduler_simulator.Analysis.Quality.{
  stripped_cell, add_quality_issue, missing_text, missing_number, missing_cells, low_completion,
  log_scale, row_issues, subject,
}
use scheduler_simulator.Analysis.Quality.Complete.{
  has_separator, Spelled, required_floats, missing_cells-Spelled,
}
use scheduler_simulator.Analysis.Duplicates.{
  config_key, duplicate_issue, group_issues, duplicate_issues,
}
use scheduler_simulator.Analysis.Duplicates.Apart.{duplicate_issues-IsApart}
use scheduler_simulator.Analysis.Tasks.{
  id_or_name, shown_or, task_row, task_rows_onto, task_rows, tasks_by_run,
}
use scheduler_simulator.Analysis.NiceBuckets.{run_nice_rows, nice_of}
use scheduler_simulator.Analysis.NiceBuckets.Counts.{task_counts, run_nice_rows-Partition}
use scheduler_simulator.Analysis.Characteristics.{set_of}
use scheduler_simulator.Analysis.Fairness.{fairness_vs_chars}
use scheduler_simulator.Analysis.Fairness.Join.{joined, fairness_vs_chars-joined}
use scheduler_simulator.Summary.{out_rows, table_values, table_line}
use scheduler_simulator.Summary.Samples.{samples, memberships, out_rows-samples}
use scheduler_simulator.Summary.Table.{open_bars, table_line-open_bars}
use scheduler_simulator.Tests.Numbers.{
  digits_of, read_number, numbers, numbers-IsNumberParser, numbers-IsPartialEquality, info,
  metrics_line, lines,
}

-- Opens the analysis.
unfoldable analysis : Unit {0}
unfolding strip strip_by strip_left strip_right is_space text_eq lower split strip_parts show show_ℤ
    text_lt lookup insert digits_of read_number cell text_cell column to_float to_int safe_div
    safe_div_int key_of same_cell same_cells join digit_of read_digits match_number exp_number
    set_flag set_flags experiment_flags experiments_column column_flags without_none
    split_experiments topology_variant push group_onto group_by adjust insert_item sorted_items
    write_csv named_flags ordered keys one_of per_task metrics_row metrics_rows stripped_cell
    add_quality_issue missing_text missing_number missing_cells low_completion log_scale row_issues
    duplicate_issue group_issues duplicate_issues id_or_name shown_or task_row task_rows_onto
    task_rows tasks_by_run
analysis = tt

abbrev pair : List (Row ℤ)
pair = metrics_rows numbers info (metrics_line "CFS" "5" ∷ metrics_line "MLFQ" "5" ∷ [])

abbrev all_rows : List (Row ℤ)
all_rows = metrics_rows numbers info lines

-- The third line repeats the configuration of the second.
duplicates_found : length (duplicate_issues numbers all_rows) ≡ 1
unfolding analysis
duplicates_found = refl

duplicate_issues-IsApart_example :
    (duplicate_issues numbers pair ≡ []) ↔ IsApart (same_cells numbers) config_key pair
duplicate_issues-IsApart_example = duplicate_issues-IsApart numbers numbers-IsPartialEquality pair

no_cell_missing :
    missing_cells numbers (subject info (metrics_line "CFS" "5")) (metrics_line "CFS" "5") ≡ []
unfolding analysis
no_cell_missing = refl

no_separators :
    All
      (λ col. has_separator (shown (text_cell col (metrics_line "CFS" "5"))) ≡ false)
      required_floats
unfolding analysis has_separator
no_separators = (refl, (refl, (refl, (refl, (refl, tt)))))

missing_cells-Spelled_example :
    All
      (Spelled numbers (metrics_line "CFS" "5") (metrics_row numbers info (metrics_line "CFS" "5")))
      required_floats
missing_cells-Spelled_example =
    missing_cells-Spelled numbers numbers-IsNumberParser (subject info (metrics_line "CFS" "5"))
      info (metrics_line "CFS" "5") no_cell_missing no_separators

fairness_vs_chars-joined_example :
    fairness_vs_chars numbers all_rows []
    ≡ joined numbers numbers-IsPartialEquality all_rows [] all_rows
fairness_vs_chars-joined_example =
    fairness_vs_chars-joined numbers numbers-IsPartialEquality all_rows []

-- A task with a nice value.
abbrev task_line : (nice : String) → CsvRow
task_line nice =
    (codes "Nice", some (codes nice))
    ∷ (codes "Weight", some (codes "1024"))
    ∷ (codes "AllocatedCPU", some (codes "10"))
    ∷ []

abbrev tasks : List (Row ℤ)
tasks = task_rows numbers (
    record {
      source = codes "runs/s/r/tasks.csv";
      suite_folder = codes "s";
      run_folder = codes "r";
      raw_rows = task_line "5" ∷ task_line "0" ∷ task_line "5" ∷ [];
    }
    ∷ [])

one_run : length (tasks_by_run numbers tasks) ≡ 1
unfolding analysis
one_run = refl

run_nice_rows-Partition_example :
    (task_counts (run_nice_rows numbers [] (codes "none") tasks) ≡ length tasks)
    × (length (run_nice_rows numbers [] (codes "none") tasks)
        ≡ length (set_of (map (nice_of numbers) tasks)))
run_nice_rows-Partition_example = run_nice_rows-Partition numbers [] (codes "none") tasks

out_rows-samples_example : samples (out_rows numbers lines) ≡ memberships lines
out_rows-samples_example = out_rows-samples numbers lines

table_line-open_bars_example :
    open_bars false (
      table_line (
        table_values numbers
          (("Workload", word_cell (codes "a|b")) ∷ [])
          ("Workload" ∷ "Samples" ∷ [])))
    ≡ length {A = String} ("Workload" ∷ "Samples" ∷ []) + 1
table_line-open_bars_example =
    table_line-open_bars numbers (("Workload", word_cell (codes "a|b")) ∷ []) "Workload"
      ("Samples" ∷ [])

abbrev ids : List Text
ids = codes "exp1" ∷ codes "EXP3b" ∷ codes "other" ∷ []

experiment_flags-get_elem?_example :
    ((get_elem? (experiment_flags ids) 2 ≡ some 1) × OneNames 3 ids)
    ⊎ ((get_elem? (experiment_flags ids) 2 ≡ some 0) × ¬ OneNames 3 ids)
experiment_flags-get_elem?_example = experiment_flags-get_elem? ids 2 (omega arith)

exp1-IsPlainId : IsPlainId (codes "exp1")
unfolding analysis
exp1-IsPlainId = record {
  lacks = (refl, (refl, (refl, (refl, tt))));
  stripped = refl;
  full = refl;
  named = refl;
}

exp3-IsPlainId : IsPlainId (codes "exp3")
unfolding analysis
exp3-IsPlainId = record {
  lacks = (refl, (refl, (refl, (refl, tt))));
  stripped = refl;
  full = refl;
  named = refl;
}

split_experiments-experiments_column_example :
    split_experiments (experiments_column (codes "exp1" ∷ codes "exp3" ∷ []))
    ≡ codes "exp1" ∷ codes "exp3" ∷ []
split_experiments-experiments_column_example =
    split_experiments-experiments_column (codes "exp1" ∷ codes "exp3" ∷ [])
      (exp1-IsPlainId, (exp3-IsPlainId, tt))
