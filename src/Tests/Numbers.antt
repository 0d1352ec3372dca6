-- ===== src/Tests/Numbers.antt =====
-- Whole numbers in place of floating point numbers, and the lines of a small metrics file.
use scheduler_simulator.Prelude.{
  refl, ap, true, ltb_ℤ, leb_ℤ, eq_ℤ, List, [], ◌∷◌, Option, none, some, ◌*◌, ◌/◌, arith, Text,
  codes, String, strip, strip_idem, strip_by, strip_left, strip_right, is_space, show_ℤ, ℤ, pos,
  ◌+ℤ◌, ◌-ℤ◌, pos_part, if◌then◌else◌,
}
use scheduler_simulator.Python.{ok}
use scheduler_simulator.Analysis.Cells.{Floats, CsvRow}
use scheduler_simulator.Analysis.Digits.{digit_of, is_digit}
use scheduler_simulator.Analysis.Experiments.{read_digits}
use scheduler_simulator.Analysis.Grouping.Laws.{IsPartialEquality}
use scheduler_simulator.Analysis.Metrics.{RunInfo}
use scheduler_simulator.Analysis.Quality.Complete.{IsNumberParser}
use scheduler_simulator.Tests.Samples.{whole as whole_runtime}

unfoldable pub digits_of : Text → Option ℤ
digits_of [] = none
digits_of (c ∷ s) = if is_digit c then some (pos (read_digits 0 (c ∷ s))) else none

unfoldable pub read_number : Text → Option ℤ
read_number t = digits_of (strip t)

abbrev pub sum_of : List ℤ → ℤ
sum_of [] = pos 0
sum_of (n ∷ ns) = n +ℤ sum_of ns

abbrev pub quotient : ℤ → ℤ → ℤ
quotient a b = pos (pos_part a / pos_part b)

abbrev pub product : ℤ → ℤ → ℤ
product a b = pos (pos_part a * pos_part b)

-- Floating point numbers that are integers.
abbrev pub numbers : Floats ℤ
numbers = record {
  runtime = whole_runtime;
  parse = read_number;
  whole = some;
  of_int = λ n. n;
  add = λ a b. a +ℤ b;
  sub = λ a b. a -ℤ b;
  mul = product;
  div = quotient;
  div_int = quotient;
  abs = λ a. pos (pos_part a);
  sqrt = λ a. a;
  squared = λ a. ok (product a a);
  lt = ltb_ℤ;
  le = leb_ℤ;
  is_finite = λ a. true;
  hundredth = pos 1;
  tenth = pos 10;
  half = pos 1;
  tolerance = pos 0;
  total = sum_of;
  deviation = λ ns. ok (pos 0);
  deviation_int = λ ns. ok (pos 0);
  show_six = show_ℤ;
}

pub numbers-IsNumberParser : IsNumberParser numbers
unfolding digit_of read_number digits_of strip strip_by strip_left strip_right is_space
numbers-IsNumberParser = record { strips = λ t h. ap digits_of (strip_idem t); none_fails = refl }

pub numbers-IsPartialEquality : IsPartialEquality eq_ℤ
numbers-IsPartialEquality = record {
  symmetric = λ a b h. ground arith;
  transitive = λ a b c h k. ground arith;
}

abbrev pub info : RunInfo
info = record {
  benchmark_version = codes "v1";
  schema_version = codes "metrics.v2";
  suite_id = codes "s";
  run_id = codes "r";
  source_file = codes "runs/s/r/metrics.csv";
  experiment_ids = codes "exp3" ∷ [];
}

-- A line with the number of tasks and the scheduler.
abbrev pub metrics_line : (scheduler tasks : String) → CsvRow
metrics_line scheduler tasks =
    (codes "BenchmarkVersion", some (codes "v1"))
    ∷ (codes "SchemaVersion", some (codes "metrics.v2"))
    ∷ (codes "SuiteId", some (codes "s"))
    ∷ (codes "RunId", some (codes "r"))
    ∷ (codes "Scheduler", some (codes scheduler))
    ∷ (codes "Workload", some (codes "Server"))
    ∷ (codes "Topology", some (codes "sq"))
    ∷ (codes "NumTasks", some (codes tasks))
    ∷ (codes "Completed", some (codes "4"))
    ∷ (codes "CompletionRatio", some (codes "50"))
    ∷ (codes "MeanRT", some (codes " 7 "))
    ∷ (codes "P99RT", some (codes "9"))
    ∷ (codes "Throughput", some (codes "3"))
    ∷ (codes "JainsFairness", some (codes "1"))
    ∷ (codes "ContextSwitches", some (codes "8"))
    ∷ (codes "Preemptions", some (codes "2"))
    ∷ []

abbrev pub lines : List CsvRow
lines = metrics_line "CFS" "5" ∷ metrics_line "MLFQ" "5" ∷ metrics_line "MLFQ" "5" ∷ []
