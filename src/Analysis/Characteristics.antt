-- ===== src/Analysis/Characteristics.antt =====
-- scripts/aggregate_results.py, the loop over the runs: what characterises the workload of a run
-- (workload_characteristics.csv). The order of arrivals is the one of `sorted` for numbers that are
-- no NaN.
use scheduler_simulator.Prelude.{
  if◌then◌else◌, List, [], ◌∷◌, ◌++◌, map, Text, pos, ℤ, eq_ℤ, length,
}
use scheduler_simulator.Python.{Result, ok, ◌>>=◌}
use scheduler_simulator.Analysis.Cells.{Floats, Cell, Row, int_cell, float_cell, mean, cv}
use scheduler_simulator.Analysis.Allocation.{run_columns, floats}
use scheduler_simulator.Analysis.NiceBuckets.{nice_of}

-- set(ns), in the order in which the numbers are met
unfoldable pub add_once : ℤ → List ℤ → List ℤ
add_once n [] = n ∷ []
add_once n (m ∷ ns) = if eq_ℤ m n then m ∷ ns else m ∷ add_once n ns

unfoldable pub set_onto : List ℤ → List ℤ → List ℤ
set_onto [] s = s
set_onto (n ∷ ns) s = set_onto ns (add_once n s)

abbrev pub set_of : List ℤ → List ℤ
set_of ns = set_onto ns []

module _ {F : Type 0} (A : Floats F) where
  open A use {runtime, sub, lt, deviation_int}
  open runtime use {float_zero}

  unfoldable pub insert_float : F → List F → List F
  insert_float x [] = x ∷ []
  insert_float x (y ∷ ys) = if lt y x then y ∷ insert_float x ys else x ∷ y ∷ ys

  unfoldable pub sorted_floats : List F → List F
  sorted_floats [] = []
  sorted_floats (x ∷ xs) = insert_float x (sorted_floats xs)

  -- [arrivals[i] - arrivals[i - 1] for i in range(1, len(arrivals))]
  unfoldable pub inter_arrivals : List F → List F
  inter_arrivals [] = []
  inter_arrivals (x ∷ []) = []
  inter_arrivals (x ∷ y ∷ xs) = sub y x ∷ inter_arrivals (y ∷ xs)

  -- arrivals[-1]
  unfoldable pub last_of : F → List F → F
  last_of x [] = x
  last_of x (y ∷ ys) = last_of y ys

  unfoldable pub arrival_span : List F → F
  arrival_span [] = float_zero
  arrival_span (x ∷ xs) = sub (last_of x xs) x

  -- stddev, for integers
  unfoldable pub stddev_int : List ℤ → Result F
  stddev_int [] = ok float_zero
  stddev_int (n ∷ []) = ok float_zero
  stddev_int (m ∷ n ∷ ns) = deviation_int (m ∷ n ∷ ns)

  unfoldable pub char_row : (key : List (Cell F)) (exp_ids : Text) → List (Row F) → Result (Row F)
  char_row key exp_ids tasks =
      let arrivals = sorted_floats (floats A "Arrival" tasks) in
      let executions = floats A "Execution" tasks in
      let weights = floats A "Weight" tasks in
      let nices = map (nice_of A) tasks in
      cv A (inter_arrivals arrivals) >>= λ inter_arrival_cv. cv A executions >>= λ execution_cv.
      cv A weights >>= λ weight_cv. stddev_int nices >>= λ nice_deviation. ok (
        run_columns key exp_ids
        ++ ("ArrivalSpan", float_cell (arrival_span arrivals))
          ∷ ("InterArrivalMean", float_cell (mean A (inter_arrivals arrivals)))
          ∷ ("InterArrivalCV", float_cell inter_arrival_cv)
          ∷ ("ExecutionMean", float_cell (mean A executions))
          ∷ ("ExecutionCV", float_cell execution_cv)
          ∷ ("WeightMean", float_cell (mean A weights))
          ∷ ("WeightCV", float_cell weight_cv)
          ∷ ("NiceStdDev", float_cell nice_deviation)
          ∷ ("UniqueNice", int_cell (pos (length (set_of nices))))
          ∷ [])
