-- ===== src/Tests/Traces.antt =====
-- The trace extraction at two tasks.
use scheduler_simulator.Prelude.{
  ◌⊎◌, ◌^◌, Bool, false, ◌==◌, ◌≡◌, refl, ℕ, ◌≤◌, none, some, Option, List, [], ◌∷◌, map, String, ℤ,
  pos, ◌≤ℤ◌, eq_ℤ, lookup, codes, All, arith,
}
use scheduler_simulator.Python.{err, overflow_error, ok, Value, int, text, dict, end, field}
use scheduler_simulator.Traces.Google.{
  float_limit, in_tier, truncated, neg, scale, clamp, map_priority_to_nice, cfs_weights,
}
use scheduler_simulator.Traces.Google.Tiers.{IsBetween}
use scheduler_simulator.Traces.Google.Nice.{
  map_priority_to_nice-IsBetween, map_priority_to_nice-IsAntitone,
}
use scheduler_simulator.Traces.Google.Weights.{IsInRange, map_priority_to_nice-weight}
use scheduler_simulator.Traces.Events.Matching.{HasRange}
use scheduler_simulator.Traces.Events.{
  Record, Tasks, same_task, is_late, add_task_event, add_event, kind_of, read_line, read_lines,
}
use scheduler_simulator.Traces.Extract.{Stats, extract_tasks, normalize_arrival_times}
use scheduler_simulator.Traces.Extract.Sound.{
  IsTrace, IsSorted, extract_tasks-IsTrace, normalize_arrival_times-IsSorted,
}
use scheduler_simulator.Traces.Subset.{
  Row, random, SubsetArgs, Subset, looks_like_header, replace_row, is_capped, sample_row,
  sample_rows, make_subset,
}
use scheduler_simulator.Traces.Subset.Sample.{data_rows, header_row, IsSample, make_subset-IsSample}
use scheduler_simulator.Tests.Samples.{program, whole}

-- Opens the mapping of priorities.
unfoldable nice_of_priority : Unit {0}
unfolding map_priority_to_nice in_tier scale truncated clamp float_limit
nice_of_priority = tt

too_high : map_priority_to_nice (pos (2 ^ 1030)) ≡ err overflow_error
unfolding nice_of_priority
too_high = refl

nice_of_100 : map_priority_to_nice (pos 100) ≡ ok (pos 9)
unfolding nice_of_priority
nice_of_100 = refl

nice_of_360 : map_priority_to_nice (pos 360) ≡ ok (neg 11)
unfolding nice_of_priority
nice_of_360 = refl

nice_values :
    map map_priority_to_nice (pos 0 ∷ pos 99 ∷ pos 115 ∷ pos 119 ∷ pos 359 ∷ pos 500 ∷ [])
    ≡ ok (pos 19) ∷ ok (pos 10) ∷ ok (pos 5) ∷ ok (pos 1) ∷ ok (neg 10) ∷ ok (neg 20) ∷ []
unfolding nice_of_priority
nice_values = refl

map_priority_to_nice-IsBetween_example : IsBetween (neg 20) (pos 19) (neg 11)
map_priority_to_nice-IsBetween_example =
    map_priority_to_nice-IsBetween (pos 360) (neg 11) nice_of_360

map_priority_to_nice-IsAntitone_example : neg 11 ≤ℤ pos 9
map_priority_to_nice-IsAntitone_example =
    map_priority_to_nice-IsAntitone (pos 100) (pos 360) (pos 9) (neg 11) (omega arith) nice_of_100
      nice_of_360

map_priority_to_nice-weight_example :
    ((nice : ℤ) × (weight : ℕ) × (map_priority_to_nice (pos 200) ≡ ok nice)
      × (lookup eq_ℤ nice cfs_weights ≡ some weight)
      × (15 ≤ weight))
    ⊎ ((map_priority_to_nice (pos 200) ≡ err overflow_error) × ¬ IsInRange (pos 200))
map_priority_to_nice-weight_example = map_priority_to_nice-weight (pos 200)

abbrev event : (kind collection : String) (time : ℕ) → Value ℤ
event kind collection time = dict (
    field "type" (text (codes kind)) (
      field "time" (int (pos time))
        (field "collection_id" (text (codes collection)) (field "priority" (int (pos 120)) end))))

abbrev lines : List (Option (Value ℤ))
lines =
    some (event "0" "b" 9000)
    ∷ some (event "0" "a" 4000)
    ∷ none
    ∷ some (event "1" "a" 5000)
    ∷ some (event "1" "b" 9000)
    ∷ some (event "5" "b" 9500)
    ∷ some (event "4" "b" 12000)
    ∷ some (event "4" "a" 8000)
    ∷ []

tasks_read : (tasks : Tasks whole) × (read_lines whole none [] lines ≡ ok tasks)
unfolding program same_task is_late add_task_event add_event kind_of read_line read_lines
tasks_read = (_, refl)

priorities_in_range : All HasRange (map (λ t. t.1) tasks_read.0)
unfolding IsInRange float_limit tasks_read
priorities_in_range = ((omega arith, tt), ((omega arith, tt), tt))

extract_tasks-IsTrace_example :
    (x : Stats × List (Record ℤ)) × (extract_tasks whole lines none none ≡ ok x) × IsTrace x
extract_tasks-IsTrace_example =
    extract_tasks-IsTrace whole lines none none tasks_read.0 tasks_read.1 priorities_in_range

abbrev arriving : ℕ → Record ℤ
arriving t = record {
  arrival_us = pos t;
  cpu_burst_us = pos 1;
  io_burst_us = pos 0;
  nice = pos 0;
  weight = 1024;
  sched_class = pos 0;
  cpu_request = int (pos 0);
}

abbrev arrivals : List (Record ℤ)
arrivals = arriving 4 ∷ arriving 9 ∷ []

arrivals-IsSorted : IsSorted arrivals
arrivals-IsSorted = ((omega arith, tt), (tt, tt))

normalize_arrival_times-IsSorted_example :
    IsSorted (normalize_arrival_times arrivals)
    × All (λ q. pos 0 ≤ℤ q.arrival_us) (normalize_arrival_times arrivals)
normalize_arrival_times-IsSorted_example =
    normalize_arrival_times-IsSorted arrivals arrivals-IsSorted

-- Three rows, of which two are asked for.
abbrev input : List Row
input = (codes "h" ∷ []) ∷ (codes "1" ∷ []) ∷ (codes "2" ∷ []) ∷ (codes "3" ∷ []) ∷ []

abbrev two_rows : SubsetArgs
two_rows = record { size = pos 2; mode = random; max_lines = none; no_header = false }

abbrev is_h : ℕ → Bool
is_h c = c == b'h'

subset_made : (out : Subset) × (make_subset (λ n. 1) two_rows is_h input ≡ some out)
unfolding make_subset sample_rows sample_row looks_like_header replace_row is_capped
subset_made = (_, refl)

no_header_below :
    All
      (λ row. looks_like_header is_h row ≡ false)
      (data_rows (λ row. looks_like_header is_h row ≡ false) (λ n. 1) two_rows is_h input)
unfolding looks_like_header
no_header_below = (refl, (refl, (refl, tt)))

-- The header, which has the letter, is not in the sample.
make_subset-IsSample_example :
    IsSample (λ row. looks_like_header is_h row ≡ false) (λ n. 1) two_rows subset_made.0.rows
    × (subset_made.0.header
        ≡ header_row (λ row. looks_like_header is_h row ≡ false) (λ n. 1) two_rows is_h input)
make_subset-IsSample_example =
    make_subset-IsSample (λ row. looks_like_header is_h row ≡ false) (λ n. 1) two_rows is_h input
      subset_made.0 no_header_below subset_made.1
