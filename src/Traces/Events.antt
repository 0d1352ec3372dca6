-- ===== src/Traces/Events.antt =====
-- real-time-workloads/google_v3/extract_google_v3.py: `extract_tasks` and
-- `normalize_arrival_times`. A line of the input is the value that `json.loads` gives, or nothing.
-- A number in a Boolean test, such as `if max_tasks and ...`, is an optional number here that counts
-- as absent if it is 0.
pub mod Matching
use scheduler_simulator.Prelude.{
  ℕ, suc, ◌/◌, Bool, true, false, not, ◌&&◌, Option, none, some, List, [], ◌∷◌, ◌++◌, if◌then◌else◌,
  Text, codes, ℤ, pos, negsuc, ◌-ℤ◌, ltb_ℤ, leb_ℤ, eq_ℤ, Dict, lookup, insert, any,
}
use scheduler_simulator.Python.{
  Exception, Result, ok, err, ◌>>=◌, ◌>>◌, check, require, default_to, type_error, key_error, Value,
  Items, Fields, int, text, float, dict, end, is_text, is_hashable, Runtime, get, get_or,
  same_value, to_int,
}
use scheduler_simulator.Traces.Google.{map_priority_to_nice, cfs_weights}

pub record Event (F : Type 0) : Type 0 where
  pub time : ℤ
  pub priority : ℤ
  pub scheduling_class : ℤ
  pub cpus : Value F

-- The events of one task.
pub record Events (F : Type 0) : Type 0 where
  pub submit : List (Event F)
  pub schedule : List (Event F)
  pub finish : List (Event F)

pub data Kind : Type 0 where
  submitted scheduled finished : Kind

pub record Record (F : Type 0) : Type 0 where
  pub arrival_us : ℤ
  pub cpu_burst_us : ℤ
  pub io_burst_us : ℤ
  pub nice : ℤ
  pub weight : ℕ
  pub sched_class : ℤ
  pub cpu_request : Value F

-- What becomes of a task: a record, or the counter that is increased.
pub data Match (F : Type 0) : Type 0 where
  no_submit no_schedule no_finish negative_burst zero_burst : Match F
  complete : Record F → Match F

-- v // 1000
unfoldable pub to_us : ℤ → ℤ
to_us (pos n) = pos (n / 1000)
to_us (negsuc n) = negsuc (n / 1000)

module _ {F : Type 0} where
  abbrev pub no_events : Events F
  no_events = record { submit = []; schedule = []; finish = [] }

  -- The three types that are used, by the value of "type".
  unfoldable pub kind_of : Value F → Option Kind
  kind_of v =
      if is_text "0" v
      then some submitted
      else if is_text "1" v
      then some scheduled
      else if is_text "4" v
      then some finished
      else none

  unfoldable pub add_event : Kind → Event F → Events F → Events F
  add_event submitted e es = record es { submit = es.submit ++ e ∷ [] }
  add_event scheduled e es = record es { schedule = es.schedule ++ e ∷ [] }
  add_event finished e es = record es { finish = es.finish ++ e ∷ [] }

  -- min(first, *rest) by time: the first of the earliest events.
  unfoldable pub earliest : Event F → List (Event F) → Event F
  earliest first [] = first
  earliest first (e ∷ rest) =
      let keep = earliest first rest in
      let next = earliest e rest in if ltb_ℤ e.time first.time then next else keep

  -- [e for e in events if e["time"] >= t]
  unfoldable pub from_time : ℤ → List (Event F) → List (Event F)
  from_time t [] = []
  from_time t (e ∷ es) = let rest = from_time t es in if leb_ℤ t e.time then e ∷ rest else rest

  -- The durations of a task and its record.
  unfoldable pub make_record : (submit schedule finish : Event F) → Result (Match F)
  make_record s c f =
      let burst = to_us (f.time -ℤ c.time) in
      if ltb_ℤ burst (pos 0)
      then ok negative_burst
      else if eq_ℤ burst (pos 0)
      then ok zero_burst
      else (do
        nice ← map_priority_to_nice s.priority
        weight ← require key_error (lookup eq_ℤ nice cfs_weights)
        ok (
            complete (record {
              arrival_us = to_us s.time;
              cpu_burst_us = burst;
              io_burst_us = pos 0;
              nice = nice;
              weight = weight;
              sched_class = s.scheduling_class;
              cpu_request = s.cpus;
            })))

  -- The finish event at or after the schedule event.
  unfoldable pub with_finish :
      (submit schedule : Event F) → (valid : List (Event F)) → Result (Match F)
  with_finish s c [] = ok no_finish
  with_finish s c (f ∷ fs) = make_record s c (earliest f fs)

  -- The schedule event: the earliest at or after the submit event, if there is one, else the earliest.
  unfoldable pub pick_schedule :
      Event F → (first : Event F) → (rest valid : List (Event F)) → Event F
  pick_schedule s first rest [] = earliest first rest
  pick_schedule s first rest (c ∷ cs) = earliest c cs

  -- The body of the loop over the tasks.
  unfoldable pub match_task : Events F → Result (Match F)
  match_task es = elim es.submit [
    | [] ↦ ok no_submit
    | s ∷ ss ↦ elim es.schedule [
      | [] ↦ ok no_schedule
      | c ∷ cs ↦ elim es.finish [
        | [] ↦ ok no_finish
        | f ∷ fs ↦
            let submit = earliest s ss in
            let schedule = pick_schedule submit c cs (from_time submit.time (c ∷ cs)) in
            with_finish submit schedule (from_time schedule.time (f ∷ fs))
      ]
    ]
  ]

module _ {F : Type 0} (R : Runtime F) where
  -- The keys of `tasks`: (collection_id, instance_index).
  abbrev pub Key : Type 0
  Key = Value F × Value F

  unfoldable pub same_task : Key → Key → Bool
  same_task (a, b) (c, d) = same_value R a c && same_value R b d

  abbrev pub Tasks : Type 0
  Tasks = Dict Key (Events F)

  -- time_window_ns and etype == SUBMIT and time_ns > time_window_ns
  unfoldable pub is_late : Option ℤ → Kind → ℤ → Bool
  is_late (some window) submitted time = not (eq_ℤ window (pos 0)) && ltb_ℤ window time
  is_late _ _ time = false

  -- An event of a used type that is not too late.
  unfoldable pub add_task_event : (window : Option ℤ) → Tasks → Value F → Kind → Result Tasks
  add_task_event window tasks d kind = do
    time ← get_or "time" d (int (pos 0)) >>= to_int R
    let late = is_late window kind time
    elim late [
      | true ↦ ok tasks
      | false ↦ do
        collection ← get_or "collection_id" d (text [])
        instance_index ← get_or "instance_index" d (text [])
        priority ← get_or "priority" d (int (pos 0)) >>= to_int R
        scheduling_class ← get_or "scheduling_class" d (int (pos 0)) >>= to_int R
        cpus ← get_or "resource_request" d (dict end) >>= λ r. get_or "cpus" r (float R.float_zero)
        check (is_hashable collection && is_hashable instance_index) type_error
        let key : Key = (collection, instance_index)
        let e : Event F = record {
          time = time;
          priority = priority;
          scheduling_class = scheduling_class;
          cpus = cpus;
        }
        ok (
            insert same_task key
              (add_event kind e (default_to (lookup same_task key tasks) no_events)) tasks)
    ]

  -- The body of the loop over the lines; a line that is not JSON is counted and skipped.
  unfoldable pub read_line : (window : Option ℤ) → Tasks → Option (Value F) → Result Tasks
  read_line window tasks none = ok tasks
  read_line window tasks (some d) = do
    etype ← get_or "type" d Value.null
    elim (kind_of etype) [ none ↦ ok tasks | some kind ↦ add_task_event window tasks d kind ]

  unfoldable pub read_lines : (window : Option ℤ) → Tasks → List (Option (Value F)) → Result Tasks
  read_lines window tasks [] = ok tasks
  read_lines window tasks (line ∷ lines) = do
    tasks' ← read_line window tasks line
    read_lines window tasks' lines
