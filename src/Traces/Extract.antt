-- ===== src/Traces/Extract.antt =====
-- real-time-workloads/google_v3/extract_google_v3.py: the loop of `extract_tasks` over the tasks, with
-- its counters, the sorting, and `normalize_arrival_times`.
pub mod Sound
use scheduler_simulator.Prelude.{
  ℕ, suc, Bool, true, false, not, ◌&&◌, Option, none, some, List, [], ◌∷◌, map, if◌then◌else◌, ℤ,
  pos, ◌-ℤ◌, leb_ℤ, eq_ℤ,
}
use scheduler_simulator.Python.{Result, ok, err, ◌>>=◌, Value, Runtime}
use scheduler_simulator.Traces.Events.{
  Events, Record, Match, no_submit, no_schedule, no_finish, negative_burst, zero_burst, complete,
  match_task, Tasks, read_lines,
}

pub record Stats : Type 0 where
  pub complete_count : ℕ
  pub no_submit_count : ℕ
  pub no_schedule_count : ℕ
  pub no_finish_count : ℕ
  pub negative_burst_count : ℕ
  pub zero_burst_count : ℕ

abbrev pub no_stats : Stats
no_stats = record {
  complete_count = 0;
  no_submit_count = 0;
  no_schedule_count = 0;
  no_finish_count = 0;
  negative_burst_count = 0;
  zero_burst_count = 0;
}

-- max_tasks and stats["complete"] >= max_tasks
unfoldable pub is_enough : Option ℤ → ℕ → Bool
is_enough none n = false
is_enough (some limit) n = not (eq_ℤ limit (pos 0)) && leb_ℤ limit (pos n)

module _ {F : Type 0} where
  unfoldable pub count_match : Match F → Stats → Stats
  count_match no_submit t = record t { no_submit_count = suc t.no_submit_count }
  count_match no_schedule t = record t { no_schedule_count = suc t.no_schedule_count }
  count_match no_finish t = record t { no_finish_count = suc t.no_finish_count }
  count_match negative_burst t = record t { negative_burst_count = suc t.negative_burst_count }
  count_match zero_burst t = record t { zero_burst_count = suc t.zero_burst_count }
  count_match (complete r) t = record t { complete_count = suc t.complete_count }

  -- The end of the loop body: a record, after which the loop may end, or the next task.
  unfoldable pub add_match :
      (max_tasks : Option ℤ)
      → (t : Stats) → (rest : Result (Stats × List (Record F))) → Match F
      → Result (Stats × List (Record F))
  add_match max_tasks t rest (complete r) =
      if is_enough max_tasks t.complete_count
      then ok (t, r ∷ [])
      else (rest >>= λ x. ok (x.0, r ∷ x.1))
  add_match max_tasks t rest _ = rest

  -- for key, events in tasks.items()
  unfoldable pub match_tasks :
      (max_tasks : Option ℤ) → Stats → List (Events F) → Result (Stats × List (Record F))
  match_tasks max_tasks t [] = ok (t, [])
  match_tasks max_tasks t (es ∷ tasks) = do
    m ← match_task es
    add_match max_tasks (count_match m t) (match_tasks max_tasks (count_match m t) tasks) m

  -- records.sort(key=arrival), which keeps the order of records with one arrival time
  unfoldable pub insert_record : Record F → List (Record F) → List (Record F)
  insert_record r [] = r ∷ []
  insert_record r (q ∷ rs) =
      let behind = insert_record r rs in
      if leb_ℤ r.arrival_us q.arrival_us then r ∷ q ∷ rs else q ∷ behind

  unfoldable pub sort_records : List (Record F) → List (Record F)
  sort_records [] = []
  sort_records (r ∷ rs) = insert_record r (sort_records rs)

  -- r with its arrival time shifted
  abbrev pub shift : (min_time : ℤ) → Record F → Record F
  shift min_time r = record r { arrival_us = r.arrival_us -ℤ min_time }

  unfoldable pub normalize_arrival_times : List (Record F) → List (Record F)
  normalize_arrival_times [] = []
  normalize_arrival_times (r ∷ rs) = map (shift r.arrival_us) (r ∷ rs)

  unfoldable pub extract_tasks :
      Runtime F
      → (lines : List (Option (Value F))) → (max_tasks window : Option ℤ)
      → Result (Stats × List (Record F))
  extract_tasks R lines max_tasks window = do
    tasks ← read_lines R window [] lines
    x ← match_tasks max_tasks no_stats (map (λ t. t.1) tasks)
    ok (x.0, sort_records x.1)
