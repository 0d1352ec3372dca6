-- ===== src/Traces/Extract/Sound.antt =====
-- The result of `extract_tasks`, its order and its counters, and `normalize_arrival_times`
-- (real-time-workloads/google_v3/extract_google_v3.py).
use scheduler_simulator.Prelude.{
  pos, ◌-ℤ◌, ◌≡◌, refl, ap, ◌∙◌, suc, ◌+◌, Option, List, [], ◌∷◌, map, ℤ, ◌≤ℤ◌, leb_ℤ, length, All,
  Bool-cases, inl, inr, arith,
}
use scheduler_simulator.Python.{Result, ok, ◌>>=◌, Value, Runtime}
use scheduler_simulator.Traces.Events.{
  Events, Record, Match, no_submit, no_schedule, no_finish, negative_burst, zero_burst, complete,
  Tasks, read_lines,
}
use scheduler_simulator.Traces.Events.Matching.{HasRange, IsTask, IsFine, match_task-IsFine}
use scheduler_simulator.Traces.Extract.{
  shift, normalize_arrival_times, Stats, no_stats, count_match, add_match, is_enough, match_tasks,
  insert_record, sort_records, extract_tasks,
}

module _ {F : Type 0} where
  -- What matching from the counters `t` on leads to: new counters and records.
  pub record IsMatched (t : Stats) (x : Stats × List (Record F)) : Type 0 where
    pub tasks : All IsTask x.1
    pub counted : (x.0).complete_count ≡ t.complete_count + length x.1
    pub no_negative : (x.0).negative_burst_count ≡ t.negative_burst_count

  add_match-IsMatched :
      (max_tasks : Option ℤ) (t : Stats) (m : Match F) (rest : Result (Stats × List (Record F)))
      (y : Stats × List (Record F))
      → IsFine m
      → rest ≡ ok y
      → IsMatched (count_match m t) y
      → (x : Stats × List (Record F)) × (add_match max_tasks (count_match m t) rest m ≡ ok x)
        × IsMatched t x
  unfolding add_match count_match
  add_match-IsMatched max_tasks t no_submit rest y fine e h =
      (y, e, record { tasks = h.tasks; counted = h.counted; no_negative = h.no_negative })
  add_match-IsMatched max_tasks t no_schedule rest y fine e h =
      (y, e, record { tasks = h.tasks; counted = h.counted; no_negative = h.no_negative })
  add_match-IsMatched max_tasks t no_finish rest y fine e h =
      (y, e, record { tasks = h.tasks; counted = h.counted; no_negative = h.no_negative })
  add_match-IsMatched max_tasks t negative_burst rest y fine e h = absurd fine
  add_match-IsMatched max_tasks t zero_burst rest y fine e h =
      (y, e, record { tasks = h.tasks; counted = h.counted; no_negative = h.no_negative })
  add_match-IsMatched max_tasks t (complete r) rest y fine e h =
      elim (Bool-cases (is_enough max_tasks (suc t.complete_count))) [
        | inl enough ↦
            rw enough
              (_, refl, record { tasks = (fine, tt); counted = ground arith; no_negative = refl })
        | inr more ↦
            rw (more, e)
              (
                _,
                refl,
                record {
                  tasks = (fine, h.tasks);
                  counted = ground (arith, h.counted);
                  no_negative = h.no_negative;
                },
              )
      ]

  match_tasks-IsMatched :
      (max_tasks : Option ℤ) (t : Stats) (tasks : List (Events F))
      → All HasRange tasks
      → (x : Stats × List (Record F)) × (match_tasks max_tasks t tasks ≡ ok x) × IsMatched t x
  unfolding match_tasks
  match_tasks-IsMatched max_tasks t [] small =
      ((t, []), refl, record { tasks = tt; counted = ground arith; no_negative = refl })
  match_tasks-IsMatched max_tasks t (es ∷ tasks) small =
      let (m, found, fine) = match_task-IsFine es small.0 in
      let (y, e, h) = match_tasks-IsMatched max_tasks (count_match m t) tasks small.1 in
      let (x, same, matched) =
        add_match-IsMatched max_tasks t m (match_tasks max_tasks (count_match m t) tasks) y fine e
          h in
      (
        x,
        ap
              (λ r. r >>= λ m'.
                add_match max_tasks (count_match m' t)
                  (match_tasks max_tasks (count_match m' t) tasks) m')
              found
            ∙ same,
        matched,
      )

  -- Each record arrives no later than the next.
  abbrev pub IsSorted : List (Record F) → Type 0
  IsSorted [] = Unit
  IsSorted (r ∷ rs) = All (λ q. r.arrival_us ≤ℤ q.arrival_us) rs × IsSorted rs

  insert_record-All :
      (P : Record F → Type 0) (r : Record F) (rs : List (Record F))
      → P r
      → All P rs
      → All P (insert_record r rs)
  unfolding insert_record
  insert_record-All P r [] p ps = (p, tt)
  insert_record-All P r (q ∷ rs) p ps = elim (Bool-cases (leb_ℤ r.arrival_us q.arrival_us)) [
    | inl first ↦ rw first (p, ps)
    | inr behind ↦ rw behind (ps.0, insert_record-All P r rs p ps.1)
  ]

  earlier-All :
      (a b : ℤ) (rs : List (Record F))
      → a ≤ℤ b
      → All (λ q. b ≤ℤ q.arrival_us) rs
      → All (λ q. a ≤ℤ q.arrival_us) rs
  earlier-All a b [] h ps = tt
  earlier-All a b (q ∷ rs) h ps = (omega (arith, h, ps.0), earlier-All a b rs h ps.1)

  insert_record-IsSorted :
      (r : Record F) (rs : List (Record F)) → IsSorted rs → IsSorted (insert_record r rs)
  unfolding insert_record
  insert_record-IsSorted r [] s = (tt, tt)
  insert_record-IsSorted r (q ∷ rs) s = elim (Bool-cases (leb_ℤ r.arrival_us q.arrival_us)) [
    | inl first ↦
        let le : r.arrival_us ≤ℤ q.arrival_us = ground arith in
        rw first ((le, earlier-All r.arrival_us q.arrival_us rs le s.0), s)
    | inr behind ↦ rw behind (
      insert_record-All (λ p. q.arrival_us ≤ℤ p.arrival_us) r rs (ground arith) s.0,
      insert_record-IsSorted r rs s.1,
    )
  ]

  insert_record-length :
      (r : Record F) (rs : List (Record F)) → length (insert_record r rs) ≡ suc (length rs)
  unfolding insert_record
  insert_record-length r [] = refl
  insert_record-length r (q ∷ rs) = ground (arith, insert_record-length r rs)

  sort_records-IsSorted :
      (P : Record F → Type 0) (rs : List (Record F))
      → All P rs
      → IsSorted (sort_records rs)
        × All P (sort_records rs)
        × (length (sort_records rs) ≡ length rs)
  unfolding sort_records
  sort_records-IsSorted P [] ps = (tt, tt, refl)
  sort_records-IsSorted P (r ∷ rs) ps =
      let (sorted, kept, size) = sort_records-IsSorted P rs ps.1 in
      (
        insert_record-IsSorted r (sort_records rs) sorted,
        insert_record-All P r (sort_records rs) ps.0 kept,
        ground (arith, insert_record-length r (sort_records rs), size),
      )

  -- The result of an extraction: the records are sorted, each is a task, the counter of complete
  -- tasks is their number, and no task had a negative burst.
  abbrev pub IsTrace : Stats × List (Record F) → Type 0
  IsTrace x =
      IsSorted x.1
      × All IsTask x.1
      × ((x.0).complete_count ≡ length x.1)
      × ((x.0).negative_burst_count ≡ 0)

  -- Once the lines are read, the extraction returns, whatever the limit and the time window, if no
  -- submit event has a priority above 2 ^ 1024 - 2 ^ 970 or below its negative: its records are sorted by arrival, each has a positive burst and the weight of its nice value, they
  -- are as many as counted, and no burst is negative.
  pub extract_tasks-IsTrace :
      (R : Runtime F) (lines : List (Option (Value F))) (max_tasks window : Option ℤ)
      (tasks : Tasks R)
      → read_lines R window [] lines ≡ ok tasks
      → All HasRange (map (λ t. t.1) tasks)
      → (x : Stats × List (Record F)) × (extract_tasks R lines max_tasks window ≡ ok x) × IsTrace x
  unfolding extract_tasks
  extract_tasks-IsTrace R lines max_tasks window tasks read small =
      let (y, matched, h) = match_tasks-IsMatched max_tasks no_stats (map (λ t. t.1) tasks) small in
      let (sorted, kept, size) = sort_records-IsSorted IsTask y.1 h.tasks in
      (
        (y.0, sort_records y.1),
        rw (read, matched) refl,
        (sorted, kept, ground (arith, h.counted, size), h.no_negative),
      )

  shift-All :
      (a b : ℤ) (rs : List (Record F))
      → All (λ q. b ≤ℤ q.arrival_us) rs
      → All (λ q. b -ℤ a ≤ℤ q.arrival_us) (map (shift a) rs)
  shift-All a b [] ps = tt
  shift-All a b (q ∷ rs) ps = (ground (arith, ps.0), shift-All a b rs ps.1)

  shift-IsSorted : (a : ℤ) (rs : List (Record F)) → IsSorted rs → IsSorted (map (shift a) rs)
  shift-IsSorted a [] s = tt
  shift-IsSorted a (q ∷ rs) s = (shift-All a q.arrival_us rs s.0, shift-IsSorted a rs s.1)

  from_zero :
      (a : ℤ) (rs : List (Record F))
      → All (λ q. a -ℤ a ≤ℤ q.arrival_us) rs
      → All (λ q. pos 0 ≤ℤ q.arrival_us) rs
  from_zero a [] ps = tt
  from_zero a (q ∷ rs) ps = (ground (arith, ps.0), from_zero a rs ps.1)

  -- The normalized records of a sorted trace are sorted, and none arrives before time 0.
  pub normalize_arrival_times-IsSorted :
      (rs : List (Record F))
      → IsSorted rs
      → IsSorted (normalize_arrival_times rs)
        × All (λ q. pos 0 ≤ℤ q.arrival_us) (normalize_arrival_times rs)
  unfolding normalize_arrival_times
  normalize_arrival_times-IsSorted [] s = (tt, tt)
  normalize_arrival_times-IsSorted (r ∷ rs) s = (
    shift-IsSorted r.arrival_us (r ∷ rs) s,
    from_zero r.arrival_us (map (shift r.arrival_us) (r ∷ rs))
        (shift-All r.arrival_us r.arrival_us (r ∷ rs) (ground arith, s.0)),
  )
