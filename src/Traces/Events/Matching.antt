-- ===== src/Traces/Events/Matching.antt =====
-- What the matching of a task gives: its burst, its nice value and its weight
-- (real-time-workloads/google_v3/extract_google_v3.py).
use scheduler_simulator.Prelude.{
  ◌≡◌, refl, ◌≤◌, false, some, List, [], ◌∷◌, ℤ, pos, negsuc, ◌-ℤ◌, ◌≤ℤ◌, ltb_ℤ, leb_ℤ, eq_ℤ,
  lookup, All, Bool-cases, inl, inr, arith,
}
use scheduler_simulator.Python.{ok}
use scheduler_simulator.Traces.Google.{cfs_weights}
use scheduler_simulator.Traces.Google.Weights.{
  IsInRange, map_priority_to_nice-returns, weight-found,
}
use scheduler_simulator.Traces.Events.{
  Event, Events, Record, Match, no_submit, no_schedule, no_finish, negative_burst, zero_burst,
  complete, to_us, earliest, from_time, make_record, with_finish, pick_schedule, match_task,
}

to_us-nonnegative : (v : ℤ) → pos 0 ≤ℤ v → ltb_ℤ (to_us v) (pos 0) ≡ false
unfolding to_us
to_us-nonnegative (pos n) h = ground arith
to_us-nonnegative (negsuc n) h = absurd (omega arith)

module _ {F : Type 0} where
  -- A record with a positive burst, no input and output, and the weight of its nice value.
  pub record IsTask (r : Record F) : Type 0 where
    pub burst : pos 1 ≤ℤ r.cpu_burst_us
    pub io_burst : r.io_burst_us ≡ pos 0
    pub weighed : lookup eq_ℤ r.nice cfs_weights ≡ some r.weight
    pub weight_least : 15 ≤ r.weight

  abbrev pub IsFine : Match F → Type 0
  IsFine negative_burst = ⊥
  IsFine (complete r) = IsTask r
  IsFine _ = Unit

  make_record-IsFine :
      (s c f : Event F)
      → IsInRange s.priority
      → c.time ≤ℤ f.time
      → (m : Match F) × (make_record s c f ≡ ok m) × IsFine m
  unfolding make_record
  make_record-IsFine s c f small h =
      let burst = to_us (f.time -ℤ c.time) in
      let (nice, returned) = map_priority_to_nice-returns s.priority small in
      let (weight, found, least) = weight-found s.priority nice returned in
      elim (Bool-cases (eq_ℤ burst (pos 0))) [
        | inl none_left ↦
            rw (to_us-nonnegative (f.time -ℤ c.time) (ground arith), none_left)
              (zero_burst, refl, tt)
        | inr some_left ↦
            rw (to_us-nonnegative (f.time -ℤ c.time) (ground arith), some_left, returned, found)
              (
                _,
                refl,
                record {
                  burst = ground (arith, to_us-nonnegative (f.time -ℤ c.time) (ground arith));
                  io_burst = refl;
                  weighed = found;
                  weight_least = least;
                },
              )
      ]

  from_time-late : (t : ℤ) (es : List (Event F)) → All (λ e. t ≤ℤ e.time) (from_time t es)
  unfolding from_time
  from_time-late t [] = tt
  from_time-late t (e ∷ es) = elim (Bool-cases (leb_ℤ t e.time)) [
    | inl late ↦ rw late (ground arith, from_time-late t es)
    | inr early ↦ rw early (from_time-late t es)
  ]

  earliest-All :
      (P : Event F → Type 0) (first : Event F) (rest : List (Event F))
      → P first
      → All P rest
      → P (earliest first rest)
  unfolding earliest
  earliest-All P first [] p ps = p
  earliest-All P first (e ∷ rest) p ps = elim (Bool-cases (ltb_ℤ e.time first.time)) [
    | inl next ↦ rw next (earliest-All P e rest ps.0 ps.1)
    | inr keep ↦ rw keep (earliest-All P first rest p ps.1)
  ]

  with_finish-IsFine :
      (s c : Event F) (valid : List (Event F))
      → IsInRange s.priority
      → All (λ e. c.time ≤ℤ e.time) valid
      → (m : Match F) × (with_finish s c valid ≡ ok m) × IsFine m
  unfolding with_finish
  with_finish-IsFine s c [] small late = (no_finish, refl, tt)
  with_finish-IsFine s c (f ∷ fs) small late =
      make_record-IsFine s c (earliest f fs) small
        (earliest-All (λ e. c.time ≤ℤ e.time) f fs late.0 late.1)

  abbrev pub HasRange : Events F → Type 0
  HasRange es = All (λ e. IsInRange e.priority) es.submit

  -- The matching of a task raises nothing, if its priorities can be divided, finds no negative burst, and gives a complete task a
  -- positive burst and the weight of its nice value.
  pub match_task-IsFine :
      (es : Events F) → HasRange es → (m : Match F) × (match_task es ≡ ok m) × IsFine m
  unfolding match_task
  match_task-IsFine es = go es.submit es.schedule es.finish
    where
      go :
          (ss cs fs : List (Event F))
          → All (λ e. IsInRange e.priority) ss
          → (m : Match F) × (match_task (record { submit = ss; schedule = cs; finish = fs }) ≡ ok m)
            × IsFine m
      go [] cs fs small = (no_submit, refl, tt)
      go (s ∷ ss) [] fs small = (no_schedule, refl, tt)
      go (s ∷ ss) (c ∷ cs) [] small = (no_finish, refl, tt)
      go (s ∷ ss) (c ∷ cs) (f ∷ fs) small =
          let submit = earliest s ss in
          let schedule = pick_schedule submit c cs (from_time submit.time (c ∷ cs)) in
          with_finish-IsFine submit schedule (from_time schedule.time (f ∷ fs))
            (earliest-All (λ e. IsInRange e.priority) s ss small.0 small.1)
            (from_time-late schedule.time (f ∷ fs))
