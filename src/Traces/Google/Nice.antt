-- ===== src/Traces/Google/Nice.antt =====
-- The nice values that `map_priority_to_nice` returns (extract_google_v3.py).
use scheduler_simulator.Prelude.{
  subst, sym, if◌then◌else◌, ℕ, ◌<◌, ◌≡◌, true, ℤ, pos, ◌≤ℤ◌, ltb_ℤ, leb_ℤ, arith, Bool-cases, inl,
  inr,
}
use scheduler_simulator.Python.{ok}
use scheduler_simulator.Traces.Google.{neg, scale, in_tier, map_priority_to_nice}
use scheduler_simulator.Traces.Google.Tiers.{
  tier, IsAntitone, IsBetween, pieces-IsAntitone, tier-IsAntitone, tier-IsBetween, if-IsBetween,
  wider,
}

abbrev free : ℤ → ℤ
free = tier (pos 10) (pos 19) (pos 19) (pos 0) 9 99

abbrev best_effort : ℤ → ℤ
best_effort = tier (pos 5) (pos 9) (pos 9) (pos 100) 4 15

abbrev middle : ℤ → ℤ
middle = tier (pos 1) (pos 4) (pos 4) (pos 116) 3 3

abbrev production : ℤ → ℤ
production = tier (neg 10) (pos 0) (pos 0) (pos 120) 10 239

abbrev monitoring : ℤ → ℤ
monitoring = tier (neg 20) (neg 11) (neg 11) (pos 360) 9 140

abbrev from_production : ℤ → ℤ
from_production v = if leb_ℤ v (pos 359) then production v else monitoring v

abbrev from_middle : ℤ → ℤ
from_middle v = if leb_ℤ v (pos 119) then middle v else from_production v

abbrev from_best_effort : ℤ → ℤ
from_best_effort v = if leb_ℤ v (pos 115) then best_effort v else from_middle v

-- The nice value, without the bound of the division.
abbrev pub from_free : ℤ → ℤ
from_free v = if ltb_ℤ v (pos 100) then free v else from_best_effort v

in_tier-ok :
    (low high base start : ℤ) (m d : ℕ) (v n : ℤ)
    → in_tier low high base start m d v ≡ ok n
    → n ≡ tier low high base start m d v
unfolding in_tier scale tier
in_tier-ok low high base start m d v n h = ground (arith, h)

map_priority_to_nice-from_free : (v n : ℤ) → map_priority_to_nice v ≡ ok n → n ≡ from_free v
unfolding map_priority_to_nice
map_priority_to_nice-from_free v n h = elim (Bool-cases (ltb_ℤ v (pos 100))) [
  | inl e ↦ rw e (in_tier-ok (pos 10) (pos 19) (pos 19) (pos 0) 9 99 v n (ground (arith, h)))
  | inr a ↦ elim (Bool-cases (leb_ℤ v (pos 115))) [
    | inl e ↦ rw (a, e) (in_tier-ok (pos 5) (pos 9) (pos 9) (pos 100) 4 15 v n (ground (arith, h)))
    | inr b ↦ elim (Bool-cases (leb_ℤ v (pos 119))) [
      | inl e ↦
          rw (a, b, e) (in_tier-ok (pos 1) (pos 4) (pos 4) (pos 116) 3 3 v n (ground (arith, h)))
      | inr c ↦ elim (Bool-cases (leb_ℤ v (pos 359))) [
        | inl e ↦
            rw (a, b, c, e)
              (in_tier-ok (neg 10) (pos 0) (pos 0) (pos 120) 10 239 v n (ground (arith, h)))
        | inr e ↦
            rw (a, b, c, e)
              (in_tier-ok (neg 20) (neg 11) (neg 11) (pos 360) 9 140 v n (ground (arith, h)))
      ]
    ]
  ]
]

production-IsBetween : (v : ℤ) → IsBetween (neg 20) (pos 0) (from_production v)
production-IsBetween v =
    if-IsBetween (leb_ℤ v (pos 359)) (neg 20) (pos 0) (production v) (monitoring v)
      (tier-IsBetween (neg 10) (pos 0) (pos 0) (pos 120) 10 239 (neg 20) (pos 0) (omega arith)
        (omega arith) (omega arith) v)
      (tier-IsBetween (neg 20) (neg 11) (neg 11) (pos 360) 9 140 (neg 20) (pos 0) (omega arith)
        (omega arith) (omega arith) v)

middle-IsBetween : (v : ℤ) → IsBetween (neg 20) (pos 4) (from_middle v)
middle-IsBetween v =
    if-IsBetween (leb_ℤ v (pos 119)) (neg 20) (pos 4) (middle v) (from_production v)
      (tier-IsBetween (pos 1) (pos 4) (pos 4) (pos 116) 3 3 (neg 20) (pos 4) (omega arith)
        (omega arith) (omega arith) v)
      (wider (neg 20) (pos 0) (pos 4) (from_production v) (omega arith) (production-IsBetween v))

best_effort-IsBetween : (v : ℤ) → IsBetween (neg 20) (pos 9) (from_best_effort v)
best_effort-IsBetween v =
    if-IsBetween (leb_ℤ v (pos 115)) (neg 20) (pos 9) (best_effort v) (from_middle v)
      (tier-IsBetween (pos 5) (pos 9) (pos 9) (pos 100) 4 15 (neg 20) (pos 9) (omega arith)
        (omega arith) (omega arith) v)
      (wider (neg 20) (pos 4) (pos 9) (from_middle v) (omega arith) (middle-IsBetween v))

free-IsBetween : (v : ℤ) → IsBetween (neg 20) (pos 19) (from_free v)
free-IsBetween v =
    if-IsBetween (ltb_ℤ v (pos 100)) (neg 20) (pos 19) (free v) (from_best_effort v)
      (tier-IsBetween (pos 10) (pos 19) (pos 19) (pos 0) 9 99 (neg 20) (pos 19) (omega arith)
        (omega arith) (omega arith) v)
      (wider (neg 20) (pos 9) (pos 19) (from_best_effort v) (omega arith) (best_effort-IsBetween v))

-- Every nice value that is returned is in the range -20 to 19, whatever the priority.
pub map_priority_to_nice-IsBetween :
    (v nice : ℤ) → map_priority_to_nice v ≡ ok nice → IsBetween (neg 20) (pos 19) nice
map_priority_to_nice-IsBetween v nice h =
    subst (IsBetween (neg 20) (pos 19)) (sym (map_priority_to_nice-from_free v nice h))
      (free-IsBetween v)

below-down : (c v w : ℤ) → v ≤ℤ w → leb_ℤ w c ≡ true → leb_ℤ v c ≡ true
below-down c v w h e = ground arith

at_least : (low high v : ℤ) → IsBetween low high v → low ≤ℤ v
unfolding IsBetween
at_least low high v p = p.0

-- A tier and what comes behind it, which is lower.
tier_then-IsAntitone :
    (c low high base start : ℤ) (m d : ℕ) (k : ℤ → ℤ)
    → low ≤ℤ high
    → 0 < d
    → IsAntitone k
    → ((v : ℤ) → k v ≤ℤ low)
    → IsAntitone (λ v. if leb_ℤ v c then tier low high base start m d v else k v)
tier_then-IsAntitone c low high base start m d k le full k_falls below =
    pieces-IsAntitone (λ v. leb_ℤ v c) (tier low high base start m d) k low (below-down c)
      (tier-IsAntitone low high base start m d le full) k_falls
      (λ v.
        at_least low high (tier low high base start m d v)
          (tier-IsBetween low high base start m d low high (omega arith) le (omega arith) v))
      below

at_most : (low high high' v : ℤ) → high ≤ℤ high' → IsBetween low high v → v ≤ℤ high'
unfolding IsBetween
at_most low high high' v h (p, q) = omega (arith, q, h)

production-IsAntitone : IsAntitone from_production
production-IsAntitone =
    tier_then-IsAntitone (pos 359) (neg 10) (pos 0) (pos 0) (pos 120) 10 239 monitoring
      (omega arith) (omega arith)
      (tier-IsAntitone (neg 20) (neg 11) (neg 11) (pos 360) 9 140 (omega arith) (omega arith))
      (λ v. at_most (neg 20) (neg 11) (neg 10) (monitoring v) (omega arith) (
        tier-IsBetween (neg 20) (neg 11) (neg 11) (pos 360) 9 140 (neg 20) (neg 11) (omega arith)
          (omega arith) (omega arith) v))

middle-IsAntitone : IsAntitone from_middle
middle-IsAntitone =
    tier_then-IsAntitone (pos 119) (pos 1) (pos 4) (pos 4) (pos 116) 3 3 from_production
      (omega arith) (omega arith) production-IsAntitone
      (λ v.
        at_most (neg 20) (pos 0) (pos 1) (from_production v) (omega arith) (production-IsBetween v))

best_effort-IsAntitone : IsAntitone from_best_effort
best_effort-IsAntitone =
    tier_then-IsAntitone (pos 115) (pos 5) (pos 9) (pos 9) (pos 100) 4 15 from_middle (omega arith)
      (omega arith) middle-IsAntitone
      (λ v. at_most (neg 20) (pos 4) (pos 5) (from_middle v) (omega arith) (middle-IsBetween v))

below_or_equal : (v : ℤ) → ltb_ℤ v (pos 100) ≡ leb_ℤ v (pos 99)
below_or_equal v = ground arith

all_tiers-IsAntitone : IsAntitone (λ v. if leb_ℤ v (pos 99) then free v else from_best_effort v)
all_tiers-IsAntitone =
    tier_then-IsAntitone (pos 99) (pos 10) (pos 19) (pos 19) (pos 0) 9 99 from_best_effort
      (omega arith) (omega arith) best_effort-IsAntitone
      (λ v.
        at_most (neg 20) (pos 9) (pos 10) (from_best_effort v) (omega arith)
          (best_effort-IsBetween v))

from_free-IsAntitone : IsAntitone from_free
from_free-IsAntitone v w h = rw (below_or_equal v, below_or_equal w) (all_tiers-IsAntitone v w h)

-- A higher priority never gets a higher nice value, if both are returned.
pub map_priority_to_nice-IsAntitone :
    (v w a b : ℤ) → v ≤ℤ w → map_priority_to_nice v ≡ ok a → map_priority_to_nice w ≡ ok b → b ≤ℤ a
map_priority_to_nice-IsAntitone v w a b le h k =
    rw (map_priority_to_nice-from_free v a h, map_priority_to_nice-from_free w b k)
      (from_free-IsAntitone v w le)
