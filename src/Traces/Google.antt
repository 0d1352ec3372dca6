-- ===== src/Traces/Google.antt =====
-- real-time-workloads/google_v3/extract_google_v3.py: priorities to nice values and weights, and the
-- matching of the events of a task. A quotient of integers that is truncated at once is written
-- as integer division: the rounding of the division does not change it for the priorities up to
-- the bounds of the tiers, and beyond them the result is cut to the bounds of the tier. A quotient
-- that rounds to 2 ^ 1024 or more, which is from `float_limit` on, raises OverflowError.
pub mod Tiers
pub mod Nice
pub mod Weights
use scheduler_simulator.Prelude.{
  ℕ, zero, suc, ◌+◌, ◌*◌, ◌/◌, Bool, true, false, Option, none, some, List, [], ◌∷◌, if◌then◌else◌,
  ℤ, pos, negsuc, ◌-ℤ◌, ltb_ℤ, leb_ℤ, eq_ℤ, Dict, lookup, ltb, ◌^◌, ◌-◌, pos_part, neg_part,
}
use scheduler_simulator.Python.{Result, ok, err, ◌>>=◌, overflow_error}

-- -n
abbrev pub neg : ℕ → ℤ
neg zero = pos 0
neg (suc n) = negsuc n

-- v * m / d, cut to an integer
unfoldable pub truncated : ℤ → (m d : ℕ) → ℤ
truncated (pos n) m d = pos (n * m / d)
truncated (negsuc n) m d = neg (suc n * m / d)

-- Halfway from the largest double to 2 ^ 1024.
unfoldable pub float_limit : ℕ
float_limit = 2 ^ 1024 - 2 ^ 970

-- int(v * m / d): the division of integers gives a double, or raises
unfoldable pub scale : ℤ → (m d : ℕ) → Result ℤ
scale v m d =
    if ltb ((pos_part v + neg_part v) * m) (d * float_limit)
    then ok (truncated v m d)
    else err overflow_error

-- max(low, min(high, v))
unfoldable pub clamp : (low high v : ℤ) → ℤ
clamp low high v = if ltb_ℤ v low then low else if ltb_ℤ high v then high else v

-- One of the branches: max(low, min(high, base - int((v - start) * m / d)))
unfoldable pub in_tier : (low high base start : ℤ) (m d : ℕ) → ℤ → Result ℤ
in_tier low high base start m d v = do
  steps ← scale (v -ℤ start) m d
  ok (clamp low high (base -ℤ steps))

unfoldable pub map_priority_to_nice : ℤ → Result ℤ
map_priority_to_nice v =
    if ltb_ℤ v (pos 100)
    then in_tier (pos 10) (pos 19) (pos 19) (pos 0) 9 99 v
    else if leb_ℤ v (pos 115)
    then in_tier (pos 5) (pos 9) (pos 9) (pos 100) 4 15 v
    else if leb_ℤ v (pos 119)
    then in_tier (pos 1) (pos 4) (pos 4) (pos 116) 3 3 v
    else if leb_ℤ v (pos 359)
    then in_tier (neg 10) (pos 0) (pos 0) (pos 120) 10 239 v
    else in_tier (neg 20) (neg 11) (neg 11) (pos 360) 9 140 v

-- CFS_WEIGHTS
unfoldable pub cfs_weights : Dict ℤ ℕ
cfs_weights =
    (neg 20, 88761)
    ∷ (neg 19, 71755)
    ∷ (neg 18, 56483)
    ∷ (neg 17, 46273)
    ∷ (neg 16, 36291)
    ∷ (neg 15, 29154)
    ∷ (neg 14, 23254)
    ∷ (neg 13, 18705)
    ∷ (neg 12, 14949)
    ∷ (neg 11, 11916)
    ∷ (neg 10, 9548)
    ∷ (neg 9, 7620)
    ∷ (neg 8, 6100)
    ∷ (neg 7, 4904)
    ∷ (neg 6, 3906)
    ∷ (neg 5, 3121)
    ∷ (neg 4, 2501)
    ∷ (neg 3, 1991)
    ∷ (neg 2, 1586)
    ∷ (neg 1, 1277)
    ∷ (pos 0, 1024)
    ∷ (pos 1, 820)
    ∷ (pos 2, 655)
    ∷ (pos 3, 526)
    ∷ (pos 4, 423)
    ∷ (pos 5, 335)
    ∷ (pos 6, 272)
    ∷ (pos 7, 215)
    ∷ (pos 8, 172)
    ∷ (pos 9, 137)
    ∷ (pos 10, 110)
    ∷ (pos 11, 87)
    ∷ (pos 12, 70)
    ∷ (pos 13, 56)
    ∷ (pos 14, 45)
    ∷ (pos 15, 36)
    ∷ (pos 16, 29)
    ∷ (pos 17, 23)
    ∷ (pos 18, 18)
    ∷ (pos 19, 15)
    ∷ []
