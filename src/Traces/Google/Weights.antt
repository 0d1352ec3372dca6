-- ===== src/Traces/Google/Weights.antt =====
-- For which priorities `map_priority_to_nice` returns, and the weights of what it returns
-- (extract_google_v3.py).
use scheduler_simulator.Prelude.{
  leb, ◌&&◌, ◌+ℤ◌, ◌-ℤ◌, ◌*◌, ◌⊎◌, none, some, lookup, eq_ℤ, eq_ℤ→eq, Option-cases, subst, sym, ◌∙◌,
  ◌+◌, ℕ, zero, suc, ◌≤◌, ◌<◌, ◌≡◌, refl, Bool, true, false, ℤ, pos, ◌≤ℤ◌, leb_ℤ, ltb_ℤ, ltb,
  pos_part, neg_part, arith, Bool-cases, inl, inr, on_if,
}
use scheduler_simulator.Python.{Exception, Result, ok, err, overflow_error}
use scheduler_simulator.Traces.Google.{
  cfs_weights, neg, clamp, truncated, scale, float_limit, in_tier, map_priority_to_nice,
}
use scheduler_simulator.Traces.Google.Tiers.{IsBetween}
use scheduler_simulator.Traces.Google.Nice.{map_priority_to_nice-IsBetween}

-- The weights of all nice values, looked up one after the other.
weights_from : ℕ → ℤ → Bool
weights_from zero v = true
weights_from (suc n) v =
    let rest = weights_from n (v +ℤ pos 1) in
    elim (lookup eq_ℤ v cfs_weights) [ none ↦ false | some weight ↦ leb 15 weight && rest ]

weights_from-found :
    (n : ℕ) (low v : ℤ)
    → weights_from n low ≡ true
    → low ≤ℤ v
    → v +ℤ pos 1 ≤ℤ low +ℤ pos n
    → (weight : ℕ) × (lookup eq_ℤ v cfs_weights ≡ some weight) × (15 ≤ weight)
unfolding weights_from
weights_from-found zero low v h p q = absurd (ground arith)
weights_from-found (suc n) low v h p q = elim (Option-cases (lookup eq_ℤ low cfs_weights)) [
  | inl absent ↦ absurd (ground arith)
  | inr (weight, present) ↦ elim (Bool-cases (eq_ℤ low v)) [
    | inl hit ↦ (
      weight,
      subst (λ x. lookup eq_ℤ x cfs_weights ≡ some weight) (eq_ℤ→eq low v hit) present,
      ground arith,
    )
    | inr miss ↦ weights_from-found n (low +ℤ pos 1) v (ground arith) (ground arith) (ground arith)
  ]
]

all_weights : weights_from 40 (neg 20) ≡ true
unfolding weights_from cfs_weights lookup
all_weights = refl

pub weight-found :
    (v nice : ℤ)
    → map_priority_to_nice v ≡ ok nice
    → (weight : ℕ) × (lookup eq_ℤ nice cfs_weights ≡ some weight) × (15 ≤ weight)
unfolding IsBetween
weight-found v nice h =
    let (above, below) = map_priority_to_nice-IsBetween v nice h in
    weights_from-found 40 (neg 20) nice all_weights above (ground (arith, below))

-- A priority between minus and plus 2 ^ 1024 - 2 ^ 970.
unfoldable pub IsInRange : ℤ → Type 0
IsInRange v = pos_part v + neg_part v ≤ float_limit

float_limit_large : 1000 ≤ float_limit
unfolding float_limit
float_limit_large = omega arith

lt→ltb : (a b : ℕ) → a < b → ltb a b ≡ true
lt→ltb a b h = ground arith

-- The branch returns, if the division is in range.
in_tier-returns :
    (low high base start : ℤ) (m d : ℕ) (v : ℤ)
    → (pos_part (v -ℤ start) + neg_part (v -ℤ start)) * m < d * float_limit
    → (n : ℤ) × (in_tier low high base start m d v ≡ ok n)
unfolding in_tier scale
in_tier-returns low high base start m d v small =
    (clamp low high (base -ℤ truncated (v -ℤ start) m d), rw (lt→ltb _ _ small) refl)

in_tier-overflow :
    (low high base start : ℤ) (m d : ℕ) (v : ℤ) (e : Exception)
    → in_tier low high base start m d v ≡ err e
    → e ≡ overflow_error
unfolding in_tier scale
in_tier-overflow low high base start m d v e h = ground (arith, h)

pub map_priority_to_nice-overflow :
    (v : ℤ) (e : Exception) → map_priority_to_nice v ≡ err e → e ≡ overflow_error
unfolding map_priority_to_nice
map_priority_to_nice-overflow v e h =
    on_if (ltb_ℤ v (pos 100)) _ _ h
      (λ _ k. in_tier-overflow (pos 10) (pos 19) (pos 19) (pos 0) 9 99 v e k)
      λ _ h1.
        on_if (leb_ℤ v (pos 115)) _ _ h1
          (λ _ k. in_tier-overflow (pos 5) (pos 9) (pos 9) (pos 100) 4 15 v e k)
          λ _ h2.
            on_if (leb_ℤ v (pos 119)) _ _ h2
              (λ _ k. in_tier-overflow (pos 1) (pos 4) (pos 4) (pos 116) 3 3 v e k)
              λ _ h3.
                on_if (leb_ℤ v (pos 359)) _ _ h3
                  (λ _ k. in_tier-overflow (neg 10) (pos 0) (pos 0) (pos 120) 10 239 v e k)
                  (λ _ k. in_tier-overflow (neg 20) (neg 11) (neg 11) (pos 360) 9 140 v e k)

pub map_priority_to_nice-returns :
    (v : ℤ) → IsInRange v → (nice : ℤ) × (map_priority_to_nice v ≡ ok nice)
unfolding map_priority_to_nice IsInRange
map_priority_to_nice-returns v small = elim (Bool-cases (ltb_ℤ v (pos 100))) [
  | inl e ↦ rw e (
      in_tier-returns (pos 10) (pos 19) (pos 19) (pos 0) 9 99 v (ground (arith, float_limit_large)))
  | inr a ↦ elim (Bool-cases (leb_ℤ v (pos 115))) [
    | inl e ↦
        rw (a, e)
          (in_tier-returns (pos 5) (pos 9) (pos 9) (pos 100) 4 15 v
            (ground (arith, float_limit_large)))
    | inr b ↦ elim (Bool-cases (leb_ℤ v (pos 119))) [
      | inl e ↦
          rw (a, b, e)
            (in_tier-returns (pos 1) (pos 4) (pos 4) (pos 116) 3 3 v
              (ground (arith, float_limit_large)))
      | inr c ↦ elim (Bool-cases (leb_ℤ v (pos 359))) [
        | inl e ↦
            rw (a, b, c, e)
              (in_tier-returns (neg 10) (pos 0) (pos 0) (pos 120) 10 239 v
                (ground (arith, float_limit_large)))
        | inr e ↦
            rw (a, b, c, e)
              (in_tier-returns (neg 20) (neg 11) (neg 11) (pos 360) 9 140 v
                (ground (arith, float_limit_large)))
      ]
    ]
  ]
]

-- A priority has a nice value with a weight: it is returned, and it is a key of the table with a weight
-- of at least 15. Or the mapping raises OverflowError, which happens only for priorities above
-- 2 ^ 1024 - 2 ^ 970 or below its negative.
pub map_priority_to_nice-weight :
    (v : ℤ)
    → ((nice : ℤ) × (weight : ℕ) × (map_priority_to_nice v ≡ ok nice)
        × (lookup eq_ℤ nice cfs_weights ≡ some weight)
        × (15 ≤ weight))
      ⊎ ((map_priority_to_nice v ≡ err overflow_error) × ¬ IsInRange v)
map_priority_to_nice-weight v = go (map_priority_to_nice v) refl
  where
    go :
        (r : Result ℤ)
        → map_priority_to_nice v ≡ r
        → ((nice : ℤ) × (weight : ℕ) × (map_priority_to_nice v ≡ ok nice)
            × (lookup eq_ℤ nice cfs_weights ≡ some weight)
            × (15 ≤ weight))
          ⊎ ((map_priority_to_nice v ≡ err overflow_error) × ¬ IsInRange v)
    go (ok nice) h =
        let (weight, found, least) = weight-found v nice h in inl (nice, weight, h, found, least)
    go (err e) h = inr (
      subst (λ x. map_priority_to_nice v ≡ err x) (map_priority_to_nice-overflow v e h) h,
      λ small.
          let (nice, returned) = map_priority_to_nice-returns v small in
          let clash : err e ≡ ok nice = sym h ∙ returned in absurd (cc),
    )
