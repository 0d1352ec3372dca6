-- ===== src/Traces/Google/Tiers.antt =====
-- The tiers of the nice values without the bound of the division (extract_google_v3.py,
-- `map_priority_to_nice`): they fall and stay in their ranges.
use scheduler_simulator.Prelude.{
  pos_part, neg_part, if◌then◌else◌, ◌*◌, ◌/◌, ℕ, zero, suc, ◌<◌, ◌≤◌, ◌≡◌, refl, Bool, true, false,
  ℤ, pos, negsuc, ◌-ℤ◌, ◌≤ℤ◌, arith, Bool-cases, inl, inr,
}
use native.Mathlib.Nat.{div-mul-le_self, le-div_iff_mul-le, mul-le-mul_right}
use scheduler_simulator.Traces.Google.{neg, truncated, clamp}

neg-parts : (n : ℕ) → (pos_part (neg n) ≡ 0) × (neg_part (neg n) ≡ n)
neg-parts zero = (refl, refl)
neg-parts (suc n) = (refl, refl)

-- Larger arguments have smaller values.
abbrev pub IsAntitone : (ℤ → ℤ) → Type 0
IsAntitone f = (v w : ℤ) → v ≤ℤ w → f w ≤ℤ f v

-- The test holds below a bound, g falls and stays above `mid`, and k falls and stays below it.
pub pieces-IsAntitone :
    (test : ℤ → Bool) (g k : ℤ → ℤ) (mid : ℤ)
    → ((v w : ℤ) → v ≤ℤ w → test w ≡ true → test v ≡ true)
    → IsAntitone g
    → IsAntitone k
    → ((v : ℤ) → mid ≤ℤ g v)
    → ((v : ℤ) → k v ≤ℤ mid)
    → IsAntitone (λ v. if test v then g v else k v)
pieces-IsAntitone test g k mid down g_falls k_falls above below v w h = elim (Bool-cases (test w)) [
  | inl e ↦ rw (e, down v w h e) (g_falls v w h)
  | inr e ↦ elim (Bool-cases (test v)) [
    | inl d ↦ rw (e, d) (omega (arith, above v, below w))
    | inr d ↦ rw (e, d) (k_falls v w h)
  ]
]

clamp-between :
    (low high v : ℤ) → low ≤ℤ high → (low ≤ℤ clamp low high v) × (clamp low high v ≤ℤ high)
unfolding clamp
clamp-between low high v h = ground arith

clamp_mono : (low high v w : ℤ) → low ≤ℤ high → v ≤ℤ w → clamp low high v ≤ℤ clamp low high w
unfolding clamp
clamp_mono low high v w h le = ground arith

-- The nice value of a tier that starts at `start`.
unfoldable pub tier : (low high base start : ℤ) (m d : ℕ) → ℤ → ℤ
tier low high base start m d v = clamp low high (base -ℤ truncated (v -ℤ start) m d)

sub-IsAntitone : (a b c : ℤ) → b ≤ℤ c → a -ℤ c ≤ℤ a -ℤ b
sub-IsAntitone a b c h = ground arith

sub_mono : (v w c : ℤ) → v ≤ℤ w → v -ℤ c ≤ℤ w -ℤ c
sub_mono v w c h = ground arith

quotient_mono : (v w m d : ℕ) → 0 < d → v ≤ w → v * m / d ≤ w * m / d
quotient_mono v w m d full h =
    let small : v * m / d * d ≤ v * m = div-mul-le_self (v * m) d in
    let larger : v * m ≤ w * m = mul-le-mul_right m h in
    (le-div_iff_mul-le full).1 (omega (arith, small, larger))

truncated_mono : (v w : ℤ) (m d : ℕ) → 0 < d → v ≤ℤ w → truncated v m d ≤ℤ truncated w m d
unfolding truncated
truncated_mono (pos v) (pos w) m d full h = omega (arith, quotient_mono v w m d full (omega arith))
truncated_mono (pos v) (negsuc w) m d full h = absurd (omega arith)
truncated_mono (negsuc v) (pos w) m d full h = omega (arith, (neg-parts (suc v * m / d)).0)
truncated_mono (negsuc v) (negsuc w) m d full h = omega (
  arith,
  (neg-parts (suc v * m / d)).0,
  (neg-parts (suc w * m / d)).0,
  (neg-parts (suc v * m / d)).1,
  (neg-parts (suc w * m / d)).1,
  quotient_mono (suc w) (suc v) m d full (omega arith),
)

pub tier-IsAntitone :
    (low high base start : ℤ) (m d : ℕ)
    → low ≤ℤ high
    → 0 < d
    → IsAntitone (tier low high base start m d)
unfolding tier
tier-IsAntitone low high base start m d h full v w le =
    clamp_mono low high (base -ℤ truncated (w -ℤ start) m d) (base -ℤ truncated (v -ℤ start) m d) h
      (sub-IsAntitone base (truncated (v -ℤ start) m d) (truncated (w -ℤ start) m d)
        (truncated_mono (v -ℤ start) (w -ℤ start) m d full (sub_mono v w start le)))

unfoldable pub IsBetween : (low high v : ℤ) → Type 0
IsBetween low high v = (low ≤ℤ v) × (v ≤ℤ high)

pub if-IsBetween :
    (b : Bool) (low high v w : ℤ)
    → IsBetween low high v
    → IsBetween low high w
    → IsBetween low high (if b then v else w)
if-IsBetween true low high v w p q = p
if-IsBetween false low high v w p q = q

pub wider : (low high high' v : ℤ) → high ≤ℤ high' → IsBetween low high v → IsBetween low high' v
unfolding IsBetween
wider low high high' v h (p, q) = (p, omega (arith, q, h))

pub tier-IsBetween :
    (low high base start : ℤ) (m d : ℕ) (low' high' : ℤ)
    → low' ≤ℤ low
    → low ≤ℤ high
    → high ≤ℤ high'
    → (v : ℤ) → IsBetween low' high' (tier low high base start m d v)
unfolding tier IsBetween
tier-IsBetween low high base start m d low' high' p q r v =
    let (above, below) = clamp-between low high (base -ℤ truncated (v -ℤ start) m d) q in
    (omega (arith, above, p), omega (arith, below, r))
