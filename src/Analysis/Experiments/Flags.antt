-- ===== src/Analysis/Experiments/Flags.antt =====
-- What the six flags say of the experiment ids (scripts/aggregate_results.py).
use scheduler_simulator.Prelude.{
  ℕ, zero, suc, ◌+◌, ◌-◌, ◌<◌, ◌≡◌, refl, sym, ◌∙◌, ◌⊎◌, Bool, true, false, Bool-cases, ◌==◌, none,
  some, List, [], ◌∷◌, if◌then◌else◌, Text, set, get_elem?, length, any, Option-cases, inl, inr,
  arith,
}
use scheduler_simulator.Analysis.Experiments.{
  exp_number, set_flag, set_flags, no_flags, experiment_flags,
}
use scheduler_simulator.Analysis.Experiments.Names.{Names, Names-exp_number, exp_number-Names}

-- An id counts for experiment n.
unfoldable pub is_for : ℕ → Text → Bool
is_for n exp_id = elim (exp_number exp_id) [ none ↦ false | some idx ↦ idx == n ]

set-length : (flags : List ℕ) (i v : ℕ) → length (set flags i v) ≡ length flags
set-length [] i v = refl
set-length (f ∷ flags) zero v = refl
set-length (f ∷ flags) (suc i) v = ground (arith, set-length flags i v)

get_elem?-set :
    (flags : List ℕ) (i j v : ℕ)
    → j < length flags
    → get_elem? (set flags i v) j ≡ (if i == j then some v else get_elem? flags j)
get_elem?-set [] i j v h = absurd (omega arith)
get_elem?-set (f ∷ flags) zero zero v h = refl
get_elem?-set (f ∷ flags) zero (suc j) v h = ground arith
get_elem?-set (f ∷ flags) (suc i) zero v h = ground arith
get_elem?-set (f ∷ flags) (suc i) (suc j) v h = ground (arith, get_elem?-set flags i j v)

set_flag-get_elem? :
    (exp_id : Text) (flags : List ℕ) (i : ℕ)
    → length flags ≡ 6
    → i < 6
    → (length (set_flag exp_id flags) ≡ 6)
      × (get_elem? (set_flag exp_id flags) i
          ≡ (if is_for (i + 1) exp_id then some 1 else get_elem? flags i))
unfolding set_flag is_for
set_flag-get_elem? exp_id flags i six lt = elim (Option-cases (exp_number exp_id)) [
  | inl absent ↦ rw (absent, set_flag, is_for) (six, refl)
  | inr (idx, found) ↦
      rw (found, set_flag, is_for)
        (
          ground (arith, set-length flags (idx - 1) 1),
          ground (arith, get_elem?-set flags (idx - 1) i 1),
        )
]

set_flags-get_elem? :
    (ids : List Text) (flags : List ℕ) (i : ℕ)
    → length flags ≡ 6
    → i < 6
    → get_elem? (set_flags ids flags) i
      ≡ (if any (is_for (i + 1)) ids then some 1 else get_elem? flags i)
unfolding set_flags
set_flags-get_elem? [] flags i six lt = refl
set_flags-get_elem? (exp_id ∷ ids) flags i six lt =
    let (six', here) = set_flag-get_elem? exp_id flags i six lt in
    set_flags-get_elem? ids (set_flag exp_id flags) i six' lt ∙ ground (arith, here)

set_flags-length :
    (ids : List Text) (flags : List ℕ) → length flags ≡ 6 → length (set_flags ids flags) ≡ 6
unfolding set_flags
set_flags-length [] flags six = six
set_flags-length (exp_id ∷ ids) flags six =
    set_flags-length ids (set_flag exp_id flags)
      ((set_flag-get_elem? exp_id flags 0 six (omega arith)).0)

-- Six numbers, one by one.
abbrev pub SixFlags : List ℕ → Type 0
SixFlags flags = (a b c d e f : ℕ) × (flags ≡ a ∷ b ∷ c ∷ d ∷ e ∷ f ∷ [])

length-SixFlags : (flags : List ℕ) → length flags ≡ 6 → SixFlags flags
length-SixFlags (a ∷ b ∷ c ∷ d ∷ e ∷ f ∷ []) six = (a, b, c, d, e, f, refl)
length-SixFlags _ six = absurd (ground arith)

pub experiment_flags-SixFlags : (ids : List Text) → SixFlags (experiment_flags ids)
unfolding experiment_flags
experiment_flags-SixFlags ids =
    length-SixFlags (set_flags ids no_flags) (set_flags-length ids no_flags refl)

-- One of the ids names the number n.
abbrev pub OneNames : (n : ℕ) → List Text → Type 0
OneNames n [] = ⊥
OneNames n (exp_id ∷ ids) = Names n exp_id ⊎ OneNames n ids

is_for-Names : (n : ℕ) (exp_id : Text) → is_for n exp_id ≡ true → Names n exp_id
unfolding is_for
is_for-Names n exp_id h = elim (Option-cases (exp_number exp_id)) [
  | inl absent ↦ absurd (ground arith)
  | inr (idx, found) ↦ exp_number-Names n exp_id (ground arith)
]

Names-is_for : (n : ℕ) (exp_id : Text) → Names n exp_id → is_for n exp_id ≡ true
unfolding is_for
Names-is_for n exp_id h = ground (arith, Names-exp_number n exp_id h)

any-OneNames : (n : ℕ) (ids : List Text) → any (is_for n) ids ≡ true → OneNames n ids
any-OneNames n [] h = absurd (cc)
any-OneNames n (exp_id ∷ ids) h = elim (Bool-cases (is_for n exp_id)) [
  | inl here ↦ inl (is_for-Names n exp_id here)
  | inr later ↦ inr (any-OneNames n ids (ground arith))
]

OneNames-any : (n : ℕ) (ids : List Text) → OneNames n ids → any (is_for n) ids ≡ true
OneNames-any n [] h = absurd h
OneNames-any n (exp_id ∷ ids) (inl here) = ground (arith, Names-is_for n exp_id here)
OneNames-any n (exp_id ∷ ids) (inr later) = ground (arith, OneNames-any n ids later)

any-flag :
    (ids : List Text) (i : ℕ)
    → i < 6
    → get_elem? (experiment_flags ids) i ≡ some (if any (is_for (i + 1)) ids then 1 else 0)
unfolding experiment_flags
any-flag ids i lt = set_flags-get_elem? ids no_flags i refl lt ∙ ground (arith, zeros i lt)
  where
    zeros : (j : ℕ) → j < 6 → get_elem? no_flags j ≡ some 0
    zeros zero h = refl
    zeros (suc zero) h = refl
    zeros (suc (suc zero)) h = refl
    zeros (suc (suc (suc zero))) h = refl
    zeros (suc (suc (suc (suc zero)))) h = refl
    zeros (suc (suc (suc (suc (suc zero))))) h = refl
    zeros (suc (suc (suc (suc (suc (suc j)))))) h = absurd (omega arith)

-- Flag i of the six, counted from 1, is 1 if one of the ids names the number i: in lower case it
-- starts with "exp" and digits of Unicode that stand for i, after which no digit follows. It is 0 if
-- none of the ids does.
pub experiment_flags-get_elem? :
    (ids : List Text) (i : ℕ)
    → i < 6
    → ((get_elem? (experiment_flags ids) i ≡ some 1) × OneNames (i + 1) ids)
      ⊎ ((get_elem? (experiment_flags ids) i ≡ some 0) × ¬ OneNames (i + 1) ids)
experiment_flags-get_elem? ids i lt = elim (Bool-cases (any (is_for (i + 1)) ids)) [
  | inl hit ↦ inl (any-flag ids i lt ∙ rw hit refl, any-OneNames (i + 1) ids hit)
  | inr miss ↦ inr (
    any-flag ids i lt ∙ rw miss refl,
    λ named. let clash : true ≡ false = sym (OneNames-any (i + 1) ids named) ∙ miss in cc,
  )
]
