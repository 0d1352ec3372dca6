-- ===== src/Analysis/Experiments/Names.antt =====
-- The number in an experiment id (scripts/aggregate_results.py), as `experiment_flags` reads it, against a
-- description of the texts with a number.
use scheduler_simulator.Prelude.{
  ℕ, ◌+◌, ◌*◌, ◌≡◌, refl, sym, ap, subst, ◌∙◌, Bool, true, false, ◌&&◌, ◌==◌, none, some, [], ◌∷◌,
  ◌++◌, if◌then◌else◌, Text, is_empty, lower, Option-cases, Bool-cases, inl, inr, arith,
}
use scheduler_simulator.Python.{default_to}
use scheduler_simulator.Analysis.Digits.{digit_of, is_digit}
use scheduler_simulator.Analysis.Experiments.{read_digits, match_number, exp_number}

-- The value of digits that are read from the last one.
unfoldable pub number_from_last : Text → ℕ
number_from_last [] = 0
number_from_last (c ∷ s) = number_from_last s * 10 + default_to (digit_of c) 0

abbrev pub reverse_onto : Text → Text → Text
reverse_onto [] r = r
reverse_onto (c ∷ s) r = reverse_onto s (c ∷ r)

abbrev pub all_digits : Text → Bool
all_digits [] = true
all_digits (c ∷ s) = is_digit c && all_digits s

abbrev pub starts_with_digit : Text → Bool
starts_with_digit [] = false
starts_with_digit (c ∷ s) = is_digit c

-- In lower case the id is "exp", digits, at least one, that stand for n, and whatever follows, which does
-- not go on with a digit.
pub record Names (n : ℕ) (exp_id : Text) : Type 0 where
  pub digits : Text
  pub rest : Text
  pub spelled : lower exp_id ≡ b'e' ∷ b'x' ∷ b'p' ∷ (digits ++ rest)
  pub some_digits : is_empty digits ≡ false
  pub only_digits : all_digits digits ≡ true
  pub ends : starts_with_digit rest ≡ false
  pub number : number_from_last (reverse_onto digits []) ≡ n

and_true : (a b : Bool) → a && b ≡ true → (a ≡ true) × (b ≡ true)
and_true true b h = (refl, h)
and_true false b h = absurd (cc)

all_digits-cons :
    (c : ℕ) (s : Text) → all_digits (c ∷ s) ≡ true → (is_digit c ≡ true) × (all_digits s ≡ true)
all_digits-cons c s h = and_true (is_digit c) (all_digits s) h

read_digits-number :
    (ds rest r : Text)
    → all_digits ds ≡ true
    → starts_with_digit rest ≡ false
    → read_digits (number_from_last r) (ds ++ rest) ≡ number_from_last (reverse_onto ds r)
unfolding read_digits number_from_last
read_digits-number [] [] r all ends = refl
read_digits-number [] (c ∷ rest) r all ends = elim (Option-cases (digit_of c)) [
  | inl absent ↦ rw (absent, read_digits) refl
  | inr (d, present) ↦ absurd (ground (arith, present))
]
read_digits-number (c ∷ ds) rest r all ends = elim (Option-cases (digit_of c)) [
  | inl absent ↦ absurd (ground (arith, absent, (all_digits-cons c ds all).0))
  | inr (d, present) ↦
      let next : number_from_last (c ∷ r) ≡ number_from_last r * 10 + d = rw present refl in
      rw (present, read_digits)
        (subst (λ m. read_digits m (ds ++ rest) ≡ number_from_last (reverse_onto ds (c ∷ r))) next
          (read_digits-number ds rest (c ∷ r) (all_digits-cons c ds all).1 ends))
]

leading : Text → Text
leading [] = []
leading (c ∷ s) = let rest = leading s in if is_digit c then c ∷ rest else []

trailing : Text → Text
trailing [] = []
trailing (c ∷ s) = let rest = trailing s in if is_digit c then rest else c ∷ s

leading-all_digits : (s : Text) → all_digits (leading s) ≡ true
unfolding leading
leading-all_digits [] = refl
leading-all_digits (c ∷ s) = elim (Bool-cases (is_digit c)) [
  | inl digit ↦ rw digit (rw digit (leading-all_digits s))
  | inr other ↦ rw other refl
]

trailing-ends : (s : Text) → starts_with_digit (trailing s) ≡ false
unfolding trailing
trailing-ends [] = refl
trailing-ends (c ∷ s) = elim (Bool-cases (is_digit c)) [
  | inl digit ↦ rw digit (trailing-ends s)
  | inr other ↦ rw other other
]

leading-trailing : (s : Text) → leading s ++ trailing s ≡ s
unfolding leading trailing
leading-trailing [] = refl
leading-trailing (c ∷ s) = elim (Bool-cases (is_digit c)) [
  | inl digit ↦ rw digit (ap (λ t. c ∷ t) (leading-trailing s))
  | inr other ↦ rw other refl
]

leading-is_empty : (c : ℕ) (s : Text) → is_digit c ≡ true → is_empty (leading (c ∷ s)) ≡ false
unfolding leading
leading-is_empty c s digit = rw digit refl

zero_first :
    (ds rest : Text)
    → all_digits ds ≡ true
    → starts_with_digit rest ≡ false
    → read_digits 0 (ds ++ rest) ≡ number_from_last (reverse_onto ds [])
unfolding number_from_last
zero_first ds rest all ends = read_digits-number ds rest [] all ends

match_number-exp :
    (c : ℕ) (s : Text)
    → is_digit c ≡ true
    → match_number (b'e' ∷ b'x' ∷ b'p' ∷ c ∷ s) ≡ some (read_digits 0 (c ∷ s))
unfolding match_number
match_number-exp c s digit = rw digit refl

is_exp :
    (e x p : ℕ) (b : Bool) (m n : ℕ)
    → (if e == b'e' && x == b'x' && p == b'p' && b then some m else none) ≡ some n
    → (e ≡ b'e') × (x ≡ b'x') × (p ≡ b'p') × (b ≡ true) × (m ≡ n)
is_exp e x p b m n h = ground arith

-- The code finds the number n exactly in the ids that name it: this is one direction.
pub Names-exp_number : (n : ℕ) (exp_id : Text) → Names n exp_id → exp_number exp_id ≡ some n
unfolding exp_number
Names-exp_number n exp_id h =
    ap match_number h.spelled ∙ found h.digits h.some_digits h.only_digits h.number
  where
    found :
        (ds : Text)
        → is_empty ds ≡ false
        → all_digits ds ≡ true
        → number_from_last (reverse_onto ds []) ≡ n
        → match_number (b'e' ∷ b'x' ∷ b'p' ∷ (ds ++ h.rest)) ≡ some n
    found [] e all number = absurd (cc)
    found (c ∷ ds) e all number =
        match_number-exp c (ds ++ h.rest) (all_digits-cons c ds all).0
        ∙ ap some (zero_first (c ∷ ds) h.rest all h.ends ∙ number)

-- And this the other.
pub exp_number-Names : (n : ℕ) (exp_id : Text) → exp_number exp_id ≡ some n → Names n exp_id
unfolding exp_number match_number
exp_number-Names n exp_id h = from (lower exp_id) refl h
  where
    from : (t : Text) → lower exp_id ≡ t → match_number t ≡ some n → Names n exp_id
    from (e ∷ x ∷ p ∷ c ∷ s) same found =
        let (e1, e2, e3, digit, value) =
          is_exp e x p (is_digit c) (read_digits 0 (c ∷ s)) n found in
        record {
          digits = leading (c ∷ s);
          rest = trailing (c ∷ s);
          spelled = same ∙ rw (e1, e2, e3, leading-trailing (c ∷ s)) refl;
          some_digits = leading-is_empty c s digit;
          only_digits = leading-all_digits (c ∷ s);
          ends = trailing-ends (c ∷ s);
          number =
              sym (
                zero_first (leading (c ∷ s)) (trailing (c ∷ s)) (leading-all_digits (c ∷ s))
                  (trailing-ends (c ∷ s)))
              ∙ rw (leading-trailing (c ∷ s)) value;
        }
    from [] same found = absurd (cc)
    from (_ ∷ []) same found = absurd (cc)
    from (_ ∷ _ ∷ []) same found = absurd (cc)
    from (_ ∷ _ ∷ _ ∷ []) same found = absurd (cc)
