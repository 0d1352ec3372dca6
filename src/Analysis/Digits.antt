-- ===== src/Analysis/Digits.antt =====
-- The decimal digits of Unicode 14, which `\d` in EXP_NUM_RE of scripts/aggregate_results.py matches and
-- `int` reads: each block of ten has a zero.
use scheduler_simulator.Prelude.{
  ℕ, ◌+◌, ◌-◌, ◌&&◌, leb, Bool, Option, none, some, List, [], ◌∷◌, if◌then◌else◌,
}
use scheduler_simulator.Python.{is_some}

abbrev digit_zeros : List ℕ
digit_zeros =
    48 ∷ 1632 ∷ 1776 ∷ 1984 ∷ 2406 ∷ 2534 ∷ 2662 ∷ 2790 ∷ 2918 ∷ 3046 ∷ 3174 ∷ 3302 ∷ 3430 ∷ 3558
    ∷ 3664 ∷ 3792 ∷ 3872 ∷ 4160 ∷ 4240 ∷ 6112 ∷ 6160 ∷ 6470 ∷ 6608 ∷ 6784 ∷ 6800 ∷ 6992 ∷ 7088
    ∷ 7232 ∷ 7248 ∷ 42528 ∷ 43216 ∷ 43264 ∷ 43472 ∷ 43504 ∷ 43600 ∷ 44016 ∷ 65296 ∷ 66720 ∷ 68912
    ∷ 69734 ∷ 69872 ∷ 69942 ∷ 70096 ∷ 70384 ∷ 70736 ∷ 70864 ∷ 71248 ∷ 71360 ∷ 71472 ∷ 71904 ∷ 72016
    ∷ 72784 ∷ 73040 ∷ 73120 ∷ 92768 ∷ 92864 ∷ 93008 ∷ 120782 ∷ 120792 ∷ 120802 ∷ 120812 ∷ 120822
    ∷ 123200 ∷ 123632 ∷ 125264 ∷ 130032 ∷ []

digit_after : (zeros : List ℕ) → ℕ → Option ℕ
digit_after [] c = none
digit_after (z ∷ zs) c =
    let rest = digit_after zs c in if leb z c && leb c (z + 9) then some (c - z) else rest

-- The value of a digit.
unfoldable pub digit_of : ℕ → Option ℕ
unfolding digit_after
digit_of c = digit_after digit_zeros c

abbrev pub is_digit : ℕ → Bool
is_digit c = is_some (digit_of c)
