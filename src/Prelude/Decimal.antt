-- ===== src/Prelude/Decimal.antt =====
-- Decimal printing of numbers, as `str(n)` and the format `{n:03d}` of a number n >= 0.
use Prim.Native.Nat.{ℕ, zero, suc, ◌+◌, ◌-◌, ◌*◌, ◌/◌, ◌%◌, ◌≤◌, ◌<◌}
use mathlib.Core.Path.{◌≡◌, refl, ap, ◌∙◌, sym}
use mathlib.Core.Logic.{◌≢◌}
use mathlib.Core.List.{[], ◌∷◌, ◌++◌}
use native.Mathlib.Omega.{arith}
use scheduler_simulator.Prelude.Tests.{ltb, if◌then◌else◌}
use scheduler_simulator.Prelude.Lists.{All, All-append}
use scheduler_simulator.Prelude.Strings.{Text}
use scheduler_simulator.Prelude.Int.{ℤ, pos, negsuc}

-- The digits of `n`, on fuel: one round for each digit, so `suc n` rounds are enough.
show_digits : ℕ → ℕ → Text
show_digits zero n = []
show_digits (suc f) n =
    let front = show_digits f (n / 10) in
    if ltb n 10 then (48 + n) ∷ [] else front ++ (48 + n % 10) ∷ []

unfoldable pub show : ℕ → Text
unfolding show_digits
show n = show_digits (suc n) n

-- f"{n:03d}"
unfoldable pub show_padded : ℕ → Text
unfolding show
show_padded n =
    if ltb n 10 then b'0' ∷ b'0' ∷ show n else if ltb n 100 then b'0' ∷ show n else show n

-- str(n)
unfoldable pub show_ℤ : ℤ → Text
unfolding show
show_ℤ (pos n) = show n
show_ℤ (negsuc n) = b'-' ∷ show (suc n)

-- The number that digits stand for.
read : ℕ → Text → ℕ
read acc [] = acc
read acc (c ∷ s) = read (acc * 10 + (c - 48)) s

read-append : (acc : ℕ) (s : Text) (c : ℕ) → read acc (s ++ c ∷ []) ≡ read acc s * 10 + (c - 48)
unfolding read
read-append acc [] c = refl
read-append acc (d ∷ s) c = read-append (acc * 10 + (d - 48)) s c

read-show_digits : (f n : ℕ) → n < f → read 0 (show_digits f n) ≡ n
unfolding show_digits read
read-show_digits zero n h = elim h [ ]
read-show_digits (suc f) n h =
    ground
      (arith, read-append 0 (show_digits f (n / 10)) (48 + n % 10), read-show_digits f (n / 10))

read-show_padded : (n : ℕ) → read 0 (show_padded n) ≡ n
unfolding show_padded read
read-show_padded n = ground (arith, read-show_digits (suc n) n)

-- Different numbers print differently.
pub show_padded-injective : (m n : ℕ) → show_padded m ≡ show_padded n → m ≡ n
show_padded-injective m n e = sym (read-show_padded m) ∙ ap (read 0) e ∙ read-show_padded n

abbrev pub IsDigit : ℕ → Type 0
IsDigit c = (48 ≤ c) × (c ≤ 57)

show_digits-IsDigit : (f n : ℕ) → All IsDigit (show_digits f n)
unfolding show_digits
show_digits-IsDigit zero n = tt
show_digits-IsDigit (suc f) n = ground (
  arith,
  All-append IsDigit (show_digits f (n / 10)) ((48 + n % 10) ∷ []) (show_digits-IsDigit f (n / 10)),
)

pub show_padded-IsDigit : (n : ℕ) → All IsDigit (show_padded n)
unfolding show_padded
show_padded-IsDigit n = ground (arith, show_digits-IsDigit (suc n) n)

snoc-ne-nil : (s : Text) (c : ℕ) → s ++ c ∷ [] ≢ []
snoc-ne-nil [] c h = cc
snoc-ne-nil (d ∷ s) c h = cc

show-ne-nil : (n : ℕ) → show n ≢ []
unfolding show
show-ne-nil n h = ground (arith, snoc-ne-nil (show_digits n (n / 10)) (48 + n % 10))

pub show_padded-ne-nil : (n : ℕ) → show_padded n ≢ []
unfolding show_padded
show_padded-ne-nil n h = ground (arith, show-ne-nil n)
