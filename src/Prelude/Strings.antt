-- ===== src/Prelude/Strings.antt =====
-- Python's `str` as a list of code points: equality, `strip`, `lower` and decimal printing.
-- `is_space` is the set of characters that `str.strip()` removes. `lower` is exact on ASCII and
-- leaves other characters alone.
use Prim.Native.Nat.{ℕ, ◌+◌}
use Prim.Native.Char.{code}
use Prim.Native.String.{String}
use mathlib.Core.Path.{◌≡◌, refl, ap, ◌∙◌, sym}
use mathlib.Core.Logic.{◌↔◌, inl, inr}
use mathlib.Core.Bool.{Bool, true, false, ◌&&◌, ◌||◌}
use mathlib.Core.List.{List, [], ◌∷◌, map}
use native.Mathlib.Omega.{arith}
use scheduler_simulator.Prelude.Tests.{leb, ◌==◌, if◌then◌else◌, Bool-cases}

abbrev pub Text : Type 0
Text = List ℕ

-- The code points of a literal.
abbrev pub codes : String → Text
codes String.[] = []
codes (String.◌∷◌ c s) = code c ∷ codes s

unfoldable pub text_eq : Text → Text → Bool
text_eq [] [] = true
text_eq [] (b ∷ t) = false
text_eq (a ∷ s) [] = false
text_eq (a ∷ s) (b ∷ t) = a == b && text_eq s t

pub text_eq→eq : (s t : Text) → text_eq s t ≡ true → s ≡ t
unfolding text_eq
text_eq→eq [] [] h = refl
text_eq→eq [] (b ∷ t) h = ground arith
text_eq→eq (a ∷ s) [] h = ground arith
text_eq→eq (a ∷ s) (b ∷ t) h = ground (arith, text_eq→eq s t)

pub text_eq_refl : (s : Text) → text_eq s s ≡ true
unfolding text_eq
text_eq_refl [] = refl
text_eq_refl (a ∷ s) = ground (arith, text_eq_refl s)

pub text_eq_iff : (s t : Text) → (text_eq s t ≡ true) ↔ (s ≡ t)
text_eq_iff s t = (text_eq→eq s t, λ e. ap (text_eq s) (sym e) ∙ text_eq_refl s)

abbrev pub is_empty : Text → Bool
is_empty [] = true
is_empty (c ∷ s) = false

unfoldable pub is_space : ℕ → Bool
is_space c =
    leb 9 c && leb c 13
    || leb 28 c && leb c 32
    || c == 133
    || c == 160
    || c == 5760
    || leb 8192 c && leb c 8202
    || c == 8232
    || c == 8233
    || c == 8239
    || c == 8287
    || c == 12288

module _ (p : ℕ → Bool) where
  unfoldable pub strip_left : Text → Text
  strip_left [] = []
  strip_left (c ∷ s) = if p c then strip_left s else c ∷ s

  abbrev pub keep_right : ℕ → Text → Text
  keep_right c [] = if p c then [] else c ∷ []
  keep_right c (d ∷ s) = c ∷ d ∷ s

  unfoldable pub strip_right : Text → Text
  strip_right [] = []
  strip_right (c ∷ s) = keep_right c (strip_right s)

  unfoldable pub strip_by : Text → Text
  unfolding strip_left strip_right
  strip_by s = strip_right (strip_left s)

-- s.strip()
unfoldable pub strip : Text → Text
unfolding strip_by is_space
strip = strip_by is_space

abbrev pub lower_char : ℕ → ℕ
lower_char c = if leb 65 c && leb c 90 then c + 32 else c

-- s.lower()
unfoldable pub lower : Text → Text
lower = map lower_char

module _ (p : ℕ → Bool) where
  strip_right_idem : (s : Text) → strip_right p (strip_right p s) ≡ strip_right p s
  unfolding strip_right
  strip_right_idem [] = refl
  strip_right_idem (c ∷ s) = keep (strip_right p s) (strip_right_idem s)
    where
      keep : (t : Text) → strip_right p t ≡ t → strip_right p (keep_right p c t) ≡ keep_right p c t
      keep [] e = ground arith
      keep (d ∷ t) e = ap (keep_right p c) e

  -- A text that starts with a kept character keeps it.
  strip_right-cons :
      (c : ℕ) (s : Text)
      → p c ≡ false
      → strip_left p (strip_right p (c ∷ s)) ≡ strip_right p (c ∷ s)
  unfolding strip_left strip_right
  strip_right-cons c s h = ground arith

  strip_left-strip_by : (s : Text) → strip_left p (strip_by p s) ≡ strip_by p s
  unfolding strip_by
  strip_left-strip_by [] = refl
  strip_left-strip_by (c ∷ s) = elim (Bool-cases (p c)) [
    | inl space ↦ rw space (strip_left-strip_by s)
    | inr other ↦ rw other (strip_right-cons c s other)
  ]

  pub strip_by_idem : (s : Text) → strip_by p (strip_by p s) ≡ strip_by p s
  unfolding strip_by
  strip_by_idem s = ap (strip_right p) (strip_left-strip_by s) ∙ strip_right_idem (strip_left p s)

module _ (p : ℕ → Bool) (keeps : (c : ℕ) → p (lower_char c) ≡ p c) where
  lower-strip_left : (s : Text) → strip_left p (lower s) ≡ lower (strip_left p s)
  unfolding strip_left lower
  lower-strip_left [] = refl
  lower-strip_left (c ∷ s) = elim (Bool-cases (p c)) [
    | inl space ↦ rw (keeps c, space) (lower-strip_left s)
    | inr other ↦ rw (keeps c, other) refl
  ]

  lower-keep_right :
      (c : ℕ) (t : Text) → keep_right p (lower_char c) (lower t) ≡ lower (keep_right p c t)
  unfolding lower
  lower-keep_right c [] = elim (Bool-cases (p c)) [
    | inl space ↦ rw (keeps c, space) refl
    | inr other ↦ rw (keeps c, other) refl
  ]
  lower-keep_right c (d ∷ t) = refl

  lower-strip_right : (s : Text) → strip_right p (lower s) ≡ lower (strip_right p s)
  unfolding strip_right lower
  lower-strip_right [] = refl
  lower-strip_right (c ∷ s) =
      ap (keep_right p (lower_char c)) (lower-strip_right s) ∙ lower-keep_right c (strip_right p s)

is_space-lower_char : (c : ℕ) → is_space (lower_char c) ≡ is_space c
unfolding is_space
is_space-lower_char c = ground arith

pub strip-lower : (s : Text) → strip (lower s) ≡ lower (strip s)
unfolding strip
strip-lower s =
    ap (strip_right is_space) (lower-strip_left is_space is_space-lower_char s)
    ∙ lower-strip_right is_space is_space-lower_char (strip_left is_space s)

pub strip_idem : (s : Text) → strip (strip s) ≡ strip s
unfolding strip
strip_idem s = strip_by_idem is_space s

lower_char_idem : (c : ℕ) → lower_char (lower_char c) ≡ lower_char c
lower_char_idem c = ground arith

pub lower_idem : (s : Text) → lower (lower s) ≡ lower s
unfolding lower
lower_idem [] = refl
lower_idem (c ∷ s) = ground (arith, lower_char_idem c, lower_idem s)
