-- ===== src/Prelude/Sorted.antt =====
-- `sorted(set(texts))`: texts in code point order, each once.
use mathlib.Core.Path.{◌≡◌, refl}
use mathlib.Core.Bool.{Bool, true, false, ◌&&◌, ◌||◌}
use mathlib.Core.List.{List, [], ◌∷◌}
use native.Mathlib.Omega.{arith}
use scheduler_simulator.Prelude.Tests.{ltb, ◌==◌, if◌then◌else◌}
use scheduler_simulator.Prelude.Lists.{any}
use scheduler_simulator.Prelude.Strings.{Text, text_eq, text_eq_iff}

-- s < t
unfoldable pub text_lt : Text → Text → Bool
text_lt [] [] = false
text_lt [] (b ∷ t) = true
text_lt (a ∷ s) [] = false
text_lt (a ∷ s) (b ∷ t) = ltb a b || a == b && text_lt s t

unfoldable pub add_sorted : Text → List Text → List Text
add_sorted x [] = x ∷ []
add_sorted x (y ∷ ys) =
    if text_eq x y then y ∷ ys else if text_lt x y then x ∷ y ∷ ys else y ∷ add_sorted x ys

unfoldable pub sorted_set : List Text → List Text
unfolding add_sorted text_lt
sorted_set [] = []
sorted_set (x ∷ xs) = add_sorted x (sorted_set xs)

abbrev pub contains : List Text → Text → Bool
contains xs x = any (text_eq x) xs

contains-add_sorted :
    (x y : Text) (ys : List Text) → contains (add_sorted y ys) x ≡ (text_eq x y || contains ys x)
unfolding add_sorted
contains-add_sorted x y [] = refl
contains-add_sorted x y (z ∷ ys) =
    ground (arith, contains-add_sorted x y ys, text_eq_iff y z, text_eq_iff x y, text_eq_iff x z)

pub contains-sorted_set : (x : Text) (ys : List Text) → contains (sorted_set ys) x ≡ contains ys x
unfolding sorted_set
contains-sorted_set x [] = refl
contains-sorted_set x (y ∷ ys) =
    ground (arith, contains-add_sorted x y (sorted_set ys), contains-sorted_set x ys)
