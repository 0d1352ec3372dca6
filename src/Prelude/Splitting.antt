-- ===== src/Prelude/Splitting.antt =====
-- `s.split(c)` for one character, and the idiom that strips the parts and drops the empty ones.
use mathlib.Core.List.{List, [], ◌∷◌}
use Prim.Native.Nat.{ℕ}
use scheduler_simulator.Prelude.Tests.{◌==◌, if◌then◌else◌}
use scheduler_simulator.Prelude.Strings.{Text, is_empty, strip}

abbrev pub push_char : (c : ℕ) → List Text → List Text
push_char c [] = (c ∷ []) ∷ []
push_char c (part ∷ parts) = (c ∷ part) ∷ parts

-- s.split(separator)
unfoldable pub split : (separator : ℕ) → Text → List Text
split separator [] = [] ∷ []
split separator (c ∷ s) =
    let rest = split separator s in if c == separator then [] ∷ rest else push_char c rest

-- [part.strip() for part in parts if part.strip()]
unfoldable pub strip_parts : List Text → List Text
strip_parts [] = []
strip_parts (part ∷ parts) =
    let rest = strip_parts parts in if is_empty (strip part) then rest else strip part ∷ rest
