-- ===== src/Prelude/Dictionaries.antt =====
-- Python's `dict` as an association list in insertion order, for a key type with a Boolean test.
-- Overwriting a key keeps its place.
use mathlib.Core.Path.{◌≡◌, refl}
use mathlib.Core.Logic.{◌↔◌}
use mathlib.Core.Bool.{Bool, true}
use native.Mathlib.Omega.{arith}
use mathlib.Core.Option.{Option, none, some}
use mathlib.Core.List.{List, [], ◌∷◌, map}
use Prim.Native.Nat.{ℕ, suc}
use mathlib.Core.Logic.{inl, inr}
use mathlib.Core.Bool.{false}
use mathlib.Core.List.{◌++◌}
use scheduler_simulator.Prelude.Lists.{All, get_elem?}
use scheduler_simulator.Prelude.Tests.{if◌then◌else◌, Bool-cases}

abbrev pub Dict : Type 0 → Type 0 → Type 0
Dict K V = List (K × V)

module _ {K V : Type 0} (same : K → K → Bool) where
  -- d.get(k)
  unfoldable pub lookup : K → Dict K V → Option V
  lookup k [] = none
  lookup k ((j, v) ∷ d) = if same j k then some v else lookup k d

  -- d[k] = v
  unfoldable pub insert : K → V → Dict K V → Dict K V
  insert k v [] = (k, v) ∷ []
  insert k v ((j, w) ∷ d) = if same j k then (j, v) ∷ d else (j, w) ∷ insert k v d

abbrev pub keys : {K V : Type 0} → Dict K V → List K
keys d = map (λ e. e.0) d

module _ {K V : Type 0} (same : K → K → Bool) (law : (a b : K) → (same a b ≡ true) ↔ (a ≡ b)) where
  -- A lookup after an assignment, in one equation.
  pub lookup-insert :
      (k j : K) (v : V) (d : Dict K V)
      → lookup same j (insert same k v d) ≡ (if same k j then some v else lookup same j d)
  unfolding lookup insert
  lookup-insert k j v [] = refl
  lookup-insert k j v ((i, w) ∷ d) =
      ground (arith, law k j, law i k, law i j, lookup-insert k j v d)

module _ {K V : Type 0} (same : K → K → Bool) where
  -- Assigning to a key that no key is the same as puts it at the end.
  pub insert_fresh :
      (k : K) (v : V) (d : Dict K V) → lookup same k d ≡ none → insert same k v d ≡ d ++ (k, v) ∷ []
  unfolding lookup insert
  insert_fresh k v [] h = refl
  insert_fresh k v ((j, w) ∷ d) h = ground (arith, insert_fresh k v d)

  -- The keys that a failed lookup has passed by.
  pub lookup-eq-none :
      (k : K) (d : Dict K V) → lookup same k d ≡ none → All (λ e. same e.0 k ≡ false) d
  unfolding lookup
  lookup-eq-none k [] h = tt
  lookup-eq-none k ((j, w) ∷ d) h = elim (Bool-cases (same j k)) [
    | inl hit ↦ ground arith
    | inr miss ↦ (miss, lookup-eq-none k d (ground arith))
  ]

  -- The entry that a lookup has found.
  pub lookup-eq-some :
      (k : K) (d : Dict K V) {v : V}
      → lookup same k d ≡ some v
      → (i : ℕ) × (j : K) × (get_elem? d i ≡ some (j, v)) × (same j k ≡ true)
  unfolding lookup
  lookup-eq-some k [] h = absurd (cc)
  lookup-eq-some k ((j, w) ∷ d) {v} h = elim (Bool-cases (same j k)) [
    | inl hit ↦ (0, j, ground arith, hit)
    | inr miss ↦
        let (i, j', at, found) = lookup-eq-some k d {v = v} (ground arith) in (suc i, j', at, found)
  ]
