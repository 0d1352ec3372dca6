-- ===== src/Analysis/Grouping/Laws.antt =====
-- The groups that `group_by` makes (Analysis/Grouping).
use scheduler_simulator.Prelude.{
  sym, ap, ◌∙◌, refl, append_assoc, append-nil, length, length-append, All, Bool-cases, inl, inr, ℕ,
  suc, ◌+◌, ◌≡◌, Bool, true, List, [], ◌∷◌, ◌++◌, if◌then◌else◌, Dict, lookup, arith,
}
use scheduler_simulator.Python.{default_to}
use scheduler_simulator.Analysis.Grouping.{group_onto, group_by, members, push}

-- A test that is symmetric and transitive; equality of tuples with a NaN is not reflexive.
pub record IsPartialEquality {K : Type 0} (same : K → K → Bool) : Type 0 where
  pub symmetric : (a b : K) → same a b ≡ true → same b a ≡ true
  pub transitive : (a b c : K) → same a b ≡ true → same b c ≡ true → same a c ≡ true

module _ {K V : Type 0} (same : K → K → Bool) (law : IsPartialEquality same) where
  -- d[k], or the empty list that a defaultdict makes
  abbrev pub group_at : K → Dict K (List V) → List V
  group_at k d = default_to (lookup same k d) []

  group_at-push :
      (k j : K) (v : V) (d : Dict K (List V))
      → group_at j (push same k v d) ≡ (if same k j then group_at j d ++ v ∷ [] else group_at j d)
  unfolding push lookup
  group_at-push k j v [] = ground arith
  group_at-push k j v ((i, vs) ∷ d) = ground (
    arith,
    law.symmetric k j,
    law.symmetric i k,
    law.transitive i k j,
    law.transitive i j k,
    law.symmetric i j,
    law.transitive k i j,
    law.transitive k j i,
    law.symmetric j k,
    law.symmetric k i,
    law.symmetric j i,
    law.transitive j i k,
    group_at-push k j v d,
  )

  group_at-group_onto :
      (key : V → K) (k : K) (d : Dict K (List V)) (vs : List V)
      → group_at k (group_onto same key d vs) ≡ group_at k d ++ members same key k vs
  unfolding group_onto members
  group_at-group_onto key k d [] = sym (append-nil (group_at k d))
  group_at-group_onto key k d (v ∷ vs) = elim (Bool-cases (same (key v) k)) [
    | inl hit ↦
        group_at-group_onto key k (push same (key v) v d) vs
        ∙ rw (group_at-push (key v) k v d, hit)
            (append_assoc (group_at k d) (v ∷ []) (members same key k vs))
    | inr miss ↦
        group_at-group_onto key k (push same (key v) v d) vs
        ∙ rw (group_at-push (key v) k v d, miss) refl
  ]

  -- The group of a key holds the rows with that key, all of them and in their order.
  pub group_by-members :
      (key : V → K) (k : K) (vs : List V)
      → group_at k (group_by same key vs) ≡ members same key k vs
  unfolding group_by lookup
  group_by-members key k vs = group_at-group_onto key k [] vs

module _ {K V : Type 0} (same : K → K → Bool) where
  -- The number of rows in all groups.
  unfoldable pub grouped_count : Dict K (List V) → ℕ
  grouped_count [] = 0
  grouped_count ((k, vs) ∷ d) = length vs + grouped_count d

  push-grouped_count :
      (k : K) (v : V) (d : Dict K (List V))
      → grouped_count (push same k v d) ≡ suc (grouped_count d)
  unfolding push grouped_count
  push-grouped_count k v [] = omega arith
  push-grouped_count k v ((j, vs) ∷ d) =
      ground (arith, length-append vs (v ∷ []), push-grouped_count k v d)

  group_onto-grouped_count :
      (key : V → K) (d : Dict K (List V)) (vs : List V)
      → grouped_count (group_onto same key d vs) ≡ grouped_count d + length vs
  unfolding group_onto
  group_onto-grouped_count key d [] = omega arith
  group_onto-grouped_count key d (v ∷ vs) = omega (
    arith,
    group_onto-grouped_count key (push same (key v) v d) vs,
    push-grouped_count (key v) v d,
  )

  -- No row is lost and none is counted twice.
  pub group_by-grouped_count :
      (key : V → K) (vs : List V) → grouped_count (group_by same key vs) ≡ length vs
  unfolding group_by grouped_count
  group_by-grouped_count key vs = omega (arith, group_onto-grouped_count key [] vs)

  -- Every group has its rows under a key of theirs.
  abbrev pub GroupsAgree : (key : V → K) → Dict K (List V) → Type 0
  GroupsAgree key d = All (λ g. (v : V) × (rest : List V) × (g.1 ≡ v ∷ rest) × (g.0 ≡ key v)) d

  push-GroupsAgree :
      (key : V → K) (v : V) (d : Dict K (List V))
      → GroupsAgree key d
      → GroupsAgree key (push same (key v) v d)
  unfolding push
  push-GroupsAgree key v [] h = ((v, [], refl, refl), tt)
  push-GroupsAgree key v ((j, vs) ∷ d) ((u, rest, p, q), hs) = elim (Bool-cases (same j (key v))) [
    | inl hit ↦ rw hit ((u, rest ++ v ∷ [], ap (λ l. l ++ v ∷ []) p, q), hs)
    | inr miss ↦ rw miss ((u, rest, p, q), push-GroupsAgree key v d hs)
  ]

  group_onto-GroupsAgree :
      (key : V → K) (d : Dict K (List V)) (vs : List V)
      → GroupsAgree key d
      → GroupsAgree key (group_onto same key d vs)
  unfolding group_onto
  group_onto-GroupsAgree key d [] h = h
  group_onto-GroupsAgree key d (v ∷ vs) h =
      group_onto-GroupsAgree key (push same (key v) v d) vs (push-GroupsAgree key v d h)

  -- No group is empty, and each stands under the key of its first row.
  pub group_by-GroupsAgree : (key : V → K) (vs : List V) → GroupsAgree key (group_by same key vs)
  unfolding group_by
  group_by-GroupsAgree key vs = group_onto-GroupsAgree key [] vs tt
