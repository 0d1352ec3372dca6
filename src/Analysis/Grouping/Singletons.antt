-- ===== src/Analysis/Grouping/Singletons.antt =====
-- `group_by` on rows whose keys differ pairwise (Analysis/Grouping).
use scheduler_simulator.Prelude.{
  ◌≡◌, refl, sym, ◌∙◌, ◌≤◌, length, All, Bool, false, Bool-cases, inl, inr, List, [], ◌∷◌, ◌++◌,
  append_assoc, append-nil, map, arith, Dict,
}
use scheduler_simulator.Analysis.Grouping.{push, group_onto, group_by, members}
use scheduler_simulator.Analysis.Grouping.Laws.{IsPartialEquality}

abbrev pub singletons : {K V : Type 0} → (V → K) → List V → Dict K (List V)
singletons key vs = map (λ v. (key v, v ∷ [])) vs

module _ {K V : Type 0} (same : K → K → Bool) (key : V → K) where
  -- No two of the rows have the same key.
  abbrev pub IsApart : List V → Type 0
  IsApart [] = Unit
  IsApart (v ∷ vs) = All (λ w. same (key v) (key w) ≡ false) vs × IsApart vs

  abbrev IsFresh : Dict K (List V) → V → Type 0
  IsFresh d v = All (λ g. same g.0 (key v) ≡ false) d

  push-IsFresh :
      (v : V) (d : Dict K (List V))
      → IsFresh d v
      → push same (key v) v d ≡ d ++ (key v, v ∷ []) ∷ []
  unfolding push
  push-IsFresh v [] h = refl
  push-IsFresh v ((j, vs) ∷ d) (miss, h) = rw (miss, push-IsFresh v d h) refl

  IsFresh-last :
      (v w : V) (d : Dict K (List V))
      → IsFresh d w
      → same (key v) (key w) ≡ false
      → IsFresh (d ++ (key v, v ∷ []) ∷ []) w
  IsFresh-last v w [] h miss = (miss, tt)
  IsFresh-last v w (g ∷ d) (p, h) miss = (p, IsFresh-last v w d h miss)

  all-IsFresh :
      (v : V) (d : Dict K (List V)) (vs : List V)
      → All (IsFresh d) vs
      → All (λ w. same (key v) (key w) ≡ false) vs
      → All (IsFresh (d ++ (key v, v ∷ []) ∷ [])) vs
  all-IsFresh v d [] h k = tt
  all-IsFresh v d (w ∷ vs) (p, h) (q, k) = (IsFresh-last v w d p q, all-IsFresh v d vs h k)

  group_onto-IsApart :
      (d : Dict K (List V)) (vs : List V)
      → All (IsFresh d) vs
      → IsApart vs
      → group_onto same key d vs ≡ d ++ singletons key vs
  unfolding group_onto
  group_onto-IsApart d [] h k = sym (append-nil d)
  group_onto-IsApart d (v ∷ vs) (p, h) (q, k) = rw (push-IsFresh v d p) (
      group_onto-IsApart (d ++ (key v, v ∷ []) ∷ []) vs (all-IsFresh v d vs h q) k
      ∙ append_assoc d ((key v, v ∷ []) ∷ []) (singletons key vs))

  no_groups : (vs : List V) → All (IsFresh []) vs
  no_groups [] = tt
  no_groups (v ∷ vs) = (tt, no_groups vs)

  -- Rows with keys that differ stay alone.
  pub group_by-IsApart : (vs : List V) → IsApart vs → group_by same key vs ≡ singletons key vs
  unfolding group_by
  group_by-IsApart vs h = group_onto-IsApart [] vs (no_groups vs) h

  module _ (law : IsPartialEquality same) where
    no_members :
        (k : K) (vs : List V)
        → length (members same key k vs) ≡ 0
        → All (λ w. same k (key w) ≡ false) vs
    unfolding members
    no_members k [] h = tt
    no_members k (w ∷ vs) h = elim (Bool-cases (same (key w) k)) [
      | inl hit ↦ absurd (ground arith)
      | inr miss ↦
          let rest : length (members same key k vs) ≡ 0 = ground arith in
          (ground (arith, law.symmetric k (key w)), no_members k vs rest)
    ]

    like_nothing : (k : K) (vs : List V) → same k k ≡ false → All (λ w. same k (key w) ≡ false) vs
    like_nothing k [] h = tt
    like_nothing k (w ∷ vs) h =
        (ground (arith, law.symmetric k (key w), law.transitive k (key w) k), like_nothing k vs h)

    -- If no key has two rows, all keys differ.
    pub members-IsApart :
        (vs : List V) → ((k : K) → length (members same key k vs) ≤ 1) → IsApart vs
    unfolding members
    members-IsApart [] h = tt
    members-IsApart (v ∷ vs) h =
        let tail : (k : K) → length (members same key k vs) ≤ 1 = λ k. ground (arith, h k) in
        elim (Bool-cases (same (key v) (key v))) [
          | inl hit ↦
              let none_left : length (members same key (key v) vs) ≡ 0 =
                ground (arith, h (key v)) in
              (no_members (key v) vs none_left, members-IsApart vs tail)
          | inr miss ↦ (like_nothing (key v) vs miss, members-IsApart vs tail)
        ]
