-- ===== src/Analysis/Duplicates/Apart.antt =====
-- The check for duplicates (Analysis/Duplicates) against configurations that differ pairwise.
use scheduler_simulator.Prelude.{
  ◌≡◌, refl, ◌↔◌, ◌≤◌, length, List, [], ◌∷◌, arith, Dict, lookup, subst,
}
use scheduler_simulator.Analysis.Cells.{Floats, Cell, Row, same_cells}
use scheduler_simulator.Analysis.Cells.Same.{same_cells-IsPartialEquality}
use scheduler_simulator.Analysis.Grouping.{group_by}
use scheduler_simulator.Analysis.Grouping.Laws.{IsPartialEquality, group_at, group_by-members}
use scheduler_simulator.Analysis.Grouping.Singletons.{
  IsApart, singletons, group_by-IsApart, members-IsApart,
}
use scheduler_simulator.Analysis.Duplicates.{
  config_key, duplicate_issue, group_issues, duplicate_issues,
}

alone : {F : Type 0} (rows : List (Row F)) → group_issues (singletons config_key rows) ≡ []
unfolding group_issues duplicate_issue
alone [] = refl
alone (row ∷ rows) = alone rows

module _ {F : Type 0} (A : Floats F) (law : IsPartialEquality A.runtime.same_float) where
  at_most_one :
      (k : List (Cell F)) (d : Dict (List (Cell F)) (List (Row F)))
      → group_issues d ≡ []
      → length (group_at (same_cells A) (same_cells-IsPartialEquality A law) k d) ≤ 1
  unfolding group_issues duplicate_issue lookup
  at_most_one k [] h = ground arith
  at_most_one k ((j, []) ∷ d) h = ground (arith, at_most_one k d h)
  at_most_one k ((j, row ∷ []) ∷ d) h = ground (arith, at_most_one k d h)
  at_most_one k ((j, sample ∷ row ∷ rows) ∷ d) h = absurd (cc)

  -- There is no duplicate_config issue exactly if the configurations of the lines differ pairwise,
  -- for numbers whose equality is symmetric and transitive.
  pub duplicate_issues-IsApart :
      (rows : List (Row F))
      → (duplicate_issues A rows ≡ []) ↔ IsApart (same_cells A) config_key rows
  unfolding duplicate_issues
  duplicate_issues-IsApart rows =
      let same_law = same_cells-IsPartialEquality A law in
      (
        λ h. members-IsApart (same_cells A) config_key same_law rows λ k.
            subst (λ vs. length vs ≤ 1) (group_by-members (same_cells A) same_law config_key k rows)
              (at_most_one k (group_by (same_cells A) config_key rows) h),
        λ h. rw (group_by-IsApart (same_cells A) config_key rows h) (alone rows),
      )
