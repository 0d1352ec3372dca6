-- ===== src/Analysis/Experiments/Column.antt =====
-- What is read back from the column of experiment ids.
use scheduler_simulator.Prelude.{
  ℕ, ◌≡◌, refl, sym, ap, ◌∙◌, false, ◌==◌, List, [], ◌∷◌, ◌++◌, Text, codes, text_eq, text_eq→eq,
  text_eq_refl, is_empty, strip, lower, split, strip_parts, All, Bool-cases, inl, inr, arith,
}
use scheduler_simulator.Analysis.Experiments.{
  join, experiment_flags, set_flags, set_flag, exp_number, match_number, experiments_column,
  column_flags, without_none, or_none, split_experiments,
}

-- No character of the text is the separator.
abbrev pub Lacks : ℕ → Text → Type 0
Lacks separator = All (λ c. (c == separator) ≡ false)

split-part :
    (separator : ℕ) (t rest : Text)
    → Lacks separator t
    → split separator (t ++ (separator ∷ rest)) ≡ t ∷ split separator rest
unfolding split
split-part separator [] rest h = ground arith
split-part separator (c ∷ t) rest h = rw (h.0, split-part separator t rest h.1) refl

split_last : (separator : ℕ) (t : Text) → Lacks separator t → split separator t ≡ t ∷ []
unfolding split
split_last separator [] h = refl
split_last separator (c ∷ t) h = rw (h.0, split_last separator t h.1) refl

-- Parts without the separator come back from the joined text.
pub split-join :
    (separator : ℕ) (t : Text) (ts : List Text)
    → All (Lacks separator) (t ∷ ts)
    → split separator (join (separator ∷ []) (t ∷ ts)) ≡ t ∷ ts
unfolding join
split-join separator t [] h = split_last separator t h.0
split-join separator t (u ∷ ts) h =
    split-part separator t (join (separator ∷ []) (u ∷ ts)) h.0
    ∙ ap (λ l. t ∷ l) (split-join separator u ts h.1)

none-flags : experiment_flags (codes "none" ∷ []) ≡ experiment_flags []
unfolding experiment_flags set_flags set_flag exp_number match_number lower
none-flags = refl

-- The flags that are computed from the column are those of the ids, if no id has a semicolon.
pub column_flags-experiments_column :
    (ids : List Text)
    → All (Lacks b';') ids
    → column_flags (experiments_column ids) ≡ experiment_flags ids
unfolding column_flags experiments_column
column_flags-experiments_column [] h = rw (text_eq_refl (codes "none")) refl
column_flags-experiments_column (t ∷ ts) h =
    let joined = join (codes ";") (t ∷ ts) in
    let parts : split b';' joined ≡ t ∷ ts = split-join b';' t ts h in
    elim (Bool-cases (text_eq joined (codes "none"))) [
      | inr other ↦ rw (other, parts) refl
      | inl same ↦
          let only : codes "none" ∷ [] ≡ t ∷ ts =
            sym (split_last b';' (codes "none") (refl, (refl, (refl, (refl, tt)))))
            ∙ ap (split b';') (sym (text_eq→eq joined (codes "none") same))
            ∙ parts in
          rw same (sym none-flags ∙ ap experiment_flags only)
    ]

-- An id that the summary keeps as it is: stripped, not empty, without a semicolon and not "none".
pub record IsPlainId (t : Text) : Type 0 where
  pub lacks : Lacks b';' t
  pub stripped : strip t ≡ t
  pub full : is_empty t ≡ false
  pub named : text_eq (lower t) (codes "none") ≡ false

strip_parts-plain : (ts : List Text) → All IsPlainId ts → strip_parts ts ≡ ts
unfolding strip_parts
strip_parts-plain [] h = refl
strip_parts-plain (t ∷ ts) h = rw (h.0.stripped, h.0.full, strip_parts-plain ts h.1) refl

without_none-plain : (ts : List Text) → All IsPlainId ts → without_none ts ≡ ts
unfolding without_none
without_none-plain [] h = refl
without_none-plain (t ∷ ts) h = rw (h.0.named, without_none-plain ts h.1) refl

lacking : (ts : List Text) → All IsPlainId ts → All (Lacks b';') ts
lacking [] h = tt
lacking (t ∷ ts) h = (h.0.lacks, lacking ts h.1)

no_ids : split_experiments (codes "none") ≡ codes "none" ∷ []
unfolding split_experiments split strip_parts strip without_none lower text_eq
no_ids = refl

-- The summary script reads the ids back from the column that the aggregation has written: plain ids
-- in their order, and "none" alone where there are no ids.
pub split_experiments-experiments_column :
    (ids : List Text) → All IsPlainId ids → split_experiments (experiments_column ids) ≡ or_none ids
unfolding split_experiments experiments_column
split_experiments-experiments_column [] h = no_ids
split_experiments-experiments_column (t ∷ ts) h =
    rw
      (
        split-join b';' t ts (lacking (t ∷ ts) h),
        strip_parts-plain (t ∷ ts) h,
        without_none-plain (t ∷ ts) h,
      )
      refl
