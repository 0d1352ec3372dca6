-- ===== src/Traces/Subset/Sample.antt =====
-- The size and the rows of a subset (real-time-workloads/alibaba_v2018/make_subset.py).
use scheduler_simulator.Prelude.{
  if◌then◌else◌, ℕ, zero, suc, ◌-◌, ◌≡◌, refl, Bool, true, false, not, ◌&&◌, Option, none, some,
  List, [], ◌∷◌, ◌++◌, pos, ◌≤ℤ◌, ltb_ℤ, leb_ℤ, length, length-append, All, All-append, Bool-cases,
  inl, inr, on_if, arith, subst,
}
use scheduler_simulator.Traces.Subset.{
  by_mode, Row, Mode, random, head, SubsetArgs, Sampling, Subset, looks_like_header, replace_row,
  is_capped, sample_row, sample_rows, make_subset,
}

replace_row-length :
    (i : ℕ) (row : Row) (rows : List Row) → length (replace_row i row rows) ≡ length rows
unfolding replace_row
replace_row-length i row [] = refl
replace_row-length zero row (r ∷ rows) = refl
replace_row-length (suc i) row (r ∷ rows) = ground (arith, replace_row-length i row rows)

replace_row-All :
    (P : Row → Type 0) (i : ℕ) (row : Row) (rows : List Row)
    → P row
    → All P rows
    → All P (replace_row i row rows)
unfolding replace_row
replace_row-All P i row [] p ps = tt
replace_row-All P zero row (r ∷ rows) p ps = (p, ps.1)
replace_row-All P (suc i) row (r ∷ rows) p ps = (ps.0, replace_row-All P i row rows p ps.1)

same_subset : {a b : Subset} → some a ≡ some b → a ≡ b
same_subset h = cc

module _ (P : Row → Type 0) (draw : ℕ → ℕ) (args : SubsetArgs) where
  open args use {size, mode, max_lines}

  -- A sample of at most `size` rows, all of them with P.
  abbrev pub IsSample : List Row → Type 0
  IsSample rows = (pos (length rows) ≤ℤ size) × All P rows

  append-IsSample :
      (row : Row) (rows : List Row)
      → P row
      → ltb_ℤ (pos (length rows)) size ≡ true
      → IsSample rows
      → IsSample (rows ++ row ∷ [])
  append-IsSample row rows p space (le, ps) =
      (ground (arith, length-append rows (row ∷ [])), All-append P rows (row ∷ []) ps (p, tt))

  sample_row-IsSample :
      (n : ℕ) (row : Row) (rows : List Row)
      → P row
      → IsSample rows
      → IsSample (sample_row draw args n row rows)
  unfolding sample_row
  sample_row-IsSample n row rows p s = elim (Bool-cases (ltb_ℤ (pos (length rows)) size)) [
    | inl space ↦ rw space (append-IsSample row rows p space s)
    | inr full ↦ elim (Bool-cases (leb_ℤ (pos (draw n)) size)) [
      | inl hit ↦
          rw (full, hit)
            (
              ground (arith, replace_row-length (draw n - 1) row rows, s.0),
              replace_row-All P (draw n - 1) row rows p s.1,
            )
      | inr miss ↦ rw (full, miss) s
    ]
  ]

  by_mode-IsSample :
      (m : Mode) (a b : Sampling)
      → IsSample a.sampled
      → IsSample b.sampled
      → IsSample (by_mode m a b).sampled
  by_mode-IsSample random a b p q = p
  by_mode-IsSample head a b p q = q

  if_true-IsSample :
      (b : Bool) (x y : Sampling)
      → (b ≡ true → IsSample x.sampled)
      → IsSample y.sampled
      → IsSample (if b then x else y).sampled
  if_true-IsSample true x y p q = p refl
  if_true-IsSample false x y p q = q

  sample_rows-IsSample :
      (rows : List Row) (s : Sampling)
      → IsSample s.sampled
      → All P rows
      → IsSample (sample_rows draw args s rows).sampled
  unfolding sample_rows
  sample_rows-IsSample [] s h ps = h
  sample_rows-IsSample (row ∷ rows) s h ps =
      elim (Bool-cases (is_capped max_lines s.scanned_rows)) [
        | inl capped ↦ rw capped h
        | inr more ↦ rw more (
            by_mode-IsSample mode _ _
              (sample_rows-IsSample rows _
                (sample_row-IsSample (suc s.scanned_rows) row s.sampled ps.0 h) ps.1)
              (if_true-IsSample (ltb_ℤ (pos (length s.sampled)) size) _ _
                (λ space.
                  sample_rows-IsSample rows _ (append-IsSample row s.sampled ps.0 space h) ps.1)
                h))
      ]

  -- The first row counts as the header.
  abbrev is_header : (is_alpha : ℕ → Bool) → Row → Bool
  is_header is_alpha first = not args.no_header && looks_like_header is_alpha first

  -- The rows of the input but for its header, and its header.
  abbrev pub data_rows : (is_alpha : ℕ → Bool) → List Row → List Row
  data_rows is_alpha [] = []
  data_rows is_alpha (first ∷ rows) = if is_header is_alpha first then rows else first ∷ rows

  abbrev pub header_row : (is_alpha : ℕ → Bool) → List Row → Option Row
  header_row is_alpha [] = none
  header_row is_alpha (first ∷ rows) = if is_header is_alpha first then some first else none

  chosen-All :
      (b : Bool) (xs ys : List Row)
      → All P (if b then xs else ys)
      → (b ≡ true → All P xs) × (b ≡ false → All P ys)
  chosen-All true xs ys ps = (λ h. ps, λ h. absurd (cc))
  chosen-All false xs ys ps = (λ h. absurd (cc), λ h. ps)

  -- The rows of a subset are at most as many as asked for, and each is a data row of the input: each
  -- has whatever all data rows have, which are all rows but a first row with a letter in it, unless
  -- there is no header by the arguments; that first row is the header of the subset. This holds for
  -- every outcome of the random draws.
  pub make_subset-IsSample :
      (is_alpha : ℕ → Bool) (input : List Row) (out : Subset)
      → All P (data_rows is_alpha input)
      → make_subset draw args is_alpha input ≡ some out
      → IsSample out.rows × (out.header ≡ header_row is_alpha input)
  unfolding make_subset
  make_subset-IsSample is_alpha [] out ps h = absurd (cc)
  make_subset-IsSample is_alpha (first ∷ rows) out ps h =
      on_if (leb_ℤ size (pos 0)) _ _ h (λ _ e. absurd (cc))
        λ positive e.
          on_if (not args.no_header && looks_like_header is_alpha first) _ _ e
            (λ yes e'.
              subst (λ o. IsSample o.rows × (o.header ≡ header_row is_alpha (first ∷ rows)))
                (same_subset e')
                (
                  sample_rows-IsSample rows _ (ground arith, tt)
                      ((chosen-All (is_header is_alpha first) rows (first ∷ rows) ps).0 yes),
                  rw yes refl,
                ))
            (λ no e'.
              let qs = (chosen-All (is_header is_alpha first) rows (first ∷ rows) ps).1 no in
              subst (λ o. IsSample o.rows × (o.header ≡ header_row is_alpha (first ∷ rows)))
                (same_subset e')
                (sample_rows-IsSample rows _ (ground arith, (qs.0, tt)) qs.1, rw no refl))
