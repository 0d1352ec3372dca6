-- ===== src/Suite/Sanitize/Shape.antt =====
-- The shape of what `sanitize_id` returns.
use scheduler_simulator.Prelude.{
  ℕ, ◌≢◌, ◌≡◌, refl, ap, ◌∙◌, inl, inr, Bool, true, false, ◌&&◌, [], ◌∷◌, ◌==◌, All, Text, strip,
  strip_by, strip_left, strip_right, keep_right, is_space, Bool-cases, arith, strip_by_idem,
}
use scheduler_simulator.Suite.Sanitize.{
  dash, is_word, is_id_char, replace_others, collapse_dashes, or_id, sanitize_id,
}
use scheduler_simulator.Suite.Sanitize.Words.{cleaned}

abbrev pub IsIdText : Text → Type 0
IsIdText = All (λ c. is_id_char c ≡ true)

-- No two dashes stand side by side; `after` says that a dash stands before the text.
abbrev pub IsSingle : (after : Bool) → Text → Type 0
IsSingle after [] = Unit
IsSingle after (c ∷ s) = ((after && c == dash) ≡ false) × IsSingle (c == dash) s

replace_others-IsIdText : (inside : Bool) (s : Text) → IsIdText (replace_others inside s)
unfolding replace_others
replace_others-IsIdText inside [] = tt
replace_others-IsIdText inside (c ∷ s) =
    ground (arith, replace_others-IsIdText false s, replace_others-IsIdText true s, is_id_char-dash)
  where
    is_id_char-dash : is_id_char dash ≡ true
    is_id_char-dash = unfold is_id_char is_word in refl

collapse_dashes-IsIdText :
    (after : Bool) (s : Text) → IsIdText s → IsIdText (collapse_dashes after s)
unfolding collapse_dashes
collapse_dashes-IsIdText after [] h = tt
collapse_dashes-IsIdText after (c ∷ s) h =
    ground (arith, h.0, collapse_dashes-IsIdText true s h.1, collapse_dashes-IsIdText false s h.1)

collapse_dashes-IsSingle : (after : Bool) (s : Text) → IsSingle after (collapse_dashes after s)
unfolding collapse_dashes
collapse_dashes-IsSingle after [] = tt
collapse_dashes-IsSingle after (c ∷ s) = elim (Bool-cases (c == dash)) [
  | inl e ↦ ground (arith, collapse_dashes-IsSingle true s)
  | inr e ↦ ground (arith, collapse_dashes-IsSingle false s)
]

IsSingle-weaken : (after : Bool) (s : Text) → IsSingle after s → IsSingle false s
IsSingle-weaken after [] h = tt
IsSingle-weaken after (c ∷ s) h = (refl, h.1)

abbrev is_dash : ℕ → Bool
is_dash c = c == dash

-- Removing characters at the ends keeps both.
module _ (p : ℕ → Bool) where
  strip_left-IsIdText : (s : Text) → IsIdText s → IsIdText (strip_left p s)
  unfolding strip_left
  strip_left-IsIdText [] h = tt
  strip_left-IsIdText (c ∷ s) h = ground (arith, strip_left-IsIdText s h.1)

  keep_right-IsIdText :
      (c : ℕ) (s : Text) → is_id_char c ≡ true → IsIdText s → IsIdText (keep_right p c s)
  keep_right-IsIdText c [] h k = ground arith
  keep_right-IsIdText c (d ∷ s) h k = (h, k)

  strip_right-IsIdText : (s : Text) → IsIdText s → IsIdText (strip_right p s)
  unfolding strip_right
  strip_right-IsIdText [] h = tt
  strip_right-IsIdText (c ∷ s) h =
      keep_right-IsIdText c (strip_right p s) h.0 (strip_right-IsIdText s h.1)

  strip_left-IsSingle : (s : Text) → IsSingle false s → IsSingle false (strip_left p s)
  unfolding strip_left
  strip_left-IsSingle [] h = tt
  strip_left-IsSingle (c ∷ s) h = elim (Bool-cases (p c)) [
    | inl e ↦ rw e (strip_left-IsSingle s (IsSingle-weaken (c == dash) s h.1))
    | inr e ↦ rw e h
  ]

  keep_right-IsSingle :
      (after : Bool) (c : ℕ) (s : Text)
      → (after && c == dash) ≡ false
      → IsSingle (c == dash) s
      → IsSingle after (keep_right p c s)
  keep_right-IsSingle after c [] h k = elim (Bool-cases (p c)) [
    | inl e ↦ rw e tt
    | inr e ↦ rw e (h, tt)
  ]
  keep_right-IsSingle after c (d ∷ s) h k = (h, k)

  strip_right-IsSingle :
      (after : Bool) (s : Text) → IsSingle after s → IsSingle after (strip_right p s)
  unfolding strip_right
  strip_right-IsSingle after [] h = tt
  strip_right-IsSingle after (c ∷ s) h =
      keep_right-IsSingle after c (strip_right p s) h.0 (strip_right-IsSingle (c == dash) s h.1)

-- On a text of this shape each stage does nothing.
replace_others-fixed : (s : Text) → IsIdText s → replace_others false s ≡ s
unfolding replace_others
replace_others-fixed [] h = refl
replace_others-fixed (c ∷ s) h = ground (arith, h.0, replace_others-fixed s h.1)

collapse_dashes-fixed : (after : Bool) (s : Text) → IsSingle after s → collapse_dashes after s ≡ s
unfolding collapse_dashes
collapse_dashes-fixed after [] h = refl
collapse_dashes-fixed after (c ∷ s) h = elim (Bool-cases (c == dash)) [
  | inl e ↦ ground (arith, collapse_dashes-fixed true s)
  | inr e ↦ ground (arith, collapse_dashes-fixed false s)
]

id_char-not_space : (c : ℕ) → is_id_char c ≡ true → is_space c ≡ false
unfolding is_id_char is_word is_space
id_char-not_space c h = ground arith

strip_left-fixed : (s : Text) → IsIdText s → strip_left is_space s ≡ s
unfolding strip_left
strip_left-fixed [] h = refl
strip_left-fixed (c ∷ s) h = rw (id_char-not_space c h.0) refl

strip_right-fixed : (s : Text) → IsIdText s → strip_right is_space s ≡ s
unfolding strip_right
strip_right-fixed [] h = refl
strip_right-fixed (c ∷ s) h =
    ground (arith, id_char-not_space c h.0, strip_right-fixed s h.1, keep s)
  where
    keep : (t : Text) → keep_right is_space c t ≡ c ∷ t
    keep [] = rw (id_char-not_space c h.0) refl
    keep (d ∷ t) = refl

strip-fixed : (s : Text) → IsIdText s → strip s ≡ s
unfolding strip
strip-fixed s h = rw (strip_left-fixed s h) (strip_right-fixed s h)

cleaned-IsIdText : (value : Text) → IsIdText (cleaned value)
unfolding cleaned strip_by
cleaned-IsIdText value =
    let s = collapse_dashes false (replace_others false (strip value)) in
    strip_right-IsIdText is_dash (strip_left is_dash s) (
      strip_left-IsIdText is_dash s (
        collapse_dashes-IsIdText false (replace_others false (strip value))
          (replace_others-IsIdText false (strip value))))

cleaned-IsSingle : (value : Text) → IsSingle false (cleaned value)
unfolding cleaned strip_by
cleaned-IsSingle value =
    let s = collapse_dashes false (replace_others false (strip value)) in
    strip_right-IsSingle is_dash false (strip_left is_dash s) (
      strip_left-IsSingle is_dash s
        (collapse_dashes-IsSingle false (replace_others false (strip value))))

cleaned-stripped : (value : Text) → strip_by is_dash (cleaned value) ≡ cleaned value
unfolding cleaned
cleaned-stripped value =
    strip_by_idem is_dash (collapse_dashes false (replace_others false (strip value)))

-- A text in the shape of an identifier.
pub record IsClean (s : Text) : Type 0 where
  pub chars : IsIdText s
  pub single : IsSingle false s
  pub stripped : strip_by is_dash s ≡ s

cleaned-IsClean : (value : Text) → IsClean (cleaned value)
cleaned-IsClean value = record {
  chars = cleaned-IsIdText value;
  single = cleaned-IsSingle value;
  stripped = cleaned-stripped value;
}

cleaned-fixed : (s : Text) → IsClean s → cleaned s ≡ s
unfolding cleaned
cleaned-fixed s h =
    rw
      (
        strip-fixed s h.chars,
        replace_others-fixed s h.chars,
        collapse_dashes-fixed false s h.single,
      )
      h.stripped

or_id-IsClean : (s : Text) → IsClean s → IsClean (or_id s) × (or_id s ≢ [])
unfolding is_id_char is_word strip_by strip_left strip_right
or_id-IsClean [] h =
    (record { chars = (refl, (refl, tt)); single = (refl, (refl, tt)); stripped = refl }, λ e. cc)
or_id-IsClean (c ∷ s) h = (h, λ e. cc)

-- Whatever the text, its identifier is not empty, has letters, digits, underscores and dashes only,
-- no two dashes side by side and no dash at an end.
pub sanitize_id-IsClean : (value : Text) → IsClean (sanitize_id value) × (sanitize_id value ≢ [])
unfolding sanitize_id cleaned
sanitize_id-IsClean value = or_id-IsClean (cleaned value) (cleaned-IsClean value)

or_id-nonempty : (s : Text) → s ≢ [] → or_id s ≡ s
or_id-nonempty [] h = absurd (h refl)
or_id-nonempty (c ∷ s) h = refl

-- `sanitize_id` changes nothing in a non-empty text that has the shape of an identifier.
pub sanitize_id-fixed : (s : Text) → IsClean s → s ≢ [] → sanitize_id s ≡ s
unfolding sanitize_id cleaned
sanitize_id-fixed s h full = ap or_id (cleaned-fixed s h) ∙ or_id-nonempty s full

-- `sanitize_id` changes nothing in its own results.
pub sanitize_id_idem : (value : Text) → sanitize_id (sanitize_id value) ≡ sanitize_id value
sanitize_id_idem value =
    let (clean, full) = sanitize_id-IsClean value in
    sanitize_id-fixed (sanitize_id value) clean full
