-- ===== src/Suite/Sanitize/Words.antt =====
-- The words of a text are its longest runs of letters, digits and underscores. `sanitize_id` keeps
-- them, so what it makes of two texts with different words is different.
use scheduler_simulator.Prelude.{
  ℕ, ◌≡◌, refl, ◌≢◌, sym, ap, ◌∙◌, Bool, true, false, List, [], ◌∷◌, ◌++◌, append_assoc, append-nil,
  if◌then◌else◌, ◌==◌, All, Text, strip, strip_by, strip_left, strip_right, keep_right, is_space,
  arith,
}
use scheduler_simulator.Suite.Sanitize.{
  dash, is_word, is_id_char, replace_others, collapse_dashes, or_id, sanitize_id,
}

-- `open` is the word being read.
abbrev pub close : Text → List Text → List Text
close [] ws = ws
close (c ∷ w) ws = (c ∷ w) ∷ ws

unfoldable pub words_from : (begun : Text) → Text → List Text
words_from begun [] = close begun []
words_from begun (c ∷ s) =
    let longer = words_from (begun ++ c ∷ []) s in
    let next = words_from [] s in if is_word c then longer else close begun next

unfoldable pub words : Text → List Text
words = words_from []

is_word-dash : is_word dash ≡ false
unfolding is_word
is_word-dash = refl

-- Either stage of the substitution keeps the words.
words-replace_others :
    (s : Text)
    → ((begun : Text) → words_from begun (replace_others false s) ≡ words_from begun s)
      × (words_from [] (replace_others true s) ≡ words_from [] s)
unfolding words_from replace_others is_id_char
words-replace_others [] = (λ begun. refl, refl)
words-replace_others (c ∷ s) =
    let (outside, inside) = words-replace_others s in
    (
      λ begun. ground (arith, is_word-dash, outside (begun ++ c ∷ []), outside [], inside),
      ground (arith, is_word-dash, outside (c ∷ []), outside [], inside),
    )

words-collapse_dashes :
    (s : Text)
    → ((begun : Text) → words_from begun (collapse_dashes false s) ≡ words_from begun s)
      × (words_from [] (collapse_dashes true s) ≡ words_from [] s)
unfolding words_from collapse_dashes
words-collapse_dashes [] = (λ begun. refl, refl)
words-collapse_dashes (c ∷ s) =
    let (plain, dashed) = words-collapse_dashes s in
    (
      λ begun. ground (arith, is_word-dash, plain (begun ++ c ∷ []), plain [], dashed),
      ground (arith, is_word-dash, plain (c ∷ []), plain [], dashed),
    )

-- Removing separators at the ends keeps the words.
module _ (p : ℕ → Bool) (separates : (c : ℕ) → p c ≡ true → is_word c ≡ false) where
  words-strip_left : (s : Text) → words_from [] (strip_left p s) ≡ words_from [] s
  unfolding words_from strip_left
  words-strip_left [] = refl
  words-strip_left (c ∷ s) = ground (arith, separates c, words-strip_left s)

  words-keep_right :
      (c : ℕ) (begun s : Text) → words_from begun (keep_right p c s) ≡ words_from begun (c ∷ s)
  unfolding words_from
  words-keep_right c begun [] = ground (arith, separates c)
  words-keep_right c begun (d ∷ s) = refl

  words-strip_right : (begun s : Text) → words_from begun (strip_right p s) ≡ words_from begun s
  unfolding words_from strip_right
  words-strip_right begun [] = refl
  words-strip_right begun (c ∷ s) = ground (
    arith,
    words-keep_right c begun (strip_right p s),
    words-strip_right (begun ++ c ∷ []) s,
    words-strip_right [] s,
  )

  words-strip_by : (s : Text) → words (strip_by p s) ≡ words s
  unfolding words strip_by
  words-strip_by s = words-strip_right [] (strip_left p s) ∙ words-strip_left s

space-separates : (c : ℕ) → is_space c ≡ true → is_word c ≡ false
unfolding is_space is_word
space-separates c h = ground arith

dash-separates : (c : ℕ) → (c == dash) ≡ true → is_word c ≡ false
unfolding is_word
dash-separates c h = ground arith

-- The text before `or "id"`.
unfoldable pub cleaned : Text → Text
cleaned value =
    strip_by (λ c. c == dash) (collapse_dashes false (replace_others false (strip value)))

words-cleaned : (value : Text) → words (cleaned value) ≡ words value
unfolding cleaned
words-cleaned value =
    let replaced = replace_others false (strip value) in
    words-strip_by (λ c. c == dash) dash-separates (collapse_dashes false replaced)
    ∙ words-collapsed replaced
    ∙ words-replaced (strip value)
    ∙ words-stripped value
  where
    words-collapsed : (s : Text) → words (collapse_dashes false s) ≡ words s
    words-collapsed s = unfold words in (words-collapse_dashes s).0 []

    words-replaced : (s : Text) → words (replace_others false s) ≡ words s
    words-replaced s = unfold words in (words-replace_others s).0 []

    words-stripped : (s : Text) → words (strip s) ≡ words s
    words-stripped s = unfold strip in words-strip_by is_space space-separates s

words-or_id : (s : Text) → words s ≢ [] → or_id s ≡ s
unfolding words words_from
words-or_id [] h = absurd (h refl)
words-or_id (c ∷ s) h = refl

-- A text with a word in it keeps its words.
pub words-sanitize_id : (value : Text) → words value ≢ [] → words (sanitize_id value) ≡ words value
unfolding sanitize_id cleaned
words-sanitize_id value h =
    ap words (words-or_id (cleaned value) (λ e. h (sym (words-cleaned value) ∙ e)))
    ∙ words-cleaned value

-- The words of two texts that a separator joins.
words_from-append :
    (begun a b : Text) (c : ℕ)
    → is_word c ≡ false
    → words_from begun (a ++ c ∷ b) ≡ words_from begun a ++ words b
unfolding words_from words
words_from-append [] [] b c h = rw h refl
words_from-append (d ∷ begun) [] b c h = rw h refl
words_from-append begun (d ∷ a) b c h = ground (
  arith,
  words_from-append (begun ++ d ∷ []) a b c h,
  words_from-append [] a b c h,
  close-append begun (words_from [] a) (words_from [] b),
)
  where
    close-append : (w : Text) (xs ys : List Text) → close w xs ++ ys ≡ close w (xs ++ ys)
    close-append [] xs ys = refl
    close-append (x ∷ w) xs ys = refl

pub words-append :
    (a b : Text) (c : ℕ) → is_word c ≡ false → words (a ++ c ∷ b) ≡ words a ++ words b
unfolding words
words-append a b c h = words_from-append [] a b c h

words_from_word :
    (begun s : Text) → All (λ c. is_word c ≡ true) s → words_from begun s ≡ close (begun ++ s) []
unfolding words_from
words_from_word begun [] h = rw append-nil refl
words_from_word begun (c ∷ s) h =
    ground (arith, h.0, words_from_word (begun ++ c ∷ []) s h.1, append_assoc begun (c ∷ []) s)

-- A text of word characters is one word.
pub words_word : (s : Text) → All (λ c. is_word c ≡ true) s → words s ≡ close s []
unfolding words
words_word s h = words_from_word [] s h
