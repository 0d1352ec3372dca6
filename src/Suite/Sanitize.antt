-- ===== src/Suite/Sanitize.antt =====
-- `sanitize_id` of benchmark/runner/run_suite.py.
pub mod Words
pub mod Shape
use scheduler_simulator.Prelude.{
  ℕ, Bool, true, false, ◌&&◌, ◌||◌, [], ◌∷◌, if◌then◌else◌, ◌==◌, leb, Text, codes, strip, strip_by,
}

abbrev pub dash : ℕ
dash = b'-'

-- [A-Za-z0-9_]
unfoldable pub is_word : ℕ → Bool
is_word c =
    leb b'A' c && leb c b'Z' || leb b'a' c && leb c b'z' || leb b'0' c && leb c b'9' || c == b'_'

-- [A-Za-z0-9_-]
unfoldable pub is_id_char : ℕ → Bool
is_id_char c = is_word c || c == dash

-- re.sub(r"[^A-Za-z0-9_-]+", "-", s): `inside` says that the match has begun.
unfoldable pub replace_others : (inside : Bool) → Text → Text
replace_others inside [] = []
replace_others inside (c ∷ s) =
    let keep = c ∷ replace_others false s in
    let skip = replace_others true s in
    if is_id_char c then keep else if inside then skip else dash ∷ skip

-- re.sub(r"-{2,}", "-", s): `after_dash` says that a dash was just written.
unfoldable pub collapse_dashes : (after_dash : Bool) → Text → Text
collapse_dashes after_dash [] = []
collapse_dashes after_dash (c ∷ s) =
    let other = c ∷ collapse_dashes false s in
    let more = collapse_dashes true s in
    if c == dash then (if after_dash then more else dash ∷ more) else other

abbrev pub or_id : Text → Text
or_id [] = codes "id"
or_id (c ∷ s) = c ∷ s

unfoldable pub sanitize_id : Text → Text
sanitize_id value =
    or_id (strip_by (λ c. c == dash) (collapse_dashes false (replace_others false (strip value))))
