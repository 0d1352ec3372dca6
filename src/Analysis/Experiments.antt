-- ===== src/Analysis/Experiments.antt =====
-- scripts/aggregate_results.py: how experiment ids become a column and six flags, and the label of a
-- topology. scripts/export_summary_table.py: how the column is read again.
pub mod Names
pub mod Flags
pub mod Column
use scheduler_simulator.Prelude.{
  ℕ, suc, ◌+◌, ◌-◌, ◌*◌, Bool, true, false, not, ◌&&◌, ◌==◌, leb, Option, none, some, List, [], ◌∷◌,
  ◌++◌, map, if◌then◌else◌, Text, codes, text_eq, is_empty, strip, lower, set, show_ℤ, ℤ, split,
  strip_parts,
}
use scheduler_simulator.Analysis.Cells.{shown}
use scheduler_simulator.Analysis.Digits.{digit_of, is_digit}

-- separator.join(texts)
unfoldable pub join : (separator : Text) → List Text → Text
join separator [] = []
join separator (t ∷ []) = t
join separator (t ∷ u ∷ ts) = t ++ (separator ++ join separator (u ∷ ts))

-- The number that the digits at the start of a text stand for, after those that are read.
unfoldable pub read_digits : ℕ → Text → ℕ
read_digits acc [] = acc
read_digits acc (c ∷ s) = elim (digit_of c) [ none ↦ acc | some d ↦ read_digits (acc * 10 + d) s ]

-- EXP_NUM_RE: "exp", and digits, of which there is one at least
unfoldable pub match_number : Text → Option ℕ
match_number (e ∷ x ∷ p ∷ c ∷ s) =
    if e == b'e' && x == b'x' && p == b'p' && is_digit c then some (read_digits 0 (c ∷ s)) else none
match_number _ = none

unfoldable pub exp_number : Text → Option ℕ
exp_number exp_id = match_number (lower exp_id)

-- {f"Exp{i}": 0 for i in range(1, 7)}: the six flags in their order
abbrev pub no_flags : List ℕ
no_flags = 0 ∷ 0 ∷ 0 ∷ 0 ∷ 0 ∷ 0 ∷ []

-- The body of the loop.
unfoldable pub set_flag : Text → List ℕ → List ℕ
set_flag exp_id flags = elim (exp_number exp_id) [
  | none ↦ flags
  | some idx ↦ if leb 1 idx && leb idx 6 then set flags (idx - 1) 1 else flags
]

unfoldable pub set_flags : List Text → List ℕ → List ℕ
set_flags [] flags = flags
set_flags (exp_id ∷ ids) flags = set_flags ids (set_flag exp_id flags)

unfoldable pub experiment_flags : List Text → List ℕ
experiment_flags ids = set_flags ids no_flags

-- ";".join(experiment_ids) if experiment_ids else "none"
unfoldable pub experiments_column : List Text → Text
experiments_column [] = codes "none"
experiments_column (t ∷ ts) = join (codes ";") (t ∷ ts)

-- experiment_flags([] if exp_ids == "none" else exp_ids.split(";"))
unfoldable pub column_flags : Text → List ℕ
column_flags exp_ids =
    experiment_flags (if text_eq exp_ids (codes "none") then [] else split b';' exp_ids)

unfoldable pub without_none : List Text → List Text
without_none [] = []
without_none (p ∷ ps) =
    let rest = without_none ps in if text_eq (lower p) (codes "none") then rest else p ∷ rest

abbrev pub or_none : List Text → List Text
or_none [] = codes "none" ∷ []
or_none (p ∷ ps) = p ∷ ps

-- export_summary_table.py
unfoldable pub split_experiments : Text → List Text
split_experiments raw = or_none (without_none (strip_parts (split b';' raw)))

-- c.upper() for ASCII
abbrev pub upper_char : ℕ → ℕ
upper_char c = if leb b'a' c && leb c b'z' then c - 32 else c

abbrev pub upper : Text → Text
upper s = map upper_char s

-- topology_variant, from the cells of the row
unfoldable pub topology_variant : (topology balancer stealing : Option Text) → (cores : ℤ) → Text
topology_variant topology balancer stealing cores =
    let t = lower (shown topology) in
    let b = lower (shown balancer) in
    let s = lower (shown stealing) in
    let lb =
      if text_eq b (codes "rr")
      then codes "RR"
      else if text_eq b (codes "leastloaded")
      then codes "LL"
      else upper b in
    let ws =
      if text_eq s (codes "on")
      then codes "WS-on"
      else if text_eq s (codes "off")
      then codes "WS-off"
      else codes "WS-na" in
    if text_eq t (codes "sq")
    then codes "SQ-" ++ (show_ℤ cores ++ codes "c")
    else if text_eq t (codes "mq")
    then codes "MQ-" ++ (lb ++ (codes "-" ++ (show_ℤ cores ++ (codes "c-" ++ ws))))
    else upper t ++ (codes "-" ++ (show_ℤ cores ++ codes "c"))
