-- ===== src/Suite/Experiments.antt =====
-- `pick_experiments` of benchmark/runner/run_suite.py.
pub mod Picked
use scheduler_simulator.Prelude.{
  Bool, true, false, List, [], ◌∷◌, if◌then◌else◌, Text, is_empty, strip, split, strip_parts, any,
}
use scheduler_simulator.Python.{
  Result, ok, err, ◌>>=◌, ◌>>◌, check, system_exit, Value, null, get_or, member_of,
}

module _ {F : Type 0} where
  -- exp.get("id") in wanted
  unfoldable pub is_wanted : List Text → Value F → Result Bool
  is_wanted wanted exp = get_or "id" exp null >>= member_of wanted

  -- [exp for exp in all_experiments if exp.get("id") in wanted]
  unfoldable pub pick : List Text → List (Value F) → Result (List (Value F))
  pick wanted [] = ok []
  pick wanted (exp ∷ exps) = do
    hit ← is_wanted wanted exp
    rest ← pick wanted exps
    ok (if hit then exp ∷ rest else rest)

  -- Whether the id of an experiment is this text.
  unfoldable pub has_id : Text → Value F → Bool
  has_id name exp = elim (get_or "id" exp null >>= member_of (name ∷ [])) [
    | ok b ↦ b
    | err e ↦ false
  ]

  -- wanted - {exp.get("id") for exp in picked} is empty
  unfoldable pub all_found : List Text → List (Value F) → Bool
  all_found [] picked = true
  all_found (name ∷ names) picked =
      if any (has_id name) picked then all_found names picked else false

  unfoldable pub pick_experiments : List (Value F) → Text → Result (List (Value F))
  pick_experiments all_experiments only = if is_empty (strip only) then ok all_experiments else do
    let wanted = strip_parts (split b',' only)
    picked ← pick wanted all_experiments
    check (all_found wanted picked) system_exit
    ok picked
