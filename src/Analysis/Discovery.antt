-- ===== src/Analysis/Discovery.antt =====
-- scripts/aggregate_results.py, discover_paths, and the same loop in main of
-- scripts/generate_run_manifests.py, over the CSV files that the file system gives in any order. A
-- path is the list of its parts; sorting keeps the paths that it meets first before equal ones.
use scheduler_simulator.Prelude.{
  Bool, true, false, ◌||◌, if◌then◌else◌, List, [], ◌∷◌, Text, codes, text_eq, text_lt, contains,
}
use scheduler_simulator.Python.{Result, ok, err, system_exit}

-- path.name
unfoldable pub file_name : List Text → Text
file_name [] = []
file_name (p ∷ []) = p
file_name (p ∷ q ∷ ps) = file_name (q ∷ ps)

-- p < q for two paths
unfoldable pub parts_lt : List Text → List Text → Bool
parts_lt [] [] = false
parts_lt [] (q ∷ qs) = true
parts_lt (p ∷ ps) [] = false
parts_lt (p ∷ ps) (q ∷ qs) = if text_eq p q then parts_lt ps qs else text_lt p q

unfoldable pub insert_path : List Text → List (List Text) → List (List Text)
insert_path p [] = p ∷ []
insert_path p (q ∷ qs) = if parts_lt q p then q ∷ insert_path p qs else p ∷ q ∷ qs

unfoldable pub sorted_paths : List (List Text) → List (List Text)
sorted_paths [] = []
sorted_paths (p ∷ ps) = insert_path p (sorted_paths ps)

-- "logs" in path.parts or "manifests" in path.parts
abbrev pub is_helper : List Text → Bool
is_helper parts = contains parts (codes "logs") || contains parts (codes "manifests")

-- The paths with the name, outside the helper folders.
unfoldable pub named_paths : Text → List (List Text) → List (List Text)
named_paths name [] = []
named_paths name (p ∷ ps) =
    let rest = named_paths name ps in
    if is_helper p then rest else if text_eq (file_name p) name then p ∷ rest else rest

unfoldable pub discover_paths : List (List Text) → List (List Text) × List (List Text)
discover_paths files = (
  sorted_paths (named_paths (codes "metrics.csv") files),
  sorted_paths (named_paths (codes "tasks.csv") files),
)

-- The metrics files of generate_run_manifests.py, of which there must be one.
unfoldable pub manifest_paths : List (List Text) → Result (List (List Text))
manifest_paths files = elim (sorted_paths (named_paths (codes "metrics.csv") files)) [
  | [] ↦ err system_exit
  | p ∷ ps ↦ ok (p ∷ ps)
]
