-- ===== src/Analysis/Grouping.antt =====
-- The idiom `groups = defaultdict(list)` with `groups[key(row)].append(row)` of the analysis scripts.
pub mod Laws
pub mod Singletons
pub mod Tally
use scheduler_simulator.Prelude.{Bool, List, [], ◌∷◌, ◌++◌, if◌then◌else◌, Dict}

module _ {K V : Type 0} (same : K → K → Bool) where
  -- groups[k].append(v)
  unfoldable pub push : K → V → Dict K (List V) → Dict K (List V)
  push k v [] = (k, v ∷ []) ∷ []
  push k v ((j, vs) ∷ d) = if same j k then (j, vs ++ v ∷ []) ∷ d else (j, vs) ∷ push k v d

  unfoldable pub group_onto : (key : V → K) → Dict K (List V) → List V → Dict K (List V)
  group_onto key d [] = d
  group_onto key d (v ∷ vs) = group_onto key (push (key v) v d) vs

  unfoldable pub group_by : (key : V → K) → List V → Dict K (List V)
  group_by key vs = group_onto key [] vs

  -- The rows with a key, in their order.
  unfoldable pub members : (key : V → K) → K → List V → List V
  members key k [] = []
  members key k (v ∷ vs) = if same (key v) k then v ∷ members key k vs else members key k vs

  -- groups[k] = step(groups[k]), where a key that is new starts from a default.
  unfoldable pub adjust : K → V → (V → V) → Dict K V → Dict K V
  adjust k start step [] = (k, step start) ∷ []
  adjust k start step ((j, v) ∷ d) =
      if same j k then (j, step v) ∷ d else (j, v) ∷ adjust k start step d

-- sorted(d.items()), for keys that all differ
module _ {K V : Type 0} (lt : K → K → Bool) where
  unfoldable pub insert_item : K × V → Dict K V → Dict K V
  insert_item e [] = e ∷ []
  insert_item e (g ∷ d) = if lt g.0 e.0 then g ∷ insert_item e d else e ∷ g ∷ d

  unfoldable pub sorted_items : Dict K V → Dict K V
  sorted_items [] = []
  sorted_items (e ∷ d) = insert_item e (sorted_items d)
