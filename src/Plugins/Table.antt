-- ===== src/Plugins/Table.antt =====
-- benchmark/plugins/registry.py. `SchedulerPlugin` and `WorkloadPlugin` have the same fields, and
-- the registry treats them alike, so both are `Plugin` and each pair of its dictionaries is a
-- `PluginTable`. A method that raises has still made the changes that stand before the `raise`:
-- it returns the table beside the error.
pub mod Laws
pub mod AboutAlias
pub mod Names
pub mod Errors
use scheduler_simulator.Prelude.{
  Bool, true, false, Option, none, some, List, [], ◌∷◌, map, if◌then◌else◌, not, Text, Dict,
  text_eq, is_empty, strip, lower, lookup, insert, sorted_set,
}

pub record Plugin : Type 0 where
  pub key : Text
  pub cli_token : Text
  pub display_name : Text
  pub description : Text
  pub aliases : List Text
  pub is_meta : Bool

pub record PluginTable : Type 0 where
  -- `_schedulers` or `_workloads`
  pub plugins : Dict Text Plugin
  -- `_scheduler_alias_to_key` or `_workload_alias_to_key`
  pub alias_to_key : Dict Text Text

-- What the `ValueError` says.
pub data RegisterError : Type 0 where
  empty_key : RegisterError
  duplicate_key : Text → RegisterError
  empty_cli_token : Text → RegisterError
  alias_conflict : (alias owner : Text) → RegisterError

abbrev pub empty_table : PluginTable
empty_table = record { plugins = []; alias_to_key = [] }

unfoldable pub norm : Text → Text
norm value = lower (strip value)

-- x or y
abbrev pub or_else : Text → Text → Text
or_else [] y = y
or_else (c ∷ s) y = c ∷ s

abbrev pub drop_empty : List Text → List Text
drop_empty [] = []
drop_empty ([] ∷ l) = drop_empty l
drop_empty ((c ∷ s) ∷ l) = (c ∷ s) ∷ drop_empty l

unfoldable pub normalize : Plugin → Plugin
normalize p = record {
  key = norm p.key;
  cli_token = norm p.cli_token;
  display_name = or_else (strip p.display_name) p.key;
  description = strip p.description;
  aliases = sorted_set (drop_empty (map norm p.aliases));
  is_meta = p.is_meta;
}

-- One round of the loop over the aliases.
unfoldable pub add_alias : (key alias : Text) → PluginTable → PluginTable × Option RegisterError
add_alias key alias t =
    if text_eq alias key then (t, none) else elim (lookup text_eq alias t.alias_to_key) [
      | some owner ↦ (t, some (alias_conflict alias owner))
      | none ↦ (record t { alias_to_key = insert text_eq alias key t.alias_to_key }, none)
    ]

unfoldable pub add_aliases :
    (key : Text) → List Text → PluginTable → PluginTable × Option RegisterError
add_aliases key [] t = (t, none)
add_aliases key (alias ∷ rest) t =
    let (t', raised) = add_alias key alias t in
    elim raised [ none ↦ add_aliases key rest t' | some e ↦ (t', some e) ]

-- The assignments that stand before the loop over the aliases.
unfoldable pub add_plugin : Plugin → PluginTable → PluginTable
add_plugin n t = record {
  plugins = insert text_eq n.key n t.plugins;
  alias_to_key = insert text_eq n.key n.key t.alias_to_key;
}

-- The method after its argument is normalized: the guards come in the order of the source.
unfoldable pub register_normalized : Plugin → PluginTable → PluginTable × Option RegisterError
register_normalized n t =
    if is_empty n.key then (t, some empty_key) else elim (lookup text_eq n.key t.plugins) [
      | some other ↦ (t, some (duplicate_key n.key))
      | none ↦
          if is_empty n.cli_token
          then (t, some (empty_cli_token n.key))
          else add_aliases n.key n.aliases (add_plugin n t)
    ]

unfoldable pub register : Plugin → PluginTable → PluginTable × Option RegisterError
register p t = register_normalized (normalize p) t

unfoldable pub resolve : Text → PluginTable → Option Plugin
resolve value t = elim (lookup text_eq (norm value) t.alias_to_key) [
  | none ↦ none
  | some key ↦ if is_empty key then none else lookup text_eq key t.plugins
]

-- `scheduler_keys`, `workload_keys`
unfoldable pub plugin_keys : PluginTable → List Text
plugin_keys t = sorted_set (map (λ e. e.0) t.plugins)

-- `scheduler_help_tokens`, `workload_help_tokens`
unfoldable pub help_tokens : PluginTable → List Text
help_tokens t = sorted_set (map (λ e. e.1.key) t.plugins)
