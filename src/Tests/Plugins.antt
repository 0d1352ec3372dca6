-- ===== src/Tests/Plugins.antt =====
-- Tests of the plugin registry and its loader, and their theorems at small tables.
use scheduler_simulator.Prelude.{
  if◌then◌else◌, ◌≡◌, refl, true, false, none, some, List, [], ◌∷◌, Text, codes, text_eq, is_empty,
  lookup, contains, strip, map,
}
use scheduler_simulator.Python.{is_some}
use scheduler_simulator.Plugins.Table.{
  Plugin, PluginTable, alias_conflict, empty_table, norm, normalize, register, resolve,
}
use scheduler_simulator.Plugins.Table.AboutAlias.{IsAboutAlias}
use scheduler_simulator.Plugins.Table.Laws.{IsWellFormed, register-IsWellFormed}
use scheduler_simulator.Plugins.Table.Names.{
  resolve-is_some, register-resolve, register-resolve_other, register_takes_alias,
}
use scheduler_simulator.Plugins.Table.Errors.{register-AfterError}
use scheduler_simulator.Plugins.Registry.{new_registry, register_scheduler}
use scheduler_simulator.Plugins.Builtins.{register_builtin_plugins}
use scheduler_simulator.Plugins.Loader.{
  split_plugin_paths, FileSystem, Load, discover_python_files, files_at_all,
}
use scheduler_simulator.Plugins.Loader.Laws.{
  IsUnique, discover_python_files-IsUnique, IsWellFormed-empty_table,
}
use scheduler_simulator.Tests.Samples.{program}

-- The built-in plugins are registered without an error.
builtin_fine : (register_builtin_plugins new_registry).1 ≡ none
unfolding program
builtin_fine = refl

abbrev plugin : (key : Text) (aliases : List Text) → Plugin
plugin key aliases = record {
  key = key;
  cli_token = key;
  display_name = key;
  description = [];
  aliases = aliases;
  is_meta = false;
}

abbrev fifo : Plugin
fifo = plugin (codes " FIFO ") (codes "fcfs" ∷ [])

abbrev cfs : Plugin
cfs = plugin (codes "cfs") (codes "Fair" ∷ [])

-- A plugin whose key is an alias of `fifo`.
abbrev fcfs : Plugin
fcfs = plugin (codes "FCFS") []

-- A plugin with an alias of `fifo`.
abbrev rival : Plugin
rival = plugin (codes "rival") (codes "fcfs" ∷ [])

abbrev one_plugin : PluginTable
one_plugin = (register fifo empty_table).0

one_plugin-IsWellFormed : IsWellFormed one_plugin
one_plugin-IsWellFormed = register-IsWellFormed fifo empty_table IsWellFormed-empty_table

register-IsWellFormed_example : IsWellFormed (register cfs one_plugin).0
register-IsWellFormed_example = register-IsWellFormed cfs one_plugin one_plugin-IsWellFormed

fifo_fine : (register fifo empty_table).1 ≡ none
unfolding program
fifo_fine = refl

fcfs_full : is_empty (norm (codes "FCFS")) ≡ false
unfolding program
fcfs_full = refl

fcfs_named : contains (map norm (fifo.key ∷ fifo.aliases)) (norm (codes "FCFS")) ≡ true
unfolding program
fcfs_named = refl

register-resolve_example : resolve (codes "FCFS") one_plugin ≡ some (normalize fifo)
register-resolve_example =
    register-resolve fifo empty_table (codes "FCFS") fifo_fine fcfs_full fcfs_named

cfs_other : text_eq (norm cfs.key) (norm (codes "fcfs")) ≡ false
unfolding program
cfs_other = refl

fcfs_resolves : resolve (codes "fcfs") one_plugin ≡ some (normalize fifo)
unfolding program
fcfs_resolves = refl

register-resolve_other_example :
    resolve (codes "fcfs") (register cfs one_plugin).0 ≡ some (normalize fifo)
register-resolve_other_example =
    register-resolve_other cfs one_plugin (codes "fcfs") (normalize fifo) cfs_other fcfs_resolves

fcfs_taken : resolve fcfs.key one_plugin ≡ some (normalize fifo)
unfolding program
fcfs_taken = refl

fcfs_no_key : lookup text_eq (norm fcfs.key) one_plugin.plugins ≡ none
unfolding program
fcfs_no_key = refl

fcfs_token : is_empty (normalize fcfs).cli_token ≡ false
unfolding program
fcfs_token = refl

register_takes_alias_example :
    (text_eq (normalize fifo).key (norm fcfs.key) ≡ false)
    × IsAboutAlias (norm fcfs.key) (normalize fcfs).aliases (register fcfs one_plugin).1
    × (resolve fcfs.key (register fcfs one_plugin).0 ≡ some (normalize fcfs))
register_takes_alias_example =
    register_takes_alias fcfs one_plugin (normalize fifo) one_plugin-IsWellFormed fcfs_taken
      fcfs_no_key fcfs_full fcfs_token

resolve-is_some_example :
    is_some (resolve (codes "fair") one_plugin)
    ≡ is_some (lookup text_eq (norm (codes "fair")) one_plugin.alias_to_key)
resolve-is_some_example = resolve-is_some (codes "fair") one_plugin one_plugin-IsWellFormed

rival_refused : (register rival one_plugin).1 ≡ some (alias_conflict (codes "fcfs") (codes "fifo"))
unfolding program
rival_refused = refl

-- The refused plugin stays.
register-AfterError_example :
    lookup text_eq (normalize rival).key (register rival one_plugin).0.plugins
    ≡ some (normalize rival)
register-AfterError_example =
    register-AfterError rival one_plugin (alias_conflict (codes "fcfs") (codes "fifo"))
      rival_refused

-- Two folders with the same file.
abbrev files : FileSystem
files = record {
  is_file = λ path. false;
  is_dir = λ path. true;
  suffix = λ path. codes ".py";
  name = λ path. path;
  python_files = λ path. codes "x.py" ∷ codes "__init__.py" ∷ [];
  resolve_path = λ path. path;
}

abbrev folders : List Text
folders = codes "a" ∷ codes "b" ∷ []

discover_python_files-IsUnique_example :
    IsUnique (discover_python_files files folders)
    × ((f : Text)
        → contains (discover_python_files files folders) f
          ≡ contains (files_at_all files folders) f)
discover_python_files-IsUnique_example = discover_python_files-IsUnique files folders

found_once : discover_python_files files folders ≡ codes "x.py" ∷ []
unfolding discover_python_files text_eq
found_once = refl

split_test : split_plugin_paths (codes "a, b: c,:") ≡ codes "a" ∷ codes "b" ∷ codes "c" ∷ []
unfolding split_plugin_paths strip
split_test = refl

-- The only file that can be loaded registers `cfs` as a scheduler.
abbrev load : Load
load f = if text_eq f (codes "x.py") then some (register_scheduler cfs) else none
