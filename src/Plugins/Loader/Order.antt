-- ===== src/Plugins/Loader/Order.antt =====
-- Which plugin files the loader registers, and what ends it (benchmark/plugins/loader.py).
use scheduler_simulator.Prelude.{◌≡◌, Option, none, some, List, [], ◌∷◌, ◌++◌, map, Text, ◌⊎◌}
use scheduler_simulator.Plugins.Table.{RegisterError, register}
use scheduler_simulator.Plugins.Registry.{Registry, new_registry}
use scheduler_simulator.Plugins.Builtins.{register_builtin_plugins}
use scheduler_simulator.Plugins.Loader.{
  FileSystem, split_plugin_paths, discover_python_files, LoadError, bad_module, rejected, Loaded,
  Load,
}

abbrev pub builtin_registry : Registry
builtin_registry = (register_builtin_plugins new_registry).0

-- The files at the given paths and then those of the default folder, each once.
abbrev local_paths : FileSystem → Option Text → List Text
local_paths fs none = []
local_paths fs (some d) = fs.resolve_path d ∷ []

abbrev pub given_files : FileSystem → (local_dir : Option Text) → Text → List Text
given_files fs local_dir raw =
    discover_python_files fs
      (map fs.resolve_path (split_plugin_paths raw) ++ local_paths fs local_dir)

module _ (load : Load) where
  -- The registry after the files, one after the other, if each can be loaded and raises nothing.
  unfoldable pub registered : List Text → Registry → Option Registry
  registered [] r = some r
  registered (f ∷ files) r = elim (load f) [
    | none ↦ none
    | some register ↦
        let (r', raised) = register r in elim raised [ none ↦ registered files r' | some e ↦ none ]
  ]

  -- The file f, which meets the registry r, ends the loading with the error e and the registry r'.
  abbrev pub Fails : (f : Text) (r : Registry) (e : LoadError) (r' : Registry) → Type 0
  Fails f r e r' =
      ((load f ≡ none) × (e ≡ bad_module f) × (r' ≡ r))
      ⊎ ((register : Registry → Registry × Option RegisterError) × (e' : RegisterError) × (load f
            ≡ some register)
          × ((register r).1 ≡ some e')
          × (e ≡ rejected e')
          × (r' ≡ (register r).0))

  -- All files were registered, or those before the first that fails.
  abbrev pub Outcome :
      List Text → Registry → (registry : Registry) (done : List Text) → Option LoadError → Type 0
  Outcome files r0 registry done none = (done ≡ files) × (registered files r0 ≡ some registry)
  Outcome files r0 registry done (some e) =
      (f : Text) × (rest : List Text) × (r : Registry) × (files ≡ done ++ f ∷ rest)
      × (registered done r0 ≡ some r)
      × Fails f r e registry

  abbrev pub IsOutcome : List Text → Registry → Loaded → Type 0
  IsOutcome files r0 l = Outcome files r0 l.registry l.files l.raised
