-- ===== src/Plugins/Loader.antt =====
-- benchmark/plugins/loader.py. The file system and the plugin files are parameters: `FileSystem`
-- says what `pathlib` reports, and `load` what importing a plugin file gives.
pub mod Laws
pub mod Order
use scheduler_simulator.Prelude.{
  ℕ, ◌≡◌, Bool, true, false, not, ◌&&◌, Option, none, some, List, [], ◌∷◌, ◌++◌, map, if◌then◌else◌,
  ◌==◌, Text, codes, text_eq, is_empty, strip, split, strip_parts, contains, any,
}
use scheduler_simulator.Plugins.Table.{RegisterError}
use scheduler_simulator.Plugins.Registry.{Registry, new_registry}
use scheduler_simulator.Plugins.Builtins.{register_builtin_plugins}

-- os.pathsep on POSIX
abbrev pub pathsep : ℕ
pathsep = b':'

-- One chunk of the loop over `raw.split(",")`, already stripped and not empty.
unfoldable pub split_chunk : Text → List Text
unfolding split strip_parts
split_chunk chunk =
    if any (λ c. c == pathsep) chunk then strip_parts (split pathsep chunk) else chunk ∷ []

unfoldable pub split_chunks : List Text → List Text
unfolding split_chunk
split_chunks [] = []
split_chunks (chunk ∷ chunks) = split_chunk chunk ++ split_chunks chunks

-- `_split_plugin_paths`
unfoldable pub split_plugin_paths : Text → List Text
unfolding split_chunks split strip_parts
split_plugin_paths raw =
    if is_empty (strip raw) then [] else split_chunks (strip_parts (split b',' raw))

-- What the loader asks of `pathlib`. A path is its text.
pub record FileSystem : Type 0 where
  pub is_file : Text → Bool
  pub is_dir : Text → Bool
  -- path.suffix and path.name
  pub suffix : Text → Text
  pub name : Text → Text
  -- sorted(path.glob("*.py"))
  pub python_files : Text → List Text
  -- Path(p).resolve()
  pub resolve_path : Text → Text

module _ (fs : FileSystem) where
  open fs use {is_file, is_dir, suffix, name, python_files, resolve_path}

  abbrev pub is_init : Text → Bool
  is_init path = text_eq (name path) (codes "__init__.py")

  unfoldable pub plugin_items : List Text → List Text
  plugin_items [] = []
  plugin_items (item ∷ items) =
      let rest = plugin_items items in if is_init item then rest else resolve_path item ∷ rest

  -- The files that one given path stands for.
  unfoldable pub files_at : Text → List Text
  unfolding plugin_items
  files_at path =
      if is_file path
      then (if text_eq (suffix path) (codes ".py") && not (is_init path)
          then resolve_path path ∷ []
          else [])
      else if is_dir path
      then plugin_items (python_files path)
      else []

  unfoldable pub files_at_all : List Text → List Text
  unfolding files_at
  files_at_all [] = []
  files_at_all (path ∷ paths) = files_at path ++ files_at_all paths

-- The loop with `seen`: each text once, at its first place.
unfoldable pub unique : (seen : List Text) → List Text → List Text
unique seen [] = []
unique seen (f ∷ files) =
    let skip = unique seen files in
    let keep = f ∷ unique (f ∷ seen) files in if contains seen f then skip else keep

-- `_discover_python_files`
unfoldable pub discover_python_files : FileSystem → List Text → List Text
unfolding files_at_all unique
discover_python_files fs paths = unique [] (files_at_all fs paths)

-- What ends `build_plugin_registry` early: a plugin file that cannot be imported or has no callable
-- `register`, or a registration that raises.
pub data LoadError : Type 0 where
  bad_module : Text → LoadError
  rejected : RegisterError → LoadError

pub record Loaded : Type 0 where
  pub registry : Registry
  pub files : List Text
  pub raised : Option LoadError

-- `load f` is `register` of the plugin file `f`, if it has one.
abbrev pub Load : Type 0
Load = Text → Option (Registry → Registry × Option RegisterError)

module _ (load : Load) where
  -- `_register_external_plugins`, over the discovered files.
  unfoldable pub register_files : List Text → Loaded → Loaded
  register_files [] l = l
  register_files (f ∷ files) l = elim (load f) [
    | none ↦ record l { raised = some (bad_module f) }
    | some register ↦
        let (r, raised) = register l.registry in
        elim raised [
          | none ↦ register_files files (record l { registry = r; files = l.files ++ f ∷ [] })
          | some e ↦ record l { registry = r; raised = some (rejected e) }
        ]
  ]

  -- `build_plugin_registry`; `local_dir` is the default plugin folder, if it exists.
  unfoldable pub build_plugin_registry : FileSystem → (local_dir : Option Text) → Text → Loaded
  build_plugin_registry fs local_dir raw =
      let (r, raised) = register_builtin_plugins new_registry in
      let start : Loaded = record { registry = r; files = []; raised = none } in
      let paths = map fs.resolve_path (split_plugin_paths raw) in
      elim raised [
        | some e ↦ record start { raised = some (rejected e) }
        | none ↦ elim local_dir [
          | none ↦ register_files (discover_python_files fs paths) start
          | some d ↦
              register_files (discover_python_files fs (paths ++ fs.resolve_path d ∷ [])) start
        ]
      ]
