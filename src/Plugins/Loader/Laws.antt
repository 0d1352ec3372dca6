-- ===== src/Plugins/Loader/Laws.antt =====
-- What the loader hands on: clean paths, each file once, and a well-formed registry.
use scheduler_simulator.Prelude.{
  ◌≡◌, refl, false, not, ◌&&◌, Option, some, List, [], ◌∷◌, ◌==◌, Text, text_eq_iff, text_eq_refl,
  is_empty, strip, strip_idem, contains, any, split, strip_parts, Bool-cases, Option-cases, inl,
  inr, All, All-append, lookup, arith,
}
use scheduler_simulator.Plugins.Table.{Plugin, RegisterError, empty_table, register}
use scheduler_simulator.Plugins.Table.Laws.{IsWellFormed, register-IsWellFormed}
use scheduler_simulator.Plugins.Registry.{
  Registry, new_registry, register_scheduler, register_workload,
}
use scheduler_simulator.Plugins.Builtins.{
  register_all, register_builtin_plugins, builtin_schedulers, builtin_workloads,
}
use scheduler_simulator.Plugins.Loader.{
  split_chunk, split_chunks, split_plugin_paths, unique, discover_python_files, FileSystem,
  files_at_all, Loaded, Load, register_files, build_plugin_registry,
}

-- A path as the loader uses it: not empty, and with no white space at its ends.
abbrev pub IsClean : Text → Type 0
IsClean path = (is_empty path ≡ false) × (strip path ≡ path)

strip_parts-IsClean : (parts : List Text) → All IsClean (strip_parts parts)
unfolding strip_parts
strip_parts-IsClean [] = tt
strip_parts-IsClean (part ∷ parts) = elim (Bool-cases (is_empty (strip part))) [
  | inl e ↦ rw e (strip_parts-IsClean parts)
  | inr e ↦ rw e ((e, strip_idem part), strip_parts-IsClean parts)
]

split_chunk-IsClean : (chunk : Text) → IsClean chunk → All IsClean (split_chunk chunk)
unfolding split_chunk
split_chunk-IsClean chunk h = elim (Bool-cases (any (λ c. c == b':') chunk)) [
  | inl e ↦ rw e (strip_parts-IsClean (split b':' chunk))
  | inr e ↦ rw e (h, tt)
]

split_chunks-IsClean : (chunks : List Text) → All IsClean chunks → All IsClean (split_chunks chunks)
unfolding split_chunks
split_chunks-IsClean [] h = tt
split_chunks-IsClean (chunk ∷ chunks) h =
    All-append IsClean (split_chunk chunk) (split_chunks chunks) (split_chunk-IsClean chunk h.0)
      (split_chunks-IsClean chunks h.1)

-- Every path that the loader reads from its argument is non-empty and stripped.
pub split_plugin_paths-IsClean : (raw : Text) → All IsClean (split_plugin_paths raw)
unfolding split_plugin_paths
split_plugin_paths-IsClean raw = elim (Bool-cases (is_empty (strip raw))) [
  | inl e ↦ rw e tt
  | inr e ↦ rw e (split_chunks-IsClean _ (strip_parts-IsClean (split b',' raw)))
]

-- No element occurs twice.
abbrev pub IsUnique : List Text → Type 0
IsUnique [] = Unit
IsUnique (f ∷ files) = (contains files f ≡ false) × IsUnique files

contains-unique :
    (seen files : List Text) (x : Text)
    → contains (unique seen files) x ≡ (contains files x && not (contains seen x))
unfolding unique
contains-unique seen [] x = refl
contains-unique seen (f ∷ files) x =
    ground
      (arith, text_eq_iff x f, contains-unique seen files x, contains-unique (f ∷ seen) files x)

unique-IsUnique : (seen files : List Text) → IsUnique (unique seen files)
unfolding unique
unique-IsUnique seen [] = tt
unique-IsUnique seen (f ∷ files) = elim (Bool-cases (contains seen f)) [
  | inl old ↦ rw old (unique-IsUnique seen files)
  | inr new ↦ rw new (
    ground (arith, contains-unique (f ∷ seen) files f, text_eq_refl f),
    unique-IsUnique (f ∷ seen) files,
  )
]

-- The discovered files are those at the given paths, each once.
pub discover_python_files-IsUnique :
    (fs : FileSystem) (paths : List Text)
    → IsUnique (discover_python_files fs paths)
      × ((f : Text)
          → contains (discover_python_files fs paths) f ≡ contains (files_at_all fs paths) f)
unfolding discover_python_files
discover_python_files-IsUnique fs paths = (
  unique-IsUnique [] (files_at_all fs paths),
  λ f. ground (arith, contains-unique [] (files_at_all fs paths) f),
)

pub record IsSound (r : Registry) : Type 0 where
  pub schedulers : IsWellFormed r.schedulers
  pub workloads : IsWellFormed r.workloads

-- A way to change the registry that keeps it well formed, whether it returns or raises.
abbrev pub Keeps : (Registry → Registry × Option RegisterError) → Type 0
Keeps register = (r : Registry) → IsSound r → IsSound (register r).0

pub register_scheduler-IsSound : (p : Plugin) → Keeps (register_scheduler p)
unfolding register_scheduler
register_scheduler-IsSound p r s = record {
  schedulers = register-IsWellFormed p r.schedulers s.schedulers;
  workloads = s.workloads;
}

register_workload-IsSound : (p : Plugin) → Keeps (register_workload p)
unfolding register_workload
register_workload-IsSound p r s = record {
  schedulers = s.schedulers;
  workloads = register-IsWellFormed p r.workloads s.workloads;
}

register_all-IsSound :
    (register : Plugin → Registry → Registry × Option RegisterError)
    → ((p : Plugin) → Keeps (register p))
    → (ps : List Plugin) → Keeps (register_all register ps)
unfolding register_all
register_all-IsSound register keeps [] r s = s
register_all-IsSound register keeps (p ∷ ps) r s = elim (Option-cases (register p r).1) [
  | inl fine ↦
      rw (fine, register_all)
        (register_all-IsSound register keeps ps (register p r).0 (keeps p r s))
  | inr (e, raised) ↦ rw (raised, register_all) (keeps p r s)
]

register_builtin_plugins-IsSound : Keeps register_builtin_plugins
unfolding register_builtin_plugins
register_builtin_plugins-IsSound r s =
    let first =
      register_all-IsSound register_scheduler register_scheduler-IsSound builtin_schedulers r s in
    elim (Option-cases (register_all register_scheduler builtin_schedulers r).1) [
      | inl fine ↦
          rw (fine, register_builtin_plugins)
            (register_all-IsSound register_workload register_workload-IsSound builtin_workloads _
              first)
      | inr (e, raised) ↦ rw (raised, register_builtin_plugins) first
    ]

pub IsWellFormed-empty_table : IsWellFormed empty_table
unfolding lookup
IsWellFormed-empty_table = record { target = λ a k h. cc; named = λ k p h. cc }

new_registry-IsSound : IsSound new_registry
new_registry-IsSound = record {
  schedulers = IsWellFormed-empty_table;
  workloads = IsWellFormed-empty_table;
}

-- What a plugin file is expected to do with the registry: use its methods.
abbrev pub LoadKeeps : Load → Type 0
LoadKeeps load =
    (f : Text) (register : Registry → Registry × Option RegisterError)
    → load f ≡ some register
    → Keeps register

module _ (load : Load) (keeps : LoadKeeps load) where
  register_files-IsSound :
      (files : List Text) (l : Loaded)
      → IsSound l.registry
      → IsSound (register_files load files l).registry
  unfolding register_files
  register_files-IsSound [] l s = s
  register_files-IsSound (f ∷ files) l s = elim (Option-cases (load f)) [
    | inl bad ↦ rw (bad, register_files) s
    | inr (register, good) ↦
        let s' = keeps f register good l.registry s in
        elim (Option-cases (register l.registry).1) [
          | inl fine ↦ rw (good, register_files, fine) (register_files-IsSound files _ s')
          | inr (e, raised) ↦ rw (good, register_files, raised) s'
        ]
  ]

  -- Whatever the arguments and the files, and whether it succeeds or raises, the registry that the
  -- loader builds is well formed, if each plugin file keeps a registry well formed.
  pub build_plugin_registry-IsSound :
      (fs : FileSystem) (local_dir : Option Text) (raw : Text)
      → IsSound (build_plugin_registry load fs local_dir raw).registry
  unfolding build_plugin_registry
  build_plugin_registry-IsSound fs local_dir raw =
      let s = register_builtin_plugins-IsSound new_registry new_registry-IsSound in
      elim (Option-cases (register_builtin_plugins new_registry).1) [
        | inr (e, raised) ↦ rw (raised, build_plugin_registry) s
        | inl fine ↦ elim (Option-cases local_dir) [
          | inl absent ↦ rw (fine, absent, build_plugin_registry) (register_files-IsSound _ _ s)
          | inr (d, present) ↦
              rw (fine, present, build_plugin_registry) (register_files-IsSound _ _ s)
        ]
      ]
