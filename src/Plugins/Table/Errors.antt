-- ===== src/Plugins/Table/Errors.antt =====
-- What a registration that raises leaves behind (benchmark/plugins/registry.py).
use scheduler_simulator.Prelude.{
  ◌≡◌, refl, Bool, true, false, some, List, [], ◌∷◌, Text, text_eq, text_eq_refl, lookup, arith,
}
use scheduler_simulator.Plugins.Table.{
  Plugin, PluginTable, RegisterError, empty_key, duplicate_key, empty_cli_token, alias_conflict,
  normalize, add_alias, add_aliases, add_plugin, register_normalized, register,
}
use scheduler_simulator.Plugins.Table.Names.{add_aliases-plugins, add_plugin-plugins}

abbrev pub AfterError : Plugin → (t t' : PluginTable) → RegisterError → Type 0
AfterError p t t' (alias_conflict alias owner) =
    lookup text_eq (normalize p).key t'.plugins ≡ some (normalize p)
AfterError p t t' _ = t' ≡ t

abbrev is_conflict : RegisterError → Bool
is_conflict (alias_conflict alias owner) = true
is_conflict _ = false

add_alias-conflict :
    (key alias : Text) (t : PluginTable) (e : RegisterError)
    → (add_alias key alias t).1 ≡ some e
    → is_conflict e ≡ true
unfolding add_alias
add_alias-conflict key alias t e h = ground arith

add_aliases-conflict :
    (key : Text) (aliases : List Text) (t : PluginTable) (e : RegisterError)
    → (add_aliases key aliases t).1 ≡ some e
    → is_conflict e ≡ true
unfolding add_aliases
add_aliases-conflict key [] t e h = cc
add_aliases-conflict key (alias ∷ rest) t e h = ground (
  arith,
  add_alias-conflict key alias t e,
  add_aliases-conflict key rest (add_alias key alias t).0 e,
)

register_normalized-conflict :
    (n : Plugin) (t : PluginTable) (e : RegisterError)
    → (register_normalized n t).1 ≡ some e
    → is_conflict e ≡ true
    → lookup text_eq n.key (register_normalized n t).0.plugins ≡ some n
unfolding register_normalized
register_normalized-conflict n t e h c = ground (
  arith,
  text_eq_refl n.key,
  add_plugin-plugins n t n.key,
  add_aliases-plugins n.key n.aliases (add_plugin n t),
)

register_normalized-refused :
    (n : Plugin) (t : PluginTable) (e : RegisterError)
    → (register_normalized n t).1 ≡ some e
    → is_conflict e ≡ false
    → (register_normalized n t).0 ≡ t
unfolding register_normalized
register_normalized-refused n t e h c =
    ground (arith, add_aliases-conflict n.key n.aliases (add_plugin n t) e)

-- After an alias conflict the plugin stays registered under its key; after any other error the
-- table is the one before.
pub register-AfterError :
    (p : Plugin) (t : PluginTable) (e : RegisterError)
    → (register p t).1 ≡ some e
    → AfterError p t (register p t).0 e
unfolding register
register-AfterError p t empty_key h = register_normalized-refused (normalize p) t empty_key h refl
register-AfterError p t (duplicate_key k) h =
    register_normalized-refused (normalize p) t (duplicate_key k) h refl
register-AfterError p t (empty_cli_token k) h =
    register_normalized-refused (normalize p) t (empty_cli_token k) h refl
register-AfterError p t (alias_conflict a o) h =
    register_normalized-conflict (normalize p) t (alias_conflict a o) h refl
