-- ===== src/Plugins/Table/AboutAlias.antt =====
-- What the loop over the aliases of a plugin raises (benchmark/plugins/registry.py).
use scheduler_simulator.Prelude.{
  ◌≡◌, inl, inr, true, false, Option, none, some, List, [], ◌∷◌, Text, text_eq, text_eq_refl,
  is_empty, lookup, contains, Bool-cases, Option-cases, subst, arith,
}
use scheduler_simulator.Plugins.Table.{
  Plugin, PluginTable, RegisterError, empty_key, duplicate_key, empty_cli_token, alias_conflict,
  norm, normalize, add_alias, add_aliases, add_plugin, register_normalized, register,
}

-- Nothing raised, or an alias of the plugin that is not its key refused.
abbrev pub IsAboutAlias : (key : Text) (aliases : List Text) → Option RegisterError → Type 0
IsAboutAlias key aliases none = Unit
IsAboutAlias key aliases (some (alias_conflict a owner)) =
    (text_eq a key ≡ false) × (contains aliases a ≡ true)
IsAboutAlias key aliases (some _) = ⊥

more-IsAboutAlias :
    (key alias : Text) (aliases : List Text) (e : Option RegisterError)
    → IsAboutAlias key aliases e
    → IsAboutAlias key (alias ∷ aliases) e
more-IsAboutAlias key alias aliases none h = tt
more-IsAboutAlias key alias aliases (some (alias_conflict a owner)) (p, q) = (p, ground arith)
more-IsAboutAlias key alias aliases (some empty_key) h = absurd h
more-IsAboutAlias key alias aliases (some (duplicate_key k)) h = absurd h
more-IsAboutAlias key alias aliases (some (empty_cli_token k)) h = absurd h

add_alias-IsAboutAlias :
    (key alias : Text) (rest : List Text) (t : PluginTable)
    → IsAboutAlias key (alias ∷ rest) (add_alias key alias t).1
unfolding add_alias
add_alias-IsAboutAlias key alias rest t = elim (Bool-cases (text_eq alias key)) [
  | inl own ↦ rw own tt
  | inr other ↦ elim (Option-cases (lookup text_eq alias t.alias_to_key)) [
    | inl free ↦ rw (other, free) tt
    | inr (owner, taken) ↦ rw (other, taken) (other, ground (arith, text_eq_refl alias))
  ]
]

add_aliases-IsAboutAlias :
    (key : Text) (aliases : List Text) (t : PluginTable)
    → IsAboutAlias key aliases (add_aliases key aliases t).1
unfolding add_aliases
add_aliases-IsAboutAlias key [] t = tt
add_aliases-IsAboutAlias key (alias ∷ rest) t = elim (Option-cases (add_alias key alias t).1) [
  | inl fine ↦
      rw (fine, add_aliases)
        (more-IsAboutAlias key alias rest (add_aliases key rest (add_alias key alias t).0).1
          (add_aliases-IsAboutAlias key rest (add_alias key alias t).0))
  | inr (e, raised) ↦
      rw (raised, add_aliases)
        (subst (IsAboutAlias key (alias ∷ rest)) raised (add_alias-IsAboutAlias key alias rest t))
]

pub register-IsAboutAlias :
    (p : Plugin) (t : PluginTable)
    → lookup text_eq (norm p.key) t.plugins ≡ none
    → is_empty (norm p.key) ≡ false
    → is_empty (normalize p).cli_token ≡ false
    → IsAboutAlias (norm p.key) (normalize p).aliases (register p t).1
unfolding register register_normalized normalize
register-IsAboutAlias p t fresh has_key has_token =
    rw (has_key, fresh, has_token)
      (add_aliases-IsAboutAlias (norm p.key) (normalize p).aliases (add_plugin (normalize p) t))
