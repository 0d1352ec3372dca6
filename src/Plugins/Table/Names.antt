-- ===== src/Plugins/Table/Names.antt =====
-- Which names resolve to which plugin before and after a registration
-- (benchmark/plugins/registry.py).
use scheduler_simulator.Prelude.{
  ◌≡◌, refl, ◌∙◌, ap, inl, inr, true, false, none, some, List, [], ◌∷◌, map, Text, text_eq,
  text_eq_refl, text_eq_iff, is_empty, lookup, contains, contains-sorted_set, if◌then◌else◌, ◌||◌,
  Option-cases, strip, lower, strip-lower, strip_idem, lower_idem, arith,
}
use scheduler_simulator.Plugins.Table.{
  Plugin, PluginTable, norm, normalize, drop_empty, add_alias, add_aliases, add_plugin,
  register_normalized, register, resolve,
}
use scheduler_simulator.Plugins.Table.AboutAlias.{IsAboutAlias, register-IsAboutAlias}
use scheduler_simulator.Plugins.Table.Laws.{is_some, IsWellFormed, text_lookup-insert}

pub norm_idem : (value : Text) → norm (norm value) ≡ norm value
unfolding norm
norm_idem value =
    ap lower (strip-lower (strip value))
    ∙ lower_idem (strip (strip value))
    ∙ ap lower (strip_idem value)

-- A value and its normal form resolve alike.
pub resolve-norm : (value : Text) (t : PluginTable) → resolve (norm value) t ≡ resolve value t
unfolding resolve
resolve-norm value t = ground (arith, norm_idem value)

-- In a well-formed table a value resolves to a plugin exactly if its normal form is an alias.
pub resolve-is_some :
    (value : Text) (t : PluginTable)
    → IsWellFormed t
    → is_some (resolve value t) ≡ is_some (lookup text_eq (norm value) t.alias_to_key)
unfolding resolve
resolve-is_some value t w = elim (Option-cases (lookup text_eq (norm value) t.alias_to_key)) [
  | inl absent ↦ rw (absent, resolve) refl
  | inr (key, found) ↦ elim (Option-cases (lookup text_eq key t.plugins)) [
    | inl missing ↦ ground (arith, w.target (norm value) key, missing)
    | inr (p, stored) ↦ ground (arith, w.named key p)
  ]
]

module _ (key : Text) (a k : Text) where
  add_alias-keeps :
      (alias : Text) (t : PluginTable)
      → lookup text_eq a t.alias_to_key ≡ some k
      → lookup text_eq a (add_alias key alias t).0.alias_to_key ≡ some k
  unfolding add_alias
  add_alias-keeps alias t h =
      ground (arith, text_lookup-insert alias a key t.alias_to_key, text_eq_iff alias a)

  add_aliases-keeps :
      (aliases : List Text) (t : PluginTable)
      → lookup text_eq a t.alias_to_key ≡ some k
      → lookup text_eq a (add_aliases key aliases t).0.alias_to_key ≡ some k
  unfolding add_aliases
  add_aliases-keeps [] t h = h
  add_aliases-keeps (alias ∷ rest) t h =
      ground (arith, add_alias-keeps alias t, add_aliases-keeps rest (add_alias key alias t).0)

add_alias-plugins :
    (key alias : Text) (t : PluginTable) → (add_alias key alias t).0.plugins ≡ t.plugins
unfolding add_alias
add_alias-plugins key alias t = ground arith

pub add_aliases-plugins :
    (key : Text) (aliases : List Text) (t : PluginTable)
    → (add_aliases key aliases t).0.plugins ≡ t.plugins
unfolding add_aliases
add_aliases-plugins key [] t = refl
add_aliases-plugins key (alias ∷ rest) t =
    ground
      (arith, add_alias-plugins key alias t, add_aliases-plugins key rest (add_alias key alias t).0)

add_alias-adds :
    (key alias : Text) (t : PluginTable)
    → (add_alias key alias t).1 ≡ none
    → lookup text_eq key t.alias_to_key ≡ some key
    → lookup text_eq alias (add_alias key alias t).0.alias_to_key ≡ some key
unfolding add_alias
add_alias-adds key alias t fine own = ground (
  arith,
  text_lookup-insert alias alias key t.alias_to_key,
  text_eq_refl alias,
  text_eq_iff alias key,
)

add_aliases-adds :
    (key a : Text) (aliases : List Text) (t : PluginTable)
    → (add_aliases key aliases t).1 ≡ none
    → lookup text_eq key t.alias_to_key ≡ some key
    → contains aliases a ≡ true
    → lookup text_eq a (add_aliases key aliases t).0.alias_to_key ≡ some key
unfolding add_aliases
add_aliases-adds key a [] t fine own h = ground arith
add_aliases-adds key a (alias ∷ rest) t fine own h = ground (
  arith,
  add_alias-adds key alias t,
  add_alias-keeps key key key alias t,
  add_aliases-keeps key alias key rest (add_alias key alias t).0,
  add_aliases-adds key a rest (add_alias key alias t).0,
  text_eq_iff a alias,
)

module _ (n : Plugin) (t : PluginTable) where
  add_plugin-alias :
      (a : Text)
      → lookup text_eq a (add_plugin n t).alias_to_key
        ≡ (if text_eq n.key a then some n.key else lookup text_eq a t.alias_to_key)
  unfolding add_plugin
  add_plugin-alias a = text_lookup-insert n.key a n.key t.alias_to_key

  pub add_plugin-plugins :
      (k : Text)
      → lookup text_eq k (add_plugin n t).plugins
        ≡ (if text_eq n.key k then some n else lookup text_eq k t.plugins)
  unfolding add_plugin
  add_plugin-plugins k = text_lookup-insert n.key k n t.plugins

  registered-alias :
      (a : Text)
      → (register_normalized n t).1 ≡ none
      → (text_eq a n.key || contains n.aliases a) ≡ true
      → lookup text_eq a (register_normalized n t).0.alias_to_key ≡ some n.key
  unfolding register_normalized
  registered-alias a fine listed = ground (
    arith,
    text_eq_refl n.key,
    text_eq_iff a n.key,
    add_plugin-alias n.key,
    add_aliases-keeps n.key n.key n.key n.aliases (add_plugin n t),
    add_aliases-adds n.key a n.aliases (add_plugin n t),
  )

  registered-plugin :
      (register_normalized n t).1 ≡ none
      → (is_empty n.key ≡ false)
        × (lookup text_eq n.key (register_normalized n t).0.plugins ≡ some n)
  unfolding register_normalized
  registered-plugin fine = ground (
    arith,
    text_eq_refl n.key,
    add_plugin-plugins n.key,
    add_aliases-plugins n.key n.aliases (add_plugin n t),
  )

  kept :
      (a k : Text) (q : Plugin)
      → text_eq n.key a ≡ false
      → lookup text_eq a t.alias_to_key ≡ some k
      → lookup text_eq k t.plugins ≡ some q
      → (lookup text_eq a (register_normalized n t).0.alias_to_key ≡ some k)
        × (lookup text_eq k (register_normalized n t).0.plugins ≡ some q)
  unfolding register_normalized
  kept a k q other alias stored = ground (
    arith,
    text_eq_iff n.key k,
    add_plugin-alias a,
    add_plugin-plugins k,
    add_aliases-keeps n.key a k n.aliases (add_plugin n t),
    add_aliases-plugins n.key n.aliases (add_plugin n t),
  )

contains-drop_empty :
    (x : Text) (xs : List Text) → is_empty x ≡ false → contains (drop_empty xs) x ≡ contains xs x
unfolding text_eq
contains-drop_empty [] xs h = ground arith
contains-drop_empty (c ∷ x) [] h = refl
contains-drop_empty (c ∷ x) ([] ∷ xs) h = contains-drop_empty (c ∷ x) xs h
contains-drop_empty (c ∷ x) ((d ∷ y) ∷ xs) h = ground (arith, contains-drop_empty (c ∷ x) xs h)

normalize-aliases :
    (p : Plugin) (x : Text)
    → is_empty x ≡ false
    → contains (normalize p).aliases x ≡ contains (map norm p.aliases) x
unfolding normalize
normalize-aliases p x h =
    contains-sorted_set x (drop_empty (map norm p.aliases))
    ∙ contains-drop_empty x (map norm p.aliases) h

normalize-key : (p : Plugin) → (normalize p).key ≡ norm p.key
unfolding normalize
normalize-key p = refl

-- After a registration that raised nothing, the plugin's key and every alias of it, in any spelling
-- with the same normal form, resolve to the normalized plugin.
pub register-resolve :
    (p : Plugin) (t : PluginTable) (value : Text)
    → (register p t).1 ≡ none
    → is_empty (norm value) ≡ false
    → contains (map norm (p.key ∷ p.aliases)) (norm value) ≡ true
    → resolve value (register p t).0 ≡ some (normalize p)
unfolding resolve register
register-resolve p t value fine has_name listed = ground (
  arith,
  registered-plugin (normalize p) t,
  registered-alias (normalize p) t (norm value),
  normalize-aliases p (norm value),
  normalize-key p,
)

-- Registering a plugin, whether it returns or raises, leaves what every other name than its key
-- resolves to.
pub register-resolve_other :
    (p : Plugin) (t : PluginTable) (value : Text) (q : Plugin)
    → text_eq (norm p.key) (norm value) ≡ false
    → resolve value t ≡ some q
    → resolve value (register p t).0 ≡ some q
unfolding resolve register
register-resolve_other p t value q other found =
    elim (Option-cases (lookup text_eq (norm value) t.alias_to_key)) [
      | inl absent ↦ ground arith
      | inr (k, alias) ↦ ground (arith, kept (normalize p) t (norm value) k q, normalize-key p)
    ]

takes_over :
    (p : Plugin) (t : PluginTable)
    → lookup text_eq (norm p.key) t.plugins ≡ none
    → is_empty (norm p.key) ≡ false
    → is_empty (normalize p).cli_token ≡ false
    → resolve p.key (register p t).0 ≡ some (normalize p)
unfolding resolve register register_normalized
takes_over p t fresh has_key has_token = ground (
  arith,
  normalize-key p,
  text_eq_refl (norm p.key),
  add_plugin-alias (normalize p) t (norm p.key),
  add_plugin-plugins (normalize p) t (norm p.key),
  add_aliases-keeps (normalize p).key (norm p.key) (normalize p).key (normalize p).aliases
      (add_plugin (normalize p) t),
  add_aliases-plugins (normalize p).key (normalize p).aliases (add_plugin (normalize p) t),
)

owner_differs :
    (p : Plugin) (t : PluginTable) (q : Plugin)
    → IsWellFormed t
    → resolve p.key t ≡ some q
    → lookup text_eq (norm p.key) t.plugins ≡ none
    → text_eq q.key (norm p.key) ≡ false
unfolding resolve
owner_differs p t q w old fresh = elim (Option-cases (lookup text_eq (norm p.key) t.alias_to_key)) [
  | inl absent ↦ absurd (ground arith)
  | inr (key, found) ↦
      ground (arith, w.named key q, text_eq_iff q.key (norm p.key), text_eq_iff q.key key)
]

-- A name that resolves to one plugin is taken over by another that is registered with it as its key:
-- in a well-formed table, if that key is not registered and the new plugin has a key and a command
-- line token, then the name belonged to a plugin with a different key, the registration raises
-- nothing but a conflict about an alias other than the key (nothing for a plugin without aliases),
-- and afterwards the name resolves to the new plugin.
pub register_takes_alias :
    (p : Plugin) (t : PluginTable) (q : Plugin)
    → IsWellFormed t
    → resolve p.key t ≡ some q
    → lookup text_eq (norm p.key) t.plugins ≡ none
    → is_empty (norm p.key) ≡ false
    → is_empty (normalize p).cli_token ≡ false
    → (text_eq q.key (norm p.key) ≡ false)
      × IsAboutAlias (norm p.key) (normalize p).aliases (register p t).1
      × (resolve p.key (register p t).0 ≡ some (normalize p))
register_takes_alias p t q w old fresh has_key has_token = (
  owner_differs p t q w old fresh,
  register-IsAboutAlias p t fresh has_key has_token,
  takes_over p t fresh has_key has_token,
)
