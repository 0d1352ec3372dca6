-- ===== src/Plugins/Table/Laws.antt =====
-- The invariant of the plugin tables of benchmark/plugins/registry.py: what `register` keeps.
use scheduler_simulator.Prelude.{
  ◌≡◌, inl, inr, Bool, true, false, Option, none, some, List, [], ◌∷◌, if◌then◌else◌, Text, text_eq,
  text_eq_refl, text_eq_iff, is_empty, lookup, insert, lookup-insert, Bool-cases, Option-cases,
  arith,
}
use scheduler_simulator.Plugins.Table.{
  register_normalized, Plugin, PluginTable, normalize, add_alias, add_aliases, add_plugin, register,
}

abbrev pub is_some {ℓ} : {A : Type ℓ} → Option A → Bool
is_some none = false
is_some (some a) = true

-- Every alias leads to a registered plugin; every registered plugin is stored under its own key,
-- which is an alias of itself, and has a non-empty key and command line token.
pub record IsWellFormed (t : PluginTable) : Type 0 where
  pub target :
      (alias key : Text)
      → lookup text_eq alias t.alias_to_key ≡ some key
      → is_some (lookup text_eq key t.plugins) ≡ true
  pub named :
      (key : Text) (p : Plugin)
      → lookup text_eq key t.plugins ≡ some p
      → (lookup text_eq key t.alias_to_key ≡ some key)
        × (p.key ≡ key)
        × (is_empty key ≡ false)
        × (is_empty p.cli_token ≡ false)

pub text_lookup-insert :
    {V : Type 0} (k j : Text) (v : V) (d : List (Text × V))
    → lookup text_eq j (insert text_eq k v d) ≡ (if text_eq k j then some v else lookup text_eq j d)
text_lookup-insert k j v d = lookup-insert text_eq text_eq_iff k j v d

add_alias-IsWellFormed :
    (key alias : Text) (t : PluginTable)
    → is_some (lookup text_eq key t.plugins) ≡ true
    → IsWellFormed t
    → IsWellFormed (add_alias key alias t).0
unfolding add_alias
add_alias-IsWellFormed key alias t known w = elim (Bool-cases (text_eq alias key)) [
  | inl same ↦ rw same w
  | inr other ↦ elim (Option-cases (lookup text_eq alias t.alias_to_key)) [
    | inr (owner, taken) ↦ rw (other, taken) w
    | inl free ↦
        rw (other, free)
          (record {
            target = λ a k h.
                ground (arith, text_lookup-insert alias a key t.alias_to_key, w.target a k, known);
            named = λ k q h. ground (
              arith,
              text_lookup-insert alias k key t.alias_to_key,
              w.named k q h,
              text_eq_iff alias k,
            );
          })
  ]
]

add_alias-plugins :
    (key alias : Text) (t : PluginTable) → (add_alias key alias t).0.plugins ≡ t.plugins
unfolding add_alias
add_alias-plugins key alias t = ground arith

add_aliases-IsWellFormed :
    (key : Text) (aliases : List Text) (t : PluginTable)
    → is_some (lookup text_eq key t.plugins) ≡ true
    → IsWellFormed t
    → IsWellFormed (add_aliases key aliases t).0
unfolding add_aliases
add_aliases-IsWellFormed key [] t known w = w
add_aliases-IsWellFormed key (alias ∷ rest) t known w =
    let t' = (add_alias key alias t).0 in
    let w' = add_alias-IsWellFormed key alias t known w in
    elim (Option-cases (add_alias key alias t).1) [
      | inl fine ↦
          rw (fine, add_aliases)
            (add_aliases-IsWellFormed key rest t' (rw add_alias-plugins known) w')
      | inr (e, raised) ↦ rw (raised, add_aliases) w'
    ]

add_plugin-IsWellFormed :
    (n : Plugin) (t : PluginTable)
    → is_empty n.key ≡ false
    → is_empty n.cli_token ≡ false
    → IsWellFormed t
    → IsWellFormed (add_plugin n t)
unfolding add_plugin
add_plugin-IsWellFormed n t has_key has_token w = record {
  target = λ a k h. ground (
    arith,
    text_lookup-insert n.key a n.key t.alias_to_key,
    text_lookup-insert n.key k n t.plugins,
    w.target a k,
    text_eq_iff n.key k,
  );
  named = λ k q h. ground (
    arith,
    text_lookup-insert n.key k n.key t.alias_to_key,
    text_lookup-insert n.key k n t.plugins,
    w.named k q,
    text_eq_iff n.key k,
  );
}

add_plugin-known :
    (n : Plugin) (t : PluginTable) → is_some (lookup text_eq n.key (add_plugin n t).plugins) ≡ true
unfolding add_plugin
add_plugin-known n t =
    ground (arith, text_lookup-insert n.key n.key n t.plugins, text_eq_refl n.key)

register_normalized-IsWellFormed :
    (n : Plugin) (t : PluginTable) → IsWellFormed t → IsWellFormed (register_normalized n t).0
unfolding register_normalized
register_normalized-IsWellFormed n t w = elim (Bool-cases (is_empty n.key)) [
  | inl bare ↦ rw bare w
  | inr has_key ↦ elim (Option-cases (lookup text_eq n.key t.plugins)) [
    | inr (other, taken) ↦ rw (has_key, taken) w
    | inl free ↦ elim (Bool-cases (is_empty n.cli_token)) [
      | inl no_token ↦ rw (has_key, free, no_token) w
      | inr has_token ↦
          rw (has_key, free, has_token)
            (add_aliases-IsWellFormed n.key n.aliases (add_plugin n t) (add_plugin-known n t)
              (add_plugin-IsWellFormed n t has_key has_token w))
    ]
  ]
]

-- Registering a plugin keeps the table well formed, whether it returns or raises.
pub register-IsWellFormed :
    (p : Plugin) (t : PluginTable) → IsWellFormed t → IsWellFormed (register p t).0
unfolding register
register-IsWellFormed p t w = register_normalized-IsWellFormed (normalize p) t w
