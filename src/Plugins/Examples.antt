-- ===== src/Plugins/Examples.antt =====
-- The precedence of scopes at a concrete set of bindings.
use nineguard.Base.{
  ℕ, ◌≡◌, refl, List, [], ◌∷◌, Option, none, some, true, empty, if◌then◌else◌, length, pos,
}
use nineguard.Base.Text.{Text, codes, text_eq}
use nineguard.Plugins.{
  Plugin, Binding, ModelGroup, BindingMap, scope_key, scope_group, state_inherit, candidates,
  index_bindings, resolve_plugin,
}
use nineguard.Plugins.Settings.{
  WinnerOf, or_else, by_key, by_binding, named, resolve_plugin-settings,
}

-- The settings of a text are its length, under every name.
abbrev reads : Text → Option (Text → Option ℕ)
reads raw = some (λ k. some (length raw))

abbrev caveman : Plugin
caveman = record {
  id = codes "cave";
  kind = codes "builtin";
  timeout_ms = pos 0;
  failure_policy = codes "open";
  bypassable = true;
  pipeline_order = pos 1;
  default_settings = codes "{}";
}

abbrev groups : List ModelGroup
groups =
    record { id = codes "g1"; name = codes "slow"; models = codes "gpt-4o" ∷ []; priority = pos 1 }
    ∷ record { id = codes "g2"; name = codes "all"; models = codes "*" ∷ []; priority = pos 5 }
    ∷ []

abbrev bind : Text → Text → Text → Binding
bind scope_type scope_id state = record {
  plugin_id = codes "cave";
  scope_type = scope_type;
  scope_id = scope_id;
  state = state;
  settings = codes "{a}";
}

abbrev bindings : BindingMap
bindings =
    index_bindings (λ plugin scope_type scope. none)
      (bind scope_group (codes "g1") (codes "on")
        ∷ bind scope_group (codes "g2") (codes "off")
        ∷ bind scope_key (codes "k") state_inherit
        ∷ [])

-- `{}` has no settings; every other text that is not empty gives its length to the setting "a".
abbrev objects : Text → Option (Text → Option ℕ)
objects [] = none
objects (c ∷ raw) =
    if text_eq (c ∷ raw) (codes "{}")
    then some empty
    else some (λ k. if text_eq k (codes "a") then some (length (c ∷ raw)) else none)

no_values : objects (codes "{}") ≡ some empty
unfolding text_eq
no_values = refl

resolve_plugin-settings_example :
    (group : Option Binding) × WinnerOf objects
      (candidates bindings (codes "cave") (codes "gpt-4o") groups)
      group
    × ((resolve_plugin objects bindings groups
            (codes "k")
            (codes "K")
            (codes "gpt-4o")
            caveman).merged_settings
          (codes "a")
        ≡ or_else objects
            (by_key objects (bindings (codes "cave") (codes "key") (codes "k")) (codes "a"))
            (or_else objects (by_binding objects group (codes "a")) (
              or_else objects
                (by_binding objects (bindings (codes "cave") (codes "global") []) (codes "a"))
                (named objects (codes "{}") (codes "a")))))
resolve_plugin-settings_example =
    resolve_plugin-settings objects refl no_values bindings groups (codes "k") (codes "K")
      (codes "gpt-4o") caveman (codes "a") refl
