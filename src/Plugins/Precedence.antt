-- ===== src/Plugins/Precedence.antt =====
-- Which scope decides a plugin's state.
use nineguard.Base.{
  ◌≡◌, refl, ◌∙◌, inl, inr, List, [], ◌∷◌, Option, none, some, true, false, not, arith, all,
  Bool-cases, Option-cases,
}
use nineguard.Base.Text.{Text, text_eq, is_blank}
use nineguard.Plugins.{
  Plugin, Binding, ModelGroup, GroupCandidate, BindingMap, scope_key, scope_global, state_inherit,
  deciding, candidates, sort_candidates, global_scope, group_scope, key_scope, initial,
  resolve_plugin, ResolvedPlugin,
}
use nineguard.Plugins.Order.{sort-all, deciding-state, candidates-decide}

module _ {ℓ} {V : Type ℓ} (unmarshal : Text → Option (Text → Option V)) where
  global-decided :
      (o : Option Binding) (r : ResolvedPlugin unmarshal)
      → text_eq r.effective_state state_inherit ≡ false
      → text_eq (global_scope unmarshal o r).effective_state state_inherit ≡ false
  unfolding global_scope
  global-decided none r h = h
  global-decided (some b) r h = elim (Bool-cases (text_eq b.state state_inherit)) [
    | inl e ↦ rw e h
    | inr e ↦ rw e e
  ]

  group-decided :
      (cs : List GroupCandidate) (r : ResolvedPlugin unmarshal)
      → all (λ c. not (text_eq c.binding.state state_inherit)) cs ≡ true
      → text_eq r.effective_state state_inherit ≡ false
      → text_eq (group_scope unmarshal cs r).effective_state state_inherit ≡ false
  unfolding group_scope
  group-decided [] r each h = h
  group-decided (w ∷ ls) r each h = ground (arith, each)

  key-decided :
      (key name : Text) (o : Option Binding) (r : ResolvedPlugin unmarshal)
      → text_eq r.effective_state state_inherit ≡ false
      → text_eq (key_scope unmarshal key name (deciding o) r).effective_state state_inherit ≡ false
  unfolding key_scope
  key-decided key name o r h = elim (Option-cases (deciding o)) [
    | inl e ↦ rw e h
    | inr (b, e) ↦ elim (Bool-cases (is_blank key)) [
      | inl blank ↦ rw (e, blank) h
      | inr named ↦ rw (e, named) (deciding-state o b e)
    ]
  ]

  -- A plugin's state is never "inherit": a binding that inherits leaves the decision to the scope
  -- above, down to "off".
  resolve_plugin-decided :
      (m : BindingMap) (groups : List ModelGroup) (key name model : Text) (p : Plugin)
      → text_eq (resolve_plugin unmarshal m groups key name model p).effective_state state_inherit
        ≡ false
  unfolding resolve_plugin initial text_eq
  resolve_plugin-decided m groups key name model p =
      key-decided key name (m p.id scope_key key)
        (group_scope unmarshal (sort_candidates (candidates m p.id model groups))
          (global_scope unmarshal (m p.id scope_global []) (initial unmarshal p)))
        (group-decided (sort_candidates (candidates m p.id model groups))
          (global_scope unmarshal (m p.id scope_global []) (initial unmarshal p))
          (sort-all (λ c. not (text_eq c.binding.state state_inherit))
              (candidates m p.id model groups)
            ∙ candidates-decide m p.id model groups)
          (global-decided (m p.id scope_global []) (initial unmarshal p) refl))
