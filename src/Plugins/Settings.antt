-- ===== src/Plugins/Settings.antt =====
-- internal/plugins/resolve.go: which scope a setting of a plugin comes from.
use nineguard.Base.{
  ◌≡◌, refl, ap, ◌∙◌, inl, inr, List, [], ◌∷◌, Option, none, some, Bool, true, false, not, ◌||◌,
  all, sym, if◌then◌else◌, empty, Bool-cases,
}
use nineguard.Base.Text.{Text, codes, text_eq, text_eq→eq, trim_space, is_blank}
use nineguard.Plugins.{
  Plugin, Binding, ModelGroup, GroupCandidate, BindingMap, scope_key, scope_global, state_inherit,
  deciding, candidates, before, sort_candidates, over, merge_json, overwrite, global_scope,
  group_scope, key_scope, initial, resolve_plugin, ResolvedPlugin,
}
use nineguard.Plugins.Order.{sort-winner, first_binding, list-cases}

module _ {ℓ} {V : Type ℓ} (unmarshal : Text → Option (Text → Option V)) where
  -- The value that a settings text gives to one setting.
  abbrev pub setting : Text → Text → Option V
  setting raw k = merge_json unmarshal empty raw k

  abbrev pub binding_setting : Option Binding → Text → Option V
  binding_setting none k = none
  binding_setting (some b) k = setting b.settings k

  over-none : (o p : Option V) → over unmarshal o p ≡ over unmarshal (over unmarshal o none) p
  over-none none p = refl
  over-none (some v) p = refl

  overwrite-over :
      (o : Option (Text → Option V)) (target : Text → Option V) (k : Text)
      → overwrite unmarshal o target k ≡ over unmarshal (overwrite unmarshal o empty k) (target k)
  overwrite-over none target k = refl
  overwrite-over (some f) target k = over-none (f k) (target k)

  merge-over :
      (target : Text → Option V) (raw k : Text)
      → merge_json unmarshal target raw k ≡ over unmarshal (setting raw k) (target k)
  unfolding merge_json
  merge-over target raw k =
      elim (Bool-cases (is_blank (trim_space raw) || text_eq (trim_space raw) (codes "{}"))) [
        | inl e ↦ rw e refl
        | inr e ↦ rw e (overwrite-over (unmarshal (trim_space raw)) target k)
      ]

  global-setting :
      (o : Option Binding) (r : ResolvedPlugin unmarshal) (k : Text)
      → (global_scope unmarshal o r).merged_settings k
        ≡ over unmarshal (binding_setting o k) (r.merged_settings k)
  unfolding global_scope
  global-setting none r k = refl
  global-setting (some b) r k = merge-over r.merged_settings b.settings k

  group-setting :
      (cs : List GroupCandidate) (r : ResolvedPlugin unmarshal) (k : Text)
      → (group_scope unmarshal cs r).merged_settings k
        ≡ over unmarshal (binding_setting (first_binding cs) k) (r.merged_settings k)
  unfolding group_scope
  group-setting [] r k = refl
  group-setting (w ∷ ls) r k = merge-over r.merged_settings w.binding.settings k

  key-setting :
      (key name : Text) (o : Option Binding) (r : ResolvedPlugin unmarshal) (k : Text)
      → is_blank key ≡ false
      → (key_scope unmarshal key name o r).merged_settings k
        ≡ over unmarshal (binding_setting o k) (r.merged_settings k)
  unfolding key_scope
  key-setting key name none r k named = refl
  key-setting key name (some b) r k named = rw named (merge-over r.merged_settings b.settings k)

  resolve_plugin-scopes :
      (m : BindingMap) (groups : List ModelGroup) (key name model : Text) (p : Plugin) (k : Text)
      → is_blank key ≡ false
      → (resolve_plugin unmarshal m groups key name model p).merged_settings k
        ≡ over unmarshal (binding_setting (deciding (m p.id scope_key key)) k) (
            over unmarshal
              (binding_setting (first_binding (sort_candidates (candidates m p.id model groups))) k)
              (over unmarshal
                (binding_setting (m p.id scope_global []) k)
                (setting p.default_settings k)))
  unfolding resolve_plugin initial
  resolve_plugin-scopes m groups key name model p k named =
      let start = initial unmarshal p in
      let cs = sort_candidates (candidates m p.id model groups) in
      let after_global = global_scope unmarshal (m p.id scope_global []) start in
      let by_key = binding_setting (deciding (m p.id scope_key key)) k in
      let by_group = binding_setting (first_binding cs) k in
      key-setting key name (deciding (m p.id scope_key key)) (group_scope unmarshal cs after_global)
        k named
      ∙ ap (over unmarshal by_key) (
          group-setting cs after_global k
          ∙ ap (over unmarshal by_group) (global-setting (m p.id scope_global []) start k))

  -- What a settings text, as JSON, gives to one setting.
  abbrev pub named : Text → Text → Option V
  named raw k = elim (unmarshal (trim_space raw)) [ none ↦ none | some values ↦ values k ]

  -- What a binding gives; that of a key only if it does not inherit.
  abbrev pub by_binding : Option Binding → Text → Option V
  by_binding none k = none
  by_binding (some b) k = named b.settings k

  abbrev pub by_key : Option Binding → Text → Option V
  by_key none k = none
  by_key (some b) k = if text_eq b.state (codes "inherit") then none else named b.settings k

  abbrev pub or_else : Option V → Option V → Option V
  or_else none p = p
  or_else (some v) p = some v

  -- The binding of the candidate that no other comes before, if there is a candidate.
  abbrev pub WinnerOf : List GroupCandidate → Option Binding → Type 0
  WinnerOf cs none = cs ≡ []
  WinnerOf cs (some b) =
      (w : GroupCandidate) × ((q : GroupCandidate → Bool) → all q cs ≡ true → q w ≡ true)
      × (all (λ c. not (before c w)) cs ≡ true)
      × (b ≡ w.binding)

  over-else : (o p : Option V) → over unmarshal o p ≡ or_else o p
  over-else none p = refl
  over-else (some v) p = refl

  overwrite-named :
      (o : Option (Text → Option V)) (k : Text)
      → overwrite unmarshal o empty k ≡ elim o [ none ↦ none | some values ↦ values k ]
  overwrite-named none k = refl
  overwrite-named (some f) k = over-else (f k) none ∙ same (f k)
    where
      same : (o : Option V) → or_else o none ≡ o
      same none = refl
      same (some v) = refl

  module _ (no_text : unmarshal [] ≡ none) (no_values : unmarshal (codes "{}") ≡ some empty) where
    setting-named : (raw k : Text) → setting raw k ≡ named raw k
    unfolding merge_json
    setting-named raw k =
        elim (Bool-cases (is_blank (trim_space raw) || text_eq (trim_space raw) (codes "{}"))) [
          | inl e ↦ rw e (skipped (trim_space raw) e)
          | inr e ↦ rw e (overwrite-named (unmarshal (trim_space raw)) k)
        ]
      where
        skipped :
            (t : Text)
            → (is_blank t || text_eq t (codes "{}")) ≡ true
            → none ≡ elim (unmarshal t) [ none ↦ none | some values ↦ values k ]
        skipped [] e = rw no_text refl
        skipped (c ∷ t) e = rw (text_eq→eq (c ∷ t) (codes "{}") e, no_values) refl

    binding-named : (o : Option Binding) (k : Text) → binding_setting o k ≡ by_binding o k
    binding-named none k = refl
    binding-named (some b) k = setting-named b.settings k

    key-named : (o : Option Binding) (k : Text) → binding_setting (deciding o) k ≡ by_key o k
    unfolding deciding
    key-named none k = refl
    key-named (some b) k = elim (Bool-cases (text_eq b.state state_inherit)) [
      | inl e ↦ rw e refl
      | inr e ↦ rw e (setting-named b.settings k)
    ]

    winner :
        (cs : List GroupCandidate)
        → (o : Option Binding) × WinnerOf cs o × (first_binding (sort_candidates cs) ≡ o)
    unfolding sort_candidates
    winner cs = elim (list-cases cs) [
      | inl e ↦ (none, e, rw e refl)
      | inr (c, rest, e) ↦
          let (w, ls, sorted, mem, wins, same) = sort-winner cs (λ h. cc (sym e ∙ h)) in
          (some w.binding, (w, mem, wins, refl), rw sorted refl)
    ]

    -- Where the empty text is no JSON, and `{}` is an object without fields: for a key, each
    -- setting is the one of the binding of the key, unless that inherits; where that names none, of the
    -- deciding group of the model that no other comes before; then of the global binding, whatever its
    -- state; and then the default.
    pub resolve_plugin-settings :
        (m : BindingMap) (groups : List ModelGroup) (key name model : Text) (p : Plugin) (k : Text)
        → is_blank key ≡ false
        → (group : Option Binding) × WinnerOf (candidates m p.id model groups) group
          × ((resolve_plugin unmarshal m groups key name model p).merged_settings k
              ≡ or_else (by_key (m p.id scope_key key) k) (
                  or_else
                    (by_binding group k)
                    (or_else (by_binding (m p.id scope_global []) k) (named p.default_settings k))))
    resolve_plugin-settings m groups key name model p k some_key =
        let (group, wins, first) = winner (candidates m p.id model groups) in
        (
          group,
          wins,
          resolve_plugin-scopes m groups key name model p k some_key
              ∙ (rw
                  (
                    key-named (m p.id scope_key key) k,
                    first,
                    binding-named group k,
                    binding-named (m p.id scope_global []) k,
                    setting-named p.default_settings k,
                  )
                  (over-else (by_key (m p.id scope_key key) k) _
                    ∙ ap (or_else (by_key (m p.id scope_key key) k)) (
                        over-else (by_binding group k) _
                        ∙ ap (or_else (by_binding group k)) (
                            over-else (by_binding (m p.id scope_global []) k)
                              (named p.default_settings k))))),
        )
