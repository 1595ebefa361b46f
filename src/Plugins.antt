-- ===== src/Plugins.antt =====
-- internal/plugins/resolve.go: which plugins run for a request, and with which settings.
-- JSON values are a parameter, `V`, with `unmarshal`, which reads an object as a map.
-- `quote` is `%q` on printable ASCII.
pub mod Order
pub mod Precedence
pub mod Settings
pub mod Pipeline
mod Examples
use nineguard.Base.{
  ℕ, ◌≡◌, List, [], ◌∷◌, ◌++◌, map, Option, none, some, Bool, true, false, not, ◌&&◌, ◌||◌, ◌==◌,
  ltb, if◌then◌else◌, any, empty, ℤ, ltz,
}
use nineguard.Base.Text.{
  Text, codes, text_eq, trim_space, equal_fold, to_lower, has_prefix, has_suffix, trim_prefix,
  trim_suffix, contains_byte, after_byte, is_blank,
}

pub record Plugin : Type 0 where
  pub id : Text
  pub kind : Text
  pub timeout_ms : ℤ
  pub failure_policy : Text
  pub bypassable : Bool
  pub pipeline_order : ℤ
  pub default_settings : Text

pub record Binding : Type 0 where
  pub plugin_id : Text
  pub scope_type : Text
  pub scope_id : Text
  pub state : Text
  pub settings : Text

pub record ScopeOrigin : Type 0 where
  pub scope_type : Text
  pub scope_id : Text
  pub label : Text

pub record ModelGroup : Type 0 where
  pub id : Text
  pub name : Text
  pub models : List Text
  pub priority : ℤ

pub record GroupCandidate : Type 0 where
  pub group : ModelGroup
  pub binding : Binding

abbrev pub scope_global : Text
scope_global = codes "global"

abbrev pub scope_group : Text
scope_group = codes "group"

abbrev pub scope_key : Text
scope_key = codes "key"

abbrev pub state_off : Text
state_off = codes "off"

abbrev pub state_inherit : Text
state_inherit = codes "inherit"

-- `MatchModelPattern` on the trimmed pattern; the branches that return true, in order.
unfoldable pub pattern_matches : Text → Text → Bool
unfolding text_eq equal_fold has_prefix has_suffix trim_prefix trim_suffix to_lower after_byte
pattern_matches pat model =
    text_eq pat (codes "*")
    || is_blank pat
    || equal_fold pat (codes "all")
    || equal_fold pat model
    || has_suffix pat (codes "/*")
      && has_prefix (to_lower model) (to_lower (trim_suffix pat (codes "/*")) ++ codes "/")
    || has_prefix pat (codes "*.")
      && has_suffix (to_lower model) (to_lower (trim_prefix pat (codes "*")))
    || contains_byte model b'/'
      && not (contains_byte pat b'/')
      && equal_fold (after_byte model b'/') pat
    || contains_byte pat b'/'
      && not (contains_byte model b'/')
      && equal_fold (after_byte pat b'/') model

unfoldable pub match_model_pattern : Text → Text → Bool
unfolding pattern_matches trim_space
match_model_pattern pat model = pattern_matches (trim_space pat) model

abbrev escape : Text → Text
escape [] = []
escape (c ∷ s) = if c == b'"' || c == b'\\' then b'\\' ∷ c ∷ escape s else c ∷ escape s

unfoldable pub quote : Text → Text
quote s = b'"' ∷ (escape s ++ (b'"' ∷ []))

abbrev display : Text → Text → Text
display name scope_id = if is_blank name then scope_id else name

unfoldable pub scope_label : Text → Text → Text → ScopeOrigin
unfolding text_eq quote
scope_label scope_type scope_id name =
    if text_eq scope_type scope_global
    then record { scope_type = scope_global; scope_id = []; label = codes "All keys, all models" }
    else if text_eq scope_type scope_group
    then record {
      scope_type = scope_group;
      scope_id = scope_id;
      label = codes "Models in " ++ quote (display name scope_id);
    }
    else if text_eq scope_type scope_key
    then record {
      scope_type = scope_key;
      scope_id = scope_id;
      label = codes "Key " ++ quote (display name scope_id);
    }
    else record { scope_type = scope_type; scope_id = scope_id; label = name }

-- `bindingMap`: plugin, scope type and scope to binding. A later binding replaces an earlier one.
abbrev pub BindingMap : Type 0
BindingMap = Text → Text → Text → Option Binding

abbrev pub add_binding : Binding → BindingMap → BindingMap
add_binding b m plugin scope_type scope =
    if text_eq plugin b.plugin_id && text_eq scope_type b.scope_type && text_eq scope b.scope_id
    then some b
    else m plugin scope_type scope

unfoldable pub index_bindings : BindingMap → List Binding → BindingMap
unfolding text_eq
index_bindings m [] = m
index_bindings m (b ∷ bs) = index_bindings (add_binding b m) bs

-- A binding that decides: it exists and does not inherit.
unfoldable pub deciding : Option Binding → Option Binding
unfolding text_eq
deciding none = none
deciding (some b) = if text_eq b.state state_inherit then none else some b

abbrev pub candidate : ModelGroup → Option Binding → List GroupCandidate → List GroupCandidate
candidate g none rest = rest
candidate g (some b) rest = record { group = g; binding = b } ∷ rest

unfoldable pub candidates : BindingMap → Text → Text → List ModelGroup → List GroupCandidate
unfolding match_model_pattern deciding
candidates m plugin model [] = []
candidates m plugin model (g ∷ gs) =
    let rest = candidates m plugin model gs in
    if any (λ pat. match_model_pattern pat model) g.models
    then candidate g (deciding (m plugin scope_group g.id)) rest
    else rest

-- `<` of strings.
unfoldable pub text_lt : Text → Text → Bool
text_lt s [] = false
text_lt [] (d ∷ t) = true
text_lt (c ∷ s) (d ∷ t) = ltb c d || c == d && text_lt s t

-- Priority DESC, Name ASC.
unfoldable pub before : GroupCandidate → GroupCandidate → Bool
unfolding text_lt
before c d =
    ltz d.group.priority c.group.priority
    || not (ltz c.group.priority d.group.priority) && text_lt c.group.name d.group.name

-- `sort.Slice`; the order that it leaves between equals is not specified, here it depends on the list.
unfoldable pub insert_candidate : GroupCandidate → List GroupCandidate → List GroupCandidate
unfolding before
insert_candidate c [] = c ∷ []
insert_candidate c (d ∷ ds) =
    let rest = insert_candidate c ds in if before c d then c ∷ d ∷ ds else d ∷ rest

unfoldable pub sort_candidates : List GroupCandidate → List GroupCandidate
unfolding insert_candidate
sort_candidates [] = []
sort_candidates (c ∷ cs) = insert_candidate c (sort_candidates cs)

abbrev pub group_label : GroupCandidate → ScopeOrigin
group_label c = scope_label scope_group c.group.id c.group.name

module _ {ℓ} {V : Type ℓ} (unmarshal : Text → Option (Text → Option V)) where
  pub record ResolvedPlugin : Type ℓ where
    pub plugin : Plugin
    pub effective_state : Text
    pub merged_settings : Text → Option V
    pub decided_by : ScopeOrigin
    pub overridden : List ScopeOrigin

  abbrev pub over : Option V → Option V → Option V
  over none old = old
  over (some v) old = some v

  abbrev pub overwrite : Option (Text → Option V) → (Text → Option V) → Text → Option V
  overwrite none target k = target k
  overwrite (some m) target k = over (m k) (target k)

  unfoldable pub merge_json : (Text → Option V) → Text → Text → Option V
  unfolding trim_space text_eq
  merge_json target raw =
      let text = trim_space raw in
      if is_blank text || text_eq text (codes "{}")
      then target
      else overwrite (unmarshal text) target

  -- The three scopes, in the order of the loop's body.
  unfoldable pub global_scope : Option Binding → ResolvedPlugin → ResolvedPlugin
  unfolding merge_json text_eq
  global_scope none r = r
  global_scope (some glob) r = record r {
    effective_state = if text_eq glob.state state_inherit then r.effective_state else glob.state;
    merged_settings = merge_json r.merged_settings glob.settings;
  }

  unfoldable pub group_scope : List GroupCandidate → ResolvedPlugin → ResolvedPlugin
  unfolding merge_json scope_label
  group_scope [] r = r
  group_scope (winner ∷ losers) r = record r {
    effective_state = winner.binding.state;
    decided_by = group_label winner;
    merged_settings = merge_json r.merged_settings winner.binding.settings;
    overridden = map group_label losers;
  }

  unfoldable pub key_scope : Text → Text → Option Binding → ResolvedPlugin → ResolvedPlugin
  unfolding merge_json scope_label
  key_scope key name none r = r
  key_scope key name (some kb) r = if is_blank key then r else record r {
    effective_state = kb.state;
    decided_by = scope_label scope_key key name;
    merged_settings = merge_json r.merged_settings kb.settings;
  }

  unfoldable pub initial : Plugin → ResolvedPlugin
  unfolding merge_json scope_label
  initial p = record {
    plugin = p;
    effective_state = state_off;
    merged_settings = merge_json empty p.default_settings;
    decided_by = scope_label scope_global [] [];
    overridden = [];
  }

  unfoldable pub resolve_plugin :
      BindingMap → List ModelGroup → Text → Text → Text → Plugin → ResolvedPlugin
  unfolding initial global_scope candidates sort_candidates group_scope deciding key_scope
  resolve_plugin m groups key name model p = key_scope key name (deciding (m p.id scope_key key)) (
      group_scope (sort_candidates (candidates m p.id model groups))
        (global_scope (m p.id scope_global []) (initial p)))

  unfoldable pub resolve_plugins_for_request :
      List Plugin → List Binding → List ModelGroup → Text → Text → Text → List ResolvedPlugin
  unfolding index_bindings resolve_plugin
  resolve_plugins_for_request plugins bindings groups key name model =
      map
        (resolve_plugin (index_bindings (λ plugin scope_type scope. none) bindings) groups key name
          model)
        plugins
