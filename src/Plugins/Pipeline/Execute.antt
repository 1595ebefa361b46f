-- ===== src/Plugins/Pipeline/Execute.antt =====
-- `Execute`: the call of each plugin, the loop over the active plugins and the whole function.
use nineguard.Base.{
  ℕ, ℤ, pos, ltz, ◌+ℤ◌, List, [], ◌∷◌, ◌++◌, Option, none, some, Bool, true, false, ◌&&◌, ◌==◌,
  if◌then◌else◌, filter,
}
use nineguard.Base.Text.{Text, codes, text_eq, is_blank}
use nineguard.Plugins.{Plugin, Binding, ModelGroup, ResolvedPlugin, resolve_plugins_for_request}
use nineguard.Plugins.Pipeline.{Json, PluginRun, Runs, PipelineState, Step, going, stopped}
use nineguard.Plugins.Pipeline.Header.{is_applied, compute_applied_header}
use nineguard.Plugins.Pipeline.Call.{call_plugin}

abbrev or_url : Text → Option Text → Text
or_url url none = url
or_url url (some new) = new

abbrev pub is_builtin : Plugin → Bool
is_builtin p = text_eq p.kind (codes "builtin")

abbrev pub is_closed : Plugin → Bool
is_closed p = text_eq p.failure_policy (codes "closed")

-- A plugin that the request's header has passed over, with the reason.
unfoldable pub passed_over : Bool → (Text → Bool) → Plugin → Option Text
unfolding text_eq
passed_over bypass applied p =
    if bypass && p.bypassable
    then some (codes "bypassed")
    else if is_builtin p && applied p.id && p.bypassable
    then some (codes "already_applied")
    else none

module _ {ℓ} {V : Type ℓ} where
  abbrev pub skip : Plugin → Text → PipelineState V → Step V
  skip p reason st =
      going (record st {
        plugins_skipped = st.plugins_skipped ++ ((p.id ++ (codes ":" ++ reason)) ∷ []);
      })

  abbrev pub with_error : Plugin → PipelineState V → PipelineState V
  with_error p st = record st { plugin_errors = st.plugin_errors ++ (p.id ∷ []) }

  abbrev pub or_body : (Text → Option V) → Option (Text → Option V) → Text → Option V
  or_body body none k = body k
  or_body body (some m) k = m k

  abbrev pub apply_run : Plugin → PluginRun V → PipelineState V → PipelineState V
  apply_run p o st = record {
    current_body = or_body st.current_body o.modified_body;
    plugins_applied = st.plugins_applied ++ (p.id ∷ []);
    plugins_skipped = st.plugins_skipped;
    plugin_errors = st.plugin_errors;
    executed_builtins =
        if is_builtin p then st.executed_builtins ++ (p.id ∷ []) else st.executed_builtins;
    upstream_proxy_url = or_url st.upstream_proxy_url o.proxy_url;
    tokens_saved = st.tokens_saved +ℤ o.tokens_saved;
    tokens_overhead = st.tokens_overhead +ℤ o.tokens_overhead;
  }

  -- What the loop does with a run: a rejection first, then an error, then a skip.
  unfoldable pub settle : Plugin → PluginRun V → PipelineState V → Step V
  settle p o st =
      if o.rejected
      then stopped (if o.reject_code == 0 then 403 else o.reject_code) o.reject_message st
      else if o.failed
      then if is_closed p
        then stopped 503 (codes "Plugin '" ++ (p.id ++ codes "' is unavailable.")) (with_error p st)
        else going (with_error p st)
      else if o.skipped
      then skip p o.skip_reason st
      else going (apply_run p o st)

module _ {ℓ} {V : Type ℓ} (unmarshal : Text → Option (Text → Option V)) (json : Json V)
    (runs : Runs V) (format : Text) (bypass : Bool) (applied : Text → Bool) where
  abbrev pub run_unless : Option Text → ResolvedPlugin unmarshal → PipelineState V → Step V
  run_unless (some reason) item st = skip item.plugin reason st
  run_unless none item st =
      settle item.plugin
        (call_plugin json runs format st.current_body item.plugin item.merged_settings) st

  unfoldable pub run_item : ResolvedPlugin unmarshal → PipelineState V → Step V
  run_item item st = run_unless (passed_over bypass applied item.plugin) item st

  abbrev pub chain : (PipelineState V → Step V) → Step V → Step V
  chain next (stopped code message st) = stopped code message st
  chain next (going st) = next st

  -- The loop.
  unfoldable pub run_active : List (ResolvedPlugin unmarshal) → PipelineState V → Step V
  run_active [] st = going st
  run_active (item ∷ items) st = chain (run_active items) (run_item item st)

-- The body and the header of a finished request, or the rejection.
pub record PipelineResult : Type 0 where
  pub body : Option Text
  pub upstream_proxy_url : Text
  pub plugins_applied : List Text
  pub plugins_skipped : List Text
  pub plugin_errors : List Text
  pub tokens_saved : ℤ
  pub tokens_overhead : ℤ
  pub rejected : Bool
  pub reject_code : ℕ
  pub reject_message : Text
  pub applied_header : Text

pub data Executed : Type 0 where
  invalid_json not_serialized : Executed
  executed : PipelineResult → Executed

module _ {ℓ} {V : Type ℓ} (unmarshal : Text → Option (Text → Option V)) where
  -- `sort.Slice` by pipeline order; the order between equals is not specified, here it is the list's.
  unfoldable pub insert_ordered :
      ResolvedPlugin unmarshal → List (ResolvedPlugin unmarshal) → List (ResolvedPlugin unmarshal)
  insert_ordered x [] = x ∷ []
  insert_ordered x (y ∷ ys) =
      let rest = insert_ordered x ys in
      if ltz y.plugin.pipeline_order x.plugin.pipeline_order then y ∷ rest else x ∷ y ∷ ys

  unfoldable pub sort_ordered : List (ResolvedPlugin unmarshal) → List (ResolvedPlugin unmarshal)
  unfolding insert_ordered
  sort_ordered [] = []
  sort_ordered (x ∷ xs) = insert_ordered x (sort_ordered xs)

  unfoldable pub active_plugins : List (ResolvedPlugin unmarshal) → List (ResolvedPlugin unmarshal)
  unfolding sort_ordered text_eq
  active_plugins resolved =
      sort_ordered (filter (λ r. text_eq r.effective_state (codes "on")) resolved)

  abbrev pub initial_state : (Text → Option V) → PipelineState V
  initial_state body = record {
    current_body = body;
    plugins_applied = [];
    plugins_skipped = [];
    plugin_errors = [];
    executed_builtins = [];
    upstream_proxy_url = [];
    tokens_saved = pos 0;
    tokens_overhead = pos 0;
  }

  abbrev pub finished : Text → PipelineState V → Option Text → Executed
  finished incoming st none = not_serialized
  finished incoming st (some body) = executed (record {
    body = some body;
    upstream_proxy_url = st.upstream_proxy_url;
    plugins_applied = st.plugins_applied;
    plugins_skipped = st.plugins_skipped;
    plugin_errors = st.plugin_errors;
    tokens_saved = st.tokens_saved;
    tokens_overhead = st.tokens_overhead;
    rejected = false;
    reject_code = 0;
    reject_message = [];
    applied_header = compute_applied_header incoming st.executed_builtins;
  })

  abbrev pub answer : ((Text → Option V) → Option Text) → Text → Step V → Executed
  answer marshal incoming (stopped code message st) = executed (record {
    body = none;
    upstream_proxy_url = [];
    plugins_applied = st.plugins_applied;
    plugins_skipped = st.plugins_skipped;
    plugin_errors = st.plugin_errors;
    tokens_saved = pos 0;
    tokens_overhead = pos 0;
    rejected = true;
    reject_code = code;
    reject_message = message;
    applied_header = [];
  })
  answer marshal incoming (going st) = finished incoming st (marshal st.current_body)

  module _ (marshal : (Text → Option V) → Option Text) (json : Json V) (runs : Runs V) where
    abbrev pub execute_body :
        List (ResolvedPlugin unmarshal) → Text → Bool → Text → Option (Text → Option V) → Executed
    execute_body resolved format bypass incoming none = invalid_json
    execute_body resolved format bypass incoming (some body) = answer marshal incoming (
        run_active unmarshal json runs (if is_blank format then codes "chat" else format) bypass
          (is_applied incoming) (active_plugins resolved) (initial_state body))

    unfoldable pub execute :
        List Plugin
        → List Binding
        → List ModelGroup
        → Text
        → Text
        → Text
        → Text
        → Bool
        → Text
        → Text
        → Executed
    unfolding active_plugins run_active
    execute plugins bindings groups key name model format bypass incoming bytes =
        execute_body (resolve_plugins_for_request unmarshal plugins bindings groups key name model)
          format bypass incoming (unmarshal bytes)
