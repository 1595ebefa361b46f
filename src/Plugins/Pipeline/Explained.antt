-- ===== src/Plugins/Pipeline/Explained.antt =====
-- Every answer of `Execute` is explained by the specification.
use nineguard.Base.{◌≡◌, refl, ℕ, List, Option, none, some, Bool, true, false, if◌then◌else◌}
use nineguard.Base.Text.{Text, codes, is_blank}
use nineguard.Plugins.{Plugin, Binding, ModelGroup, ResolvedPlugin, resolve_plugins_for_request}
use nineguard.Plugins.Pipeline.{Json, Runs, Step, going, stopped}
use nineguard.Plugins.Pipeline.Header.{is_applied}
use nineguard.Plugins.Pipeline.Execute.{
  Executed, executed, invalid_json, not_serialized, PipelineResult, active_plugins, initial_state,
  answer, execute_body, finished, execute,
}
use nineguard.Plugins.Pipeline.Trace.{Flow, Blocked, Traced, run_active-Traced}

-- What the answer of `Execute` says of the request's body and of the resolved plugins.
module _ {ℓ} {V : Type ℓ} (unmarshal : Text → Option (Text → Option V))
    (marshal : (Text → Option V) → Option Text) (json : Json V) (runs : Runs V) (format : Text)
    (bypass : Bool) (incoming : Text) where
  abbrev pub FlowOf :
      (Text → Option V) → List (ResolvedPlugin unmarshal) → (Text → Option V) → Type ℓ
  FlowOf =
      Flow unmarshal json runs (if is_blank format then codes "chat" else format) bypass
        (is_applied incoming)

  abbrev pub BlockedOf : (Text → Option V) → List (ResolvedPlugin unmarshal) → ℕ → Type ℓ
  BlockedOf =
      Blocked unmarshal json runs (if is_blank format then codes "chat" else format) bypass
        (is_applied incoming)

  abbrev pub AnswerExplained :
      (Text → Option V) → List (ResolvedPlugin unmarshal) → Option Text → PipelineResult → Type ℓ
  AnswerExplained b items none r = (r.rejected ≡ true) × BlockedOf b items r.reject_code
  AnswerExplained b items (some out) r =
      (r.rejected ≡ false) × ((c : Text → Option V) × FlowOf b items c × (marshal c ≡ some out))

  -- A body that is not a JSON object, a result that cannot be written, or an answer.
  abbrev pub Explained :
      Option (Text → Option V) → List (ResolvedPlugin unmarshal) → Executed → Type ℓ
  Explained o items invalid_json = o ≡ none
  Explained o items not_serialized =
      (b c : Text → Option V) × (o ≡ some b) × FlowOf b items c × (marshal c ≡ none)
  Explained o items (executed r) =
      (b : Text → Option V) × (o ≡ some b) × AnswerExplained b items r.body r

  answer-Explained :
      (b : Text → Option V) (items : List (ResolvedPlugin unmarshal)) (s : Step V)
      → Traced unmarshal json runs
          (if is_blank format then codes "chat" else format)
          bypass
          (is_applied incoming)
          b
          items
          s
      → Explained (some b) items (answer unmarshal marshal incoming s)
  answer-Explained b items (stopped code message st) t = (b, refl, (refl, t))
  answer-Explained b items (going st) t = written (marshal st.current_body) refl
    where
      written :
          (o : Option Text)
          → marshal st.current_body ≡ o
          → Explained (some b) items (finished unmarshal incoming st o)
      written none e = (b, st.current_body, refl, t, e)
      written (some out) e = (b, refl, (refl, (st.current_body, t, e)))

  pub active-Explained :
      (plugins : List Plugin) (bindings : List Binding) (groups : List ModelGroup)
      (key name model bytes : Text)
      → Explained
          (unmarshal bytes)
          (active_plugins unmarshal
            (resolve_plugins_for_request unmarshal plugins bindings groups key name model))
          (execute unmarshal marshal json runs plugins bindings groups key name model format bypass
            incoming bytes)
  unfolding execute
  active-Explained plugins bindings groups key name model bytes = by_body (unmarshal bytes)
    where
      resolved : List (ResolvedPlugin unmarshal)
      resolved = resolve_plugins_for_request unmarshal plugins bindings groups key name model

      by_body :
          (o : Option (Text → Option V))
          → Explained o
              (active_plugins unmarshal resolved)
              (execute_body unmarshal marshal json runs resolved format bypass incoming o)
      by_body none = refl
      by_body (some b) = answer-Explained b (active_plugins unmarshal resolved) _ (
          run_active-Traced unmarshal json runs (if is_blank format then codes "chat" else format)
            bypass (is_applied incoming) (active_plugins unmarshal resolved)
            (initial_state unmarshal b))
