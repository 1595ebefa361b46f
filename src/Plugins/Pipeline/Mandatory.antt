-- ===== src/Plugins/Pipeline/Mandatory.antt =====
-- A plugin that may not be bypassed and that fails closed.
use mathlib.Core.List.{Memᴰ}
use nineguard.Base.{◌≡◌, List, ◌∷◌, ◌++◌, Option, none, some, Bool, false, if◌then◌else◌}
use nineguard.Base.Text.{Text, codes, is_blank}
use nineguard.Plugins.{ResolvedPlugin}
use nineguard.Plugins.Pipeline.{Json, Runs, PluginRun}
use nineguard.Plugins.Pipeline.Header.{is_applied}
use nineguard.Plugins.Pipeline.Execute.{passed_over, or_body, PipelineResult}
use nineguard.Plugins.Pipeline.Active.{IsActive}
use nineguard.Plugins.Pipeline.Trace.{Flow, call}
use nineguard.Plugins.Pipeline.Explained.{Explained}

module _ {ℓ} {V : Type ℓ} (unmarshal : Text → Option (Text → Option V)) (json : Json V)
    (runs : Runs V) (format : Text) (bypass : Bool) (applied : Text → Bool) where
  abbrev pub after_run : (Text → Option V) → PluginRun V → Text → Option V
  after_run b o = if o.skipped then b else or_body b o.modified_body

  -- In a run over plugins that turns `b` into `c`: the plugin was called on the body that those before it
  -- made, it neither rejected that nor failed, and those after it turned what it left into `c`.
  pub record Called (b : Text → Option V) (items : List (ResolvedPlugin unmarshal))
      (c : Text → Option V) (item : ResolvedPlugin unmarshal) : Type ℓ where
    pub earlier : List (ResolvedPlugin unmarshal)
    pub later : List (ResolvedPlugin unmarshal)
    pub reached : Text → Option V
    pub split : items ≡ earlier ++ (item ∷ later)
    pub before : Flow unmarshal json runs format bypass applied b earlier reached
    pub not_passed : passed_over bypass applied item.plugin ≡ none
    pub accepted : (call unmarshal json runs format bypass applied item reached).rejected ≡ false
    pub finished : (call unmarshal json runs format bypass applied item reached).failed ≡ false
    pub after :
        Flow unmarshal json runs format bypass applied
          (after_run reached (call unmarshal json runs format bypass applied item reached))
          later
          c

module _ {ℓ} {V : Type ℓ} (unmarshal : Text → Option (Text → Option V))
    (marshal : (Text → Option V) → Option Text) (json : Json V) (runs : Runs V) (format : Text)
    (bypass : Bool) (incoming : Text) where
  -- The run for a request with an answer: from the body that the bytes hold to the one that is written, over
  -- the resolved plugins that are on, by their pipeline order. In it the plugin is called.
  pub record CalledFor (resolved : List (ResolvedPlugin unmarshal)) (bytes : Text)
      (r : PipelineResult) (item : ResolvedPlugin unmarshal) : Type ℓ where
    pub items : List (ResolvedPlugin unmarshal)
    pub first : Text → Option V
    pub last : Text → Option V
    pub active : IsActive unmarshal resolved items
    pub read : unmarshal bytes ≡ some first
    pub written : marshal last ≡ r.body
    pub called :
        Called unmarshal json runs
          (if is_blank format then codes "chat" else format)
          bypass
          (is_applied incoming)
          first
          items
          last
          item
