-- ===== src/Plugins/Pipeline.antt =====
-- internal/plugins/pipeline.go: `Execute`. A JSON object is a map to values of a type that is a
-- parameter; `Json` holds the type assertions of the code. The built-in plugins and the call of
-- an HTTP plugin are arguments, `Runs`: the pipeline is modelled for every behaviour of theirs.
pub mod Header
pub mod Call
pub mod Execute
pub mod Trace
pub mod Active
pub mod Explained
pub mod Mandatory
mod Examples
use nineguard.Base.{
  ℕ, ℤ, pos, ltz, ◌+ℤ◌, List, [], ◌∷◌, ◌++◌, Option, none, some, Bool, true, false, not, ◌&&◌, ◌||◌,
  ◌==◌, if◌then◌else◌, any, filter, insert,
}
use nineguard.Base.Text.{Text, codes, text_eq, trim_space, is_blank}
use nineguard.Base.Split.{split_byte, join}
use nineguard.Plugins.{
  Plugin, Binding, ModelGroup, ResolvedPlugin, resolve_plugins_for_request, text_lt,
}

-- `raw.([]any)`, `it.(map[string]any)`, and a `[]any` of objects.
pub record Json {ℓ} (V : Type ℓ) : Type ℓ where
  pub as_array : V → Option (List V)
  pub as_object : V → Option (Text → Option V)
  pub of_objects : List (Text → Option V) → V

-- What a plugin gives back, with the variables that `Execute` declares for it.
pub record PluginRun {ℓ} (V : Type ℓ) : Type ℓ where
  pub modified_body : Option (Text → Option V)
  pub tokens_saved : ℤ
  pub tokens_overhead : ℤ
  pub skipped : Bool
  pub skip_reason : Text
  pub rejected : Bool
  pub reject_code : ℕ
  pub reject_message : Text
  pub failed : Bool
  pub proxy_url : Option Text

pub record GuardRun {ℓ} (M : Type ℓ) : Type ℓ where
  pub output : M
  pub skipped : Bool
  pub rejected : Bool
  pub message : Text
  pub failed : Bool

pub record StyleRun {ℓ} (M : Type ℓ) : Type ℓ where
  pub output : M
  pub skipped : Bool
  pub reason : Text
  pub overhead : ℤ
  pub failed : Bool

pub record ProxyRun : Type 0 where
  pub url : Text
  pub skipped : Bool
  pub reason : Text
  pub failed : Bool

-- `builtin.Apply…` and `CallHTTPPlugin`; the last argument is the timeout in milliseconds.
pub record Runs {ℓ} (V : Type ℓ) : Type ℓ where
  pub secret_guard : List (Text → Option V) → (Text → Option V) → GuardRun (List (Text → Option V))
  pub secret_guard_messages :
      (Text → Option V) → (Text → Option V) → GuardRun (Option (Text → Option V))
  pub headroom : (Text → Option V) → (Text → Option V) → ℤ → PluginRun V
  pub billion_context : (Text → Option V) → ℤ → ProxyRun
  pub caveman : List (Text → Option V) → (Text → Option V) → StyleRun (List (Text → Option V))
  pub caveman_messages : (Text → Option V) → (Text → Option V) → StyleRun (Option (Text → Option V))
  pub ponytail : List (Text → Option V) → (Text → Option V) → StyleRun (List (Text → Option V))
  pub ponytail_messages :
      (Text → Option V) → (Text → Option V) → StyleRun (Option (Text → Option V))
  pub http_plugin : Plugin → (Text → Option V) → (Text → Option V) → ℤ → PluginRun V

-- The variables of the loop.
pub record PipelineState {ℓ} (V : Type ℓ) : Type ℓ where
  pub current_body : Text → Option V
  pub plugins_applied : List Text
  pub plugins_skipped : List Text
  pub plugin_errors : List Text
  pub executed_builtins : List Text
  pub upstream_proxy_url : Text
  pub tokens_saved : ℤ
  pub tokens_overhead : ℤ

-- A loop that goes on, or the rejection that the function returns.
pub data Step {ℓ} (V : Type ℓ) : Type ℓ where
  going : PipelineState V → Step V
  stopped : ℕ → Text → PipelineState V → Step V

abbrev pub timeout_of : Plugin → ℤ
timeout_of p = if ltz (pos 0) p.timeout_ms then p.timeout_ms else pos 3000

module _ {ℓ} {V : Type ℓ} where
  abbrev pub no_run : PluginRun V
  no_run = record {
    modified_body = none;
    tokens_saved = pos 0;
    tokens_overhead = pos 0;
    skipped = false;
    skip_reason = [];
    rejected = false;
    reject_code = 0;
    reject_message = [];
    failed = false;
    proxy_url = none;
  }

  abbrev pub skipping : Text → PluginRun V
  skipping reason = record no_run { skipped = true; skip_reason = reason }

  abbrev pub bad_messages : PluginRun V
  bad_messages = record no_run {
    rejected = true;
    reject_code = 400;
    reject_message = codes "Invalid request: messages must be an array of message objects";
  }

  abbrev pub guard_whole : GuardRun (Option (Text → Option V)) → PluginRun V
  guard_whole g = record no_run {
    modified_body = g.output;
    skipped = g.skipped;
    rejected = g.rejected;
    reject_message = g.message;
    failed = g.failed;
  }

  abbrev pub style_whole : StyleRun (Option (Text → Option V)) → PluginRun V
  style_whole s = record no_run {
    modified_body = s.output;
    skipped = s.skipped;
    skip_reason = s.reason;
    tokens_overhead = s.overhead;
    failed = s.failed;
  }

  abbrev pub proxy_run : ProxyRun → PluginRun V
  proxy_run r = record no_run {
    skipped = r.skipped;
    skip_reason = r.reason;
    failed = r.failed;
    proxy_url = if not r.failed && not r.skipped then some r.url else none;
  }
