-- ===== src/Plugins/Pipeline/Examples.antt =====
-- The theorems of the pipeline at a request with two plugins, one of them mandatory.
use nineguard.Base.{ℕ, pos, List, [], ◌∷◌, Option, none, some, true, false, empty, insert}
use nineguard.Base.Text.{Text, codes}
use nineguard.Plugins.{Plugin, Binding, ResolvedPlugin, resolve_plugins_for_request}
use nineguard.Plugins.Pipeline.{Json, GuardRun, StyleRun, Runs, no_run}
use nineguard.Plugins.Pipeline.Execute.{Executed, executed, PipelineResult, execute}
use nineguard.Plugins.Pipeline.Explained.{Explained}

abbrev numbers : Text → Option (Text → Option ℕ)
numbers bytes = some (insert (codes "messages") 7 empty)

abbrev written : (Text → Option ℕ) → Option Text
written body = some (codes "{}")

abbrev flat : Json ℕ
flat = record { as_array = λ n. some []; as_object = λ n. none; of_objects = λ ms. 0 }

abbrev guarded : GuardRun (Option (Text → Option ℕ))
guarded = record { output = none; skipped = true; rejected = false; message = []; failed = false }

abbrev guarded_list : GuardRun (List (Text → Option ℕ))
guarded_list = record {
  output = [];
  skipped = false;
  rejected = false;
  message = [];
  failed = false;
}

abbrev styled : StyleRun (Option (Text → Option ℕ))
styled = record { output = none; skipped = false; reason = []; overhead = pos 12; failed = false }

abbrev styled_list : StyleRun (List (Text → Option ℕ))
styled_list = record {
  output = [];
  skipped = false;
  reason = [];
  overhead = pos 12;
  failed = false;
}

abbrev fixed_runs : Runs ℕ
fixed_runs = record {
  secret_guard = λ msgs s. guarded_list;
  secret_guard_messages = λ b s. guarded;
  headroom = λ b s t. no_run;
  billion_context =
      λ s t. record { url = codes "http://proxy"; skipped = false; reason = []; failed = false };
  caveman = λ msgs s. styled_list;
  caveman_messages = λ b s. styled;
  ponytail = λ msgs s. styled_list;
  ponytail_messages = λ b s. styled;
  http_plugin = λ p b s t. record no_run { failed = true };
}

abbrev guard : Plugin
guard = record {
  id = codes "secretguard";
  kind = codes "builtin";
  timeout_ms = pos 0;
  failure_policy = codes "closed";
  bypassable = false;
  pipeline_order = pos 1;
  default_settings = [];
}

abbrev remote : Plugin
remote = record {
  id = codes "remote";
  kind = codes "http";
  timeout_ms = pos 100;
  failure_policy = codes "open";
  bypassable = true;
  pipeline_order = pos 2;
  default_settings = [];
}

abbrev on_globally : Text → Binding
on_globally id = record {
  plugin_id = id;
  scope_type = codes "global";
  scope_id = [];
  state = codes "on";
  settings = [];
}

abbrev two_plugins : List Plugin
two_plugins = remote ∷ guard ∷ []

abbrev two_bindings : List Binding
two_bindings = on_globally (codes "secretguard") ∷ on_globally (codes "remote") ∷ []

abbrev answered : Executed
answered =
    execute numbers written flat fixed_runs two_plugins two_bindings [] (codes "k1") []
      (codes "gpt-4o") [] true (codes "secretguard") (codes "{}")

abbrev resolved : List (ResolvedPlugin numbers)
resolved =
    resolve_plugins_for_request numbers two_plugins two_bindings [] (codes "k1") [] (codes "gpt-4o")

abbrev result_of : Executed → PipelineResult
result_of (executed r) = r
result_of _ = record {
  body = none;
  upstream_proxy_url = [];
  plugins_applied = [];
  plugins_skipped = [];
  plugin_errors = [];
  tokens_saved = pos 0;
  tokens_overhead = pos 0;
  rejected = true;
  reject_code = 0;
  reject_message = [];
  applied_header = [];
}

abbrev second_of : List (ResolvedPlugin numbers) → ResolvedPlugin numbers → ResolvedPlugin numbers
second_of (x ∷ y ∷ xs) d = y
second_of _ d = d

abbrev dummy : ResolvedPlugin numbers
dummy = record {
  plugin = guard;
  effective_state = [];
  merged_settings = empty;
  decided_by = record { scope_type = []; scope_id = []; label = [] };
  overridden = [];
}
