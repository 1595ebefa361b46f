-- ===== src/Plugins/Pipeline/Call.antt =====
-- The call of one plugin: the switch of `Execute`.
use nineguard.Base.{List, [], ◌∷◌, Option, none, some, not, ◌&&◌, if◌then◌else◌, insert}
use nineguard.Base.Text.{Text, codes, text_eq}
use nineguard.Plugins.{Plugin}
use nineguard.Plugins.Pipeline.{
  Json, PluginRun, GuardRun, StyleRun, Runs, timeout_of, no_run, skipping, bad_messages,
  guard_whole, style_whole, proxy_run,
}

module _ {ℓ} {V : Type ℓ} (json : Json V) (runs : Runs V) where
  abbrev pub cons_object :
      Option (Text → Option V) → Option (List (Text → Option V)) → Option (List (Text → Option V))
  cons_object (some m) (some ms) = some (m ∷ ms)
  cons_object _ _ = none

  unfoldable pub objects : List V → Option (List (Text → Option V))
  objects [] = some []
  objects (v ∷ vs) = cons_object (json.as_object v) (objects vs)

  abbrev pub to_map_slice : V → Option (List (Text → Option V))
  to_map_slice raw = of_array (json.as_array raw)
    where
      of_array : Option (List V) → Option (List (Text → Option V))
      of_array none = none
      of_array (some vs) = objects vs

  -- The messages of a chat body: whether there are any, and whether they are objects.
  abbrev pub with_messages :
      (List (Text → Option V) → PluginRun V) → Option (List (Text → Option V)) → PluginRun V
  with_messages run none = bad_messages
  with_messages run (some msgs) = run msgs

  abbrev pub on_messages : (List (Text → Option V) → PluginRun V) → Option V → PluginRun V
  on_messages run none = skipping (codes "no_messages")
  on_messages run (some raw) = with_messages run (to_map_slice raw)

  abbrev pub replaced : (Text → Option V) → List (Text → Option V) → Text → Option V
  replaced body msgs = insert (codes "messages") (json.of_objects msgs) body

  abbrev pub guard_chat : (Text → Option V) → GuardRun (List (Text → Option V)) → PluginRun V
  guard_chat body g = record no_run {
    modified_body =
        if not g.failed && not g.skipped && not g.rejected
        then some (replaced body g.output)
        else none;
    skipped = g.skipped;
    rejected = g.rejected;
    reject_message = g.message;
    failed = g.failed;
  }

  abbrev pub style_chat : (Text → Option V) → StyleRun (List (Text → Option V)) → PluginRun V
  style_chat body s = record no_run {
    modified_body = if not s.failed && not s.skipped then some (replaced body s.output) else none;
    skipped = s.skipped;
    skip_reason = s.reason;
    tokens_overhead = s.overhead;
    failed = s.failed;
  }

  -- The switch on the plugin's id.
  unfoldable pub call_plugin : Text → (Text → Option V) → Plugin → (Text → Option V) → PluginRun V
  unfolding text_eq objects
  call_plugin format body p settings =
      let messages = body (codes "messages") in
      let anthropic = text_eq format (codes "messages") in
      if text_eq p.id (codes "secretguard")
      then if anthropic
        then guard_whole (runs.secret_guard_messages body settings)
        else on_messages (λ msgs. guard_chat body (runs.secret_guard msgs settings)) messages
      else if text_eq p.id (codes "headroom")
      then if anthropic
        then skipping (codes "unsupported_format")
        else on_messages (λ msgs. runs.headroom body settings (timeout_of p)) messages
      else if text_eq p.id (codes "billion-context")
      then proxy_run (runs.billion_context settings (timeout_of p))
      else if text_eq p.id (codes "caveman")
      then if anthropic
        then style_whole (runs.caveman_messages body settings)
        else on_messages (λ msgs. style_chat body (runs.caveman msgs settings)) messages
      else if text_eq p.id (codes "ponytail")
      then if anthropic
        then style_whole (runs.ponytail_messages body settings)
        else on_messages (λ msgs. style_chat body (runs.ponytail msgs settings)) messages
      else runs.http_plugin p body settings (timeout_of p)
