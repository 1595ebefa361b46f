-- ===== src/Proxy/Decloak/Examples.antt =====
-- Runs of internal/proxy/decloak.go.
use nineguard.Base.{
  suc, length, ◌≡◌, refl, sym, ap, ◌∙◌, subst, List, [], ◌∷◌, ◌++◌, some, true, false, arith,
  if◌then◌else◌,
}
use nineguard.Base.Text.{
  Text, codes, text_eq, text_eq_refl, has_suffix, trim_suffix, has_prefix, trim_space, drop,
  is_blank,
}
use nineguard.Base.Split.{split_byte, join, trim_right_byte}
use nineguard.Base.Split.Lines.{lacks}
use nineguard.Proxy.Json.{
  string, array, object, nil, cons, Fields, end, field, JsonCodec, on_field, on_elements, on_object,
  edit_if, get_field, then_edit,
}
use nineguard.Proxy.Decloak.{
  Stripped, strip_one, strip_loop, strip_cloak_suffix, decloak_name, edit_chat_history,
  clean_request_tool_history,
}
use nineguard.Proxy.Decloak.Events.{
  event_payload, data_lines, edit_messages_event, decloak_sse_event,
}
use nineguard.Proxy.Decloak.Payload.{OneLine, event_edit, decloak_sse_event-payload}
use nineguard.Proxy.Decloak.Strip.{Decloaks, strip_cloak_suffix-Decloaks}
use nineguard.Proxy.Decloak.Cloak.{strip_cloak_suffix-cloak}
use nineguard.Proxy.Decloak.Twice.{ReadsBack, history_edit, clean_request_tool_history-twice}

abbrev offered : List Text
offered = codes "read" ∷ codes "bash" ∷ []

-- read_ide_cc without offered tools.
strip_cloak_suffix-Decloaks_example :
    ((r : Stripped) × (strip_loop [] (suc (length (codes "read_ide_cc"))) (codes "read_ide_cc")
        ≡ some r))
    × Decloaks [] (codes "read_ide_cc") (strip_cloak_suffix (codes "read_ide_cc") [])
strip_cloak_suffix-Decloaks_example = strip_cloak_suffix-Decloaks (codes "read_ide_cc") []

-- read_ide_cc_ide is cut to read.
strip_cloak_suffix-cloak_example :
    strip_cloak_suffix (codes "read_ide_cc_ide") (codes "read" ∷ codes "bash" ∷ []) ≡ codes "read"
unfolding text_eq
strip_cloak_suffix-cloak_example =
    strip_cloak_suffix-cloak (codes "read" ∷ codes "bash" ∷ []) (true ∷ false ∷ true ∷ [])
      (codes "read") (omega arith) refl (refl, (refl, (refl, tt)))

abbrev request : Text → Fields
request name =
    field (codes "messages")
      (array (
        cons
          (object (
            field (codes "role") (string (codes "assistant")) (
              field (codes "tool_calls")
                (array (
                  cons
                    (object (
                      field (codes "function") (object (field (codes "name") (string name) end))
                        end))
                    nil))
                end)))
          nil))
      end

-- Bytes that stand for one value each: "old" with a cloaked name, "new" without.
abbrev codec : Fields → Fields → JsonCodec
codec old new = record {
  decode = λ t. if text_eq t (codes "new") then some new else some old;
  encode = λ fs. some (codes "new");
}

abbrev request_codec : JsonCodec
request_codec = codec (request (codes "read_cc")) (request (codes "read"))

reads_back : (old new fs : Fields) → fs ≡ new → ReadsBack (codec old new) fs
reads_back old new fs e t w =
    subst (λ u. (codec old new).decode u ≡ some fs) (some_injective w)
      (rw (text_eq_refl (codes "new")) (ap some (sym e)))
  where
    some_injective : {a b : Text} → some a ≡ some b → a ≡ b
    some_injective e = cc

old_is : {a b : Fields} → some a ≡ some b → a ≡ b
old_is e = cc

old_decoded : (old new : Fields) → (codec old new).decode (codes "old") ≡ some old
unfolding text_eq
old_decoded old new = refl

history_clean :
    (history_edit offered (codes "chat") (request (codes "read_cc"))).0 ≡ request (codes "read")
unfolding edit_chat_history decloak_name strip_cloak_suffix text_eq then_edit on_field on_elements
    on_object edit_if get_field strip_loop strip_one has_suffix trim_suffix
history_clean = refl

clean_request_tool_history-twice_example :
    clean_request_tool_history offered request_codec
      (codes "chat")
      (clean_request_tool_history offered request_codec (codes "chat") (codes "old"))
    ≡ clean_request_tool_history offered request_codec (codes "chat") (codes "old")
clean_request_tool_history-twice_example =
    clean_request_tool_history-twice offered request_codec (codes "chat") (codes "old") (λ fs e.
      let old = request (codes "read_cc") in
      let new = request (codes "read") in
      let same : fs ≡ old = old_is (sym e ∙ old_decoded old new) in
      reads_back old new (history_edit offered (codes "chat") fs).0
        (ap (λ x. (history_edit offered (codes "chat") x).0) same ∙ history_clean))

abbrev block : Text → Fields
block name =
    field (codes "content_block")
      (object
        (field (codes "name") (string name) (field (codes "type") (string (codes "tool_use")) end)))
      end

abbrev event_codec : JsonCodec
event_codec = codec (block (codes "read_ide")) (block (codes "read"))

-- Two lines, each ended by a carriage return and a newline, and an empty line.
abbrev event : Text
event = codes "data: old" ++ (13 ∷ 10 ∷ 13 ∷ 10 ∷ [])

event_read : event_payload event ≡ codes "old"
unfolding event_payload data_lines split_byte trim_right_byte join has_prefix trim_space drop
event_read = refl

event_changed : (event_edit offered (codes "messages") (block (codes "read_ide"))).1 ≡ true
unfolding edit_messages_event decloak_name strip_cloak_suffix text_eq on_field on_object edit_if
    get_field strip_loop strip_one has_suffix trim_suffix
event_changed = refl

new_line : OneLine (codes "new")
unfolding lacks trim_space
new_line = (refl, refl, refl)

old_more : text_eq (codes "old") (codes "[DONE]") ≡ false
unfolding text_eq
old_more = refl

decloak_sse_event-payload_example :
    event_payload
      (decloak_sse_event offered event_codec (codes "messages") event (event_payload event))
    ≡ codes "new"
decloak_sse_event-payload_example =
    decloak_sse_event-payload offered event_codec (codes "messages") event
      (block (codes "read_ide")) (codes "new") refl (ap is_blank event_read)
      (ap (λ t. text_eq t (codes "[DONE]")) event_read ∙ old_more)
      (ap event_codec.decode event_read
        ∙ old_decoded (block (codes "read_ide")) (block (codes "read")))
      event_changed refl new_line
