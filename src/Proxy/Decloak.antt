-- ===== src/Proxy/Decloak.antt =====
-- internal/proxy/decloak.go: the suffixes that an upstream puts on the names of tools are taken off again. The
-- set of offered tools is a list of names.
mod Suffixes
mod Ends
pub mod Strip
pub mod Cloak
pub mod Settled
pub mod Twice
pub mod Events
pub mod Payload
mod Examples
use nineguard.Base.{
  ℕ, zero, suc, List, [], ◌∷◌, ◌++◌, Option, none, some, Bool, true, false, not, ◌&&◌, ◌||◌, ltb,
  if◌then◌else◌, any, length, map,
}
use nineguard.Base.Text.{
  Text, codes, text_eq, has_suffix, has_prefix, trim_suffix, is_blank, contains, trim_space, drop,
}
use nineguard.Proxy.Json.{
  Json, string, array, object, null, boolean, number, Items, nil, cons, Fields, end, field,
  JsonCodec, get_field, string_of, is_object, on_field, on_object, on_elements, then_edit, edit_if,
  no_edit,
}

abbrev pub ide : Text
ide = codes "_ide"

abbrev pub cc_suffix : Text
cc_suffix = codes "_cc"

abbrev pub offers : List Text → Text → Bool
offers offered name = any (text_eq name) offered

abbrev pub nothing_offered : List Text → Bool
nothing_offered [] = true
nothing_offered (t ∷ ts) = false

abbrev pub ends_in : Text → Text → Bool
ends_in cur suffix = ltb (length suffix) (length cur) && has_suffix cur suffix

-- The loop over `knownCloakSuffixes`.
unfoldable pub strip_one : Text → Option Text
strip_one cur =
    if ends_in cur ide
    then some (trim_suffix cur ide)
    else if ends_in cur cc_suffix
    then some (trim_suffix cur cc_suffix)
    else none

-- How the outer loop ends: at an offered name, or where no suffix is left.
pub data Stripped : Type 0 where
  offered_name bare : Text → Stripped

abbrev pub strip_on : List Text → (Text → Option Stripped) → Text → Option Text → Option Stripped
strip_on offered rest cur none = some (bare cur)
strip_on offered rest cur (some cur') =
    let more = rest cur' in if offers offered cur' then some (offered_name cur') else more

-- The outer loop; `none` means that the fuel ran out.
unfoldable pub strip_loop : List Text → ℕ → Text → Option Stripped
strip_loop offered zero cur = none
strip_loop offered (suc f) cur = strip_on offered (strip_loop offered f) cur (strip_one cur)

abbrev pub stripped_or : List Text → Text → Option Stripped → Text
stripped_or offered name none = name
stripped_or offered name (some (offered_name cur)) = cur
stripped_or offered name (some (bare cur)) = if nothing_offered offered then cur else name

-- `StripCloakSuffix`; the fuel is the length of the name.
unfoldable pub strip_cloak_suffix : Text → List Text → Text
strip_cloak_suffix name offered =
    if offers offered name
    then name
    else stripped_or offered name (strip_loop offered (suc (length name)) name)

abbrev pub has_role : Text → Fields → Bool
has_role role fs = text_eq (string_of (get_field (codes "role") fs)) role

abbrev pub marshalled : Text → (Text → Text) → Option Text → Text
marshalled body use_it none = body
marshalled body use_it (some text) = use_it text

-- What `json.Marshal` gives, or the original where nothing was changed or it fails.
abbrev pub rewritten : JsonCodec → Text → (Text → Text) → Fields × Bool → Text
rewritten codec body use_it (fs, false) = body
rewritten codec body use_it (fs, true) = marshalled body use_it (codec.encode fs)

abbrev pub edit_decoded :
    JsonCodec → Text → (Text → Text) → (Fields → Fields × Bool) → Option Fields → Text
edit_decoded codec body use_it edit none = body
edit_decoded codec body use_it edit (some fs) = rewritten codec body use_it (edit fs)

abbrev pub is_messages : Text → Bool
is_messages api_format = text_eq api_format (codes "messages")

module _ (offered : List Text) where
  -- `if decloaked := StripCloakSuffix(name, offered); decloaked != name { … }`.
  unfoldable pub decloak_name : Json → Json × Bool
  decloak_name (string s) =
      let decloaked = strip_cloak_suffix s offered in
      if is_blank s || text_eq decloaked s then (string s, false) else (string decloaked, true)
  decloak_name null = (null, false)
  decloak_name (boolean b) = (boolean b, false)
  decloak_name (number n) = (number n, false)
  decloak_name (array xs) = (array xs, false)
  decloak_name (object fs) = (object fs, false)

  abbrev pub rename_tool : Fields → Fields × Bool
  rename_tool = on_field (codes "name") decloak_name

  abbrev pub rename_function : Fields → Fields × Bool
  rename_function = on_field (codes "function") (on_object rename_tool)

  abbrev pub rename_tool_use : Fields → Fields × Bool
  rename_tool_use =
      edit_if (λ fs. text_eq (string_of (get_field (codes "type") fs)) (codes "tool_use"))
        rename_tool no_edit

  -- `tool_calls` and `function_call` of a message or a delta.
  abbrev pub rename_calls : Fields → Fields × Bool
  rename_calls =
      then_edit (on_field (codes "tool_calls") (on_elements (on_object rename_function)))
        (on_field (codes "function_call") (on_object rename_tool))

  -- The edits of `DecloakResponseBody`, for `messages` and for the other format.
  unfoldable pub edit_messages_response : Fields → Fields × Bool
  edit_messages_response = on_field (codes "content") (on_elements (on_object rename_tool_use))

  unfoldable pub edit_chat_response : Fields → Fields × Bool
  edit_chat_response =
      on_field (codes "choices")
        (on_elements (on_object (on_field (codes "message") (on_object rename_calls))))

  -- Those of `CleanRequestToolHistory`.
  unfoldable pub edit_messages_history : Fields → Fields × Bool
  edit_messages_history =
      then_edit
        (on_field (codes "messages") (
          on_elements (
            on_object (
              edit_if (has_role (codes "assistant"))
                (on_field (codes "content") (on_elements (on_object rename_tool_use))) no_edit))))
        (on_field (codes "tool_choice") (on_object rename_tool))

  unfoldable pub edit_chat_history : Fields → Fields × Bool
  edit_chat_history =
      then_edit
        (on_field (codes "messages") (
          on_elements (
            on_object (
              edit_if (has_role (codes "assistant")) rename_calls
                (edit_if (has_role (codes "function")) rename_tool no_edit)))))
        (on_field (codes "tool_choice") (
          on_object (
            edit_if (λ fs. is_object (get_field (codes "function") fs)) rename_function
              rename_tool)))

  -- `DecloakResponseBody`.
  unfoldable pub decloak_response_body : JsonCodec → Text → Text → Text
  decloak_response_body codec api_format body =
      if is_blank body || nothing_offered offered
      then body
      else edit_decoded codec body (λ text. text)
          (if is_messages api_format then edit_messages_response else edit_chat_response)
          (codec.decode body)

  -- `CleanRequestToolHistory`.
  unfoldable pub clean_request_tool_history : JsonCodec → Text → Text → Text
  clean_request_tool_history codec api_format body =
      if is_blank body || nothing_offered offered
      then body
      else edit_decoded codec body (λ text. text)
          (if is_messages api_format then edit_messages_history else edit_chat_history)
          (codec.decode body)
