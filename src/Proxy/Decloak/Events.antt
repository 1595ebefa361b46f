-- ===== src/Proxy/Decloak/Events.antt =====
-- internal/proxy/decloak.go: the tools that a request offers, and the names of tools in an event of a
-- stream, whose payload internal/proxy/stream_inject.go reads.
use nineguard.Base.{
  ℕ, List, [], ◌∷◌, ◌++◌, Option, none, some, Bool, true, false, ◌||◌, if◌then◌else◌,
}
use nineguard.Base.Text.{Text, codes, text_eq, has_prefix, is_blank, contains, trim_space, drop}
use nineguard.Base.Split.{split_byte, join, trim_right_byte}
use nineguard.Proxy.Json.{
  Json, object, array, null, boolean, number, string, Items, nil, cons, Fields, JsonCodec,
  get_field, string_of, on_field, on_object, on_elements,
}
use nineguard.Proxy.Decloak.{
  nothing_offered, rename_tool_use, rename_calls, edit_decoded, is_messages,
}

-- The objects among the elements of an array.
unfoldable pub objects_in : Items → List Fields
objects_in nil = []
objects_in (cons (object fs) xs) = fs ∷ objects_in xs
objects_in (cons null xs) = objects_in xs
objects_in (cons (boolean b) xs) = objects_in xs
objects_in (cons (number n) xs) = objects_in xs
objects_in (cons (string s) xs) = objects_in xs
objects_in (cons (array ys) xs) = objects_in xs

abbrev pub objects_of : Option Json → List Fields
unfolding objects_in
objects_of (some (array xs)) = objects_in xs
objects_of _ = []

abbrev pub fields_of : Option Json → Fields → Fields
fields_of (some (object fs)) otherwise = fs
fields_of _ otherwise = otherwise

-- A name that is there and not empty.
abbrev pub name_in : Fields → List Text
name_in fs =
    let name = string_of (get_field (codes "name") fs) in if is_blank name then [] else name ∷ []

-- The name of `function`, if that is an object.
abbrev pub function_name_in : Fields → List Text
function_name_in fs = name_in (fields_of (get_field (codes "function") fs) fs)

unfoldable pub names_by : (Fields → List Text) → List Fields → List Text
names_by f [] = []
names_by f (fs ∷ more) = f fs ++ names_by f more

abbrev pub offered_by : Text → Fields → List Text
unfolding names_by
offered_by api_format req =
    let tools = objects_of (get_field (codes "tools") req) in
    if is_messages api_format
    then names_by name_in tools
    else names_by function_name_in tools
      ++ names_by name_in (objects_of (get_field (codes "functions") req))

abbrev pub offered_if : Text → Option Fields → List Text
offered_if api_format none = []
offered_if api_format (some req) = offered_by api_format req

-- `ExtractOfferedTools`; it decodes numbers as floats, so its decoder is another.
unfoldable pub extract_offered_tools : (Text → Option Fields) → Text → Text → List Text
extract_offered_tools decode api_format body =
    if is_blank body then [] else offered_if api_format (decode body)

abbrev pub newline : ℕ
newline = 10

abbrev pub carriage_return : ℕ
carriage_return = 13

-- The data of a line: "data: " and "data:".
abbrev pub read_data : Text → Option Text
read_data trimmed =
    if has_prefix trimmed (codes "data: ")
    then some (trim_space (drop 6 trimmed))
    else if has_prefix trimmed (codes "data:")
    then some (trim_space (drop 5 trimmed))
    else none

abbrev pub add_data : Option Text → List Text → List Text
add_data none more = more
add_data (some found) more = found ∷ more

unfoldable pub data_lines : List Text → List Text
data_lines [] = []
data_lines (line ∷ lines) =
    add_data (read_data (trim_right_byte carriage_return line)) (data_lines lines)

-- The second result of `IsUsageOnlySSEEvent`.
unfoldable pub event_payload : Text → Text
unfolding data_lines
event_payload event = join (newline ∷ []) (data_lines (split_byte newline event))

-- The loop of `replaceSSEData`: the first "data:" line is replaced, the others are left out.
unfoldable pub replace_lines : Text → Bool → List Text → List Text
replace_lines payload replaced [] = []
replace_lines payload replaced (line ∷ lines) =
    let trimmed = trim_right_byte carriage_return line in
    let more = replace_lines payload true lines in
    let next = replace_lines payload replaced lines in
    if has_prefix trimmed (codes "data:")
    then if replaced then more else (codes "data: " ++ payload) ∷ more
    else trimmed ∷ next

-- `replaceSSEData`.
unfoldable pub replace_sse_data : Text → Text → Text
unfolding replace_lines
replace_sse_data raw payload =
    let eol =
      if contains raw (carriage_return ∷ newline ∷ [])
      then carriage_return ∷ newline ∷ []
      else newline ∷ [] in
    join eol (replace_lines payload false (split_byte newline raw))

module _ (offered : List Text) where
  -- The edits of `DecloakSSEEvent`, for `messages` and for the other format.
  unfoldable pub edit_messages_event : Fields → Fields × Bool
  edit_messages_event = on_field (codes "content_block") (on_object (rename_tool_use offered))

  unfoldable pub edit_chat_event : Fields → Fields × Bool
  edit_chat_event =
      on_field (codes "choices")
        (on_elements (on_object (on_field (codes "delta") (on_object (rename_calls offered)))))

  -- `DecloakSSEEvent`.
  unfoldable pub decloak_sse_event : JsonCodec → Text → Text → Text → Text
  unfolding event_payload replace_sse_data
  decloak_sse_event codec api_format raw data_payload =
      let payload = if is_blank data_payload then event_payload raw else data_payload in
      if is_blank raw || nothing_offered offered
      then raw
      else if is_blank payload || text_eq payload (codes "[DONE]")
      then raw
      else edit_decoded codec raw (replace_sse_data raw)
          (if is_messages api_format then edit_messages_event else edit_chat_event)
          (codec.decode payload)
