-- ===== src/Proxy/Decloak/Payload.antt =====
-- An event whose data was replaced is read back as the new data.
use mathlib.Core.List.{append-nil}
use nineguard.Base.{
  ◌≡◌, refl, ap, ◌∙◌, inl, inr, List, [], ◌∷◌, ◌++◌, none, some, Bool, true, false, if◌then◌else◌,
  arith, Bool-cases, all, any,
}
use nineguard.Base.Text.{Text, codes, has_prefix, contains, trim_space, drop, is_blank, text_eq}
use nineguard.Base.Split.{split_byte, join, trim_right_byte}
use nineguard.Base.Split.Lines.{
  lacks, end_lines, trim_right_byte-twice, trim_right_byte-append, trim_right_byte-lacks,
  trim_right_byte-none, split_byte-lacks, split_byte-join,
}
use nineguard.Proxy.Json.{Fields, JsonCodec}
use nineguard.Proxy.Decloak.{nothing_offered, rewritten, is_messages}
use nineguard.Proxy.Decloak.Events.{
  edit_messages_event, edit_chat_event, decloak_sse_event, newline, carriage_return, read_data,
  data_lines, event_payload, replace_lines, replace_sse_data,
}

abbrev trimmed : Text → Text
trimmed = trim_right_byte carriage_return

-- A line that the reader and the writer take for data.
abbrev pub is_data : Text → Bool
is_data line = has_prefix (trim_right_byte carriage_return line) (codes "data:")

has_prefix-shorter : (x p q : Text) → has_prefix x (p ++ q) ≡ true → has_prefix x p ≡ true
unfolding has_prefix
has_prefix-shorter x [] q h = refl
has_prefix-shorter [] (c ∷ p) q h = cc
has_prefix-shorter (d ∷ x) (c ∷ p) q h = ground (arith, has_prefix-shorter x p q)

read_data-none : (t : Text) → has_prefix t (codes "data:") ≡ false → read_data t ≡ none
read_data-none t e = elim (Bool-cases (has_prefix t (codes "data: "))) [
  | inl d ↦ cc (has_prefix-shorter t (codes "data:") (codes " ") d)
  | inr d ↦ rw (d, e)
]

not_data : (line : Text) → is_data line ≡ false → read_data (trimmed (trimmed line)) ≡ none
not_data line e = rw (trim_right_byte-twice carriage_return line) (read_data-none (trimmed line) e)

-- Once the data was replaced, no data line is left.
data_lines-rest : (p : Text) (ls : List Text) → data_lines (replace_lines p true ls) ≡ []
unfolding data_lines replace_lines
data_lines-rest p [] = refl
data_lines-rest p (l ∷ ls) = elim (Bool-cases (is_data l)) [
  | inl e ↦ rw e (data_lines-rest p ls)
  | inr e ↦ rw (e, not_data l e) (data_lines-rest p ls)
]

-- The line that is written is read as its payload.
read_data-new :
    (p : Text)
    → lacks carriage_return p ≡ true
    → trim_space p ≡ p
    → read_data (trimmed (codes "data: " ++ p)) ≡ some p
unfolding lacks has_prefix drop
read_data-new p no_cr bare =
    rw (trim_right_byte-none carriage_return (codes "data: " ++ p) no_cr) (ap some bare)

data_lines-replaced :
    (p : Text) (ls : List Text)
    → lacks carriage_return p ≡ true
    → trim_space p ≡ p
    → any is_data ls ≡ true
    → data_lines (replace_lines p false ls) ≡ p ∷ []
unfolding data_lines replace_lines
data_lines-replaced p [] no_cr bare some_data = cc
data_lines-replaced p (l ∷ ls) no_cr bare some_data = elim (Bool-cases (is_data l)) [
  | inl e ↦ rw (e, read_data-new p no_cr bare, data_lines-rest p ls)
  | inr e ↦ rw (e, not_data l e) (data_lines-replaced p ls no_cr bare (rw e at some_data))
]

replace_lines-lacks :
    (p : Text) (replaced : Bool) (ls : List Text)
    → lacks newline p ≡ true
    → all (lacks newline) ls ≡ true
    → all (lacks newline) (replace_lines p replaced ls) ≡ true
unfolding replace_lines lacks
replace_lines-lacks p replaced [] no_nl clean = refl
replace_lines-lacks p replaced (l ∷ ls) no_nl clean =
    let rest : all (lacks newline) ls ≡ true = ground arith in
    let here : lacks newline (trimmed l) ≡ true =
      trim_right_byte-lacks newline carriage_return l (ground arith) in
    elim (Bool-cases (is_data l)) [
      | inl e ↦ rw e (written replaced (replace_lines-lacks p true ls no_nl rest))
      | inr e ↦ rw (e, here) (replace_lines-lacks p replaced ls no_nl rest)
    ]
  where
    written :
        (b : Bool)
        → all (lacks newline) (replace_lines p true ls) ≡ true
        → all
            (lacks newline)
            (if b then replace_lines p true ls else (codes "data: " ++ p) ∷ replace_lines p true ls)
          ≡ true
    written true h = h
    written false h = rw (no_nl, h)

-- The bytes that end a line do not matter to the reader.
data_lines-end_lines :
    (cr : Text) (ls : List Text)
    → ((s : Text) → trimmed (s ++ cr) ≡ trimmed s)
    → data_lines (end_lines cr ls) ≡ data_lines ls
unfolding data_lines end_lines
data_lines-end_lines cr [] same = refl
data_lines-end_lines cr (s ∷ []) same = refl
data_lines-end_lines cr (s ∷ t ∷ ts) same = rw (same s, data_lines-end_lines cr (t ∷ ts) same)

read_joined :
    (cr p : Text) (ls : List Text)
    → lacks newline cr ≡ true
    → ((s : Text) → trimmed (s ++ cr) ≡ trimmed s)
    → all (lacks newline) ls ≡ true
    → data_lines ls ≡ p ∷ []
    → event_payload (join (cr ++ (newline ∷ [])) ls) ≡ p
unfolding event_payload data_lines join
read_joined cr p [] no_nl same clean found = cc
read_joined cr p (l ∷ ls) no_nl same clean found =
    let read : data_lines (split_byte newline (join (cr ++ (newline ∷ [])) (l ∷ ls))) ≡ p ∷ [] =
      ap data_lines (split_byte-join newline cr l ls no_nl clean)
      ∙ data_lines-end_lines cr (l ∷ ls) same
      ∙ found in
    ap (join (newline ∷ [])) read

-- One line that neither starts nor ends in white space.
abbrev pub OneLine : Text → Type 0
OneLine p = (lacks newline p ≡ true) × (lacks carriage_return p ≡ true) × (trim_space p ≡ p)

-- After replaceSSEData, whichever line ends the event has, the data of the event is the new payload, if the
-- event had a data line and the payload is one line without white space around it.
pub event_payload-replace_sse_data :
    (raw p : Text)
    → OneLine p
    → any is_data (split_byte newline raw) ≡ true
    → event_payload (replace_sse_data raw p) ≡ p
unfolding replace_sse_data lacks
event_payload-replace_sse_data raw p (no_nl, no_cr, bare) some_data =
    let ls = replace_lines p false (split_byte newline raw) in
    let clean : all (lacks newline) ls ≡ true =
      replace_lines-lacks p false (split_byte newline raw) no_nl (split_byte-lacks newline raw) in
    let found : data_lines ls ≡ p ∷ [] =
      data_lines-replaced p (split_byte newline raw) no_cr bare some_data in
    elim (Bool-cases (contains raw (carriage_return ∷ newline ∷ []))) [
      | inl e ↦ rw e (
          read_joined (carriage_return ∷ []) p ls cr_only (trim_right_byte-append carriage_return)
            clean found)
      | inr e ↦ rw e (read_joined [] p ls no_bytes (λ s. ap trimmed (append-nil s)) clean found)
    ]
  where
    cr_only : lacks newline (carriage_return ∷ []) ≡ true
    cr_only = refl

    no_bytes : lacks newline [] ≡ true
    no_bytes = refl

data_lines-none : (ls : List Text) → any is_data ls ≡ false → data_lines ls ≡ []
unfolding data_lines
data_lines-none [] e = refl
data_lines-none (l ∷ ls) e =
    let here : is_data l ≡ false = ground arith in
    let rest : any is_data ls ≡ false = ground arith in
    rw (read_data-none (trimmed l) here) (data_lines-none ls rest)

has_data :
    (raw : Text)
    → is_blank (event_payload raw) ≡ false
    → any is_data (split_byte newline raw) ≡ true
unfolding event_payload join
has_data raw h = elim (Bool-cases (any is_data (split_byte newline raw))) [
  | inl e ↦ e
  | inr e ↦ cc (rw (data_lines-none (split_byte newline raw) e) at h)
]

not_blank : (raw : Text) → is_blank (event_payload raw) ≡ false → is_blank raw ≡ false
unfolding event_payload data_lines split_byte trim_right_byte join has_prefix
not_blank [] h = h
not_blank (c ∷ raw) h = refl

-- The edit of DecloakSSEEvent, for a format.
abbrev pub event_edit : List Text → Text → Fields → Fields × Bool
event_edit offered api_format =
    if is_messages api_format then edit_messages_event offered else edit_chat_event offered

-- With tools offered, when the payload of an event is not empty nor the end mark of the stream, decodes, and
-- has a name to change, the data of the event that DecloakSSEEvent returns is what the encoder writes for the
-- edited payload, if that is one line without white space around it.
pub decloak_sse_event-payload :
    (offered : List Text) (codec : JsonCodec) (api_format raw : Text) (fs : Fields) (u : Text)
    → nothing_offered offered ≡ false
    → is_blank (event_payload raw) ≡ false
    → text_eq (event_payload raw) (codes "[DONE]") ≡ false
    → codec.decode (event_payload raw) ≡ some fs
    → (event_edit offered api_format fs).1 ≡ true
    → codec.encode (event_edit offered api_format fs).0 ≡ some u
    → OneLine u
    → event_payload (decloak_sse_event offered codec api_format raw (event_payload raw)) ≡ u
unfolding decloak_sse_event
decloak_sse_event-payload offered codec api_format raw fs u some_tool some_payload more read changed
      written line =
    rw (some_tool, not_blank raw some_payload, some_payload, some_payload, more, read)
      (ap event_payload (used (event_edit offered api_format fs) changed written)
        ∙ event_payload-replace_sse_data raw u line (has_data raw some_payload))
  where
    used :
        (q : Fields × Bool)
        → q.1 ≡ true
        → codec.encode q.0 ≡ some u
        → rewritten codec raw (replace_sse_data raw) q ≡ replace_sse_data raw u
    used (gs, false) b e = cc
    used (gs, true) b e = rw e
