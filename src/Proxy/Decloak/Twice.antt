-- ===== src/Proxy/Decloak/Twice.antt =====
-- A body that was cleaned stays as it is: the guards and the JSON around the edits.
use nineguard.Base.{
  ◌≡◌, refl, sym, ap, ◌∙◌, ◌⊎◌, inl, inr, List, some, Bool, true, false, ◌||◌, if◌then◌else◌,
  Bool-cases, Option-cases,
}
use nineguard.Base.Text.{Text, is_blank}
use nineguard.Proxy.Json.{Fields, JsonCodec}
use nineguard.Proxy.Json.Edits.{Settles}
use nineguard.Proxy.Decloak.{
  nothing_offered, edit_messages_response, edit_chat_response, edit_messages_history,
  edit_chat_history, rewritten, edit_decoded, is_messages, decloak_response_body,
  clean_request_tool_history,
}
use nineguard.Proxy.Decloak.Settled.{
  edit_messages_response-Settles, edit_chat_response-Settles, edit_messages_history-Settles,
  edit_chat_history-Settles,
}

-- What the encoder writes for the fields is read back.
abbrev pub ReadsBack : JsonCodec → Fields → Type 0
ReadsBack codec fs = (t : Text) → codec.encode fs ≡ some t → codec.decode t ≡ some fs

rewritten-same :
    (codec : JsonCodec) (t : Text) (p : Fields × Bool)
    → p.1 ≡ false
    → rewritten codec t (λ text. text) p ≡ t
rewritten-same codec t (fs, false) e = refl
rewritten-same codec t (fs, true) e = cc

rewritten-cases :
    (codec : JsonCodec) (t : Text) (p : Fields × Bool)
    → (rewritten codec t (λ text. text) p ≡ t)
      ⊎ ((u : Text) × (codec.encode p.0 ≡ some u) × (rewritten codec t (λ text. text) p ≡ u))
rewritten-cases codec t (fs, false) = inl refl
rewritten-cases codec t (fs, true) = elim (Option-cases (codec.encode fs)) [
  | inl e ↦ inl (rw e)
  | inr (u, e) ↦ inr (u, e, rw e)
]

edit_decoded-settled :
    (codec : JsonCodec) (edit : Fields → Fields × Bool) (fs : Fields) (t : Text)
    → Settles edit
    → codec.decode t ≡ some (edit fs).0
    → edit_decoded codec t (λ text. text) edit (codec.decode t) ≡ t
edit_decoded-settled codec edit fs t s e = rw e (rewritten-same codec t (edit (edit fs).0) (s fs))

-- An edited body, edited again.
abbrev edit_body : JsonCodec → (Fields → Fields × Bool) → Text → Text
edit_body codec edit body = edit_decoded codec body (λ text. text) edit (codec.decode body)

edit_body-twice :
    (codec : JsonCodec) (edit : Fields → Fields × Bool) (body : Text)
    → Settles edit
    → ((fs : Fields) → codec.decode body ≡ some fs → ReadsBack codec (edit fs).0)
    → edit_body codec edit (edit_body codec edit body) ≡ edit_body codec edit body
edit_body-twice codec edit body s back = elim (Option-cases (codec.decode body)) [
  | inl e ↦ rw (e, e)
  | inr (fs, e) ↦
      let once : edit_body codec edit body ≡ rewritten codec body (λ text. text) (edit fs) = rw e in
      elim (rewritten-cases codec body (edit fs)) [
        | inl same ↦ ap (edit_body codec edit) (once ∙ same)
        | inr (u, written, new) ↦
            ap (edit_body codec edit) (once ∙ new)
            ∙ edit_decoded-settled codec edit fs u s (back fs e u written)
            ∙ sym (once ∙ new)
      ]
]

-- The edit of DecloakResponseBody and that of CleanRequestToolHistory, for a format.
abbrev pub response_edit : List Text → Text → Fields → Fields × Bool
response_edit offered api_format =
    if is_messages api_format then edit_messages_response offered else edit_chat_response offered

abbrev pub history_edit : List Text → Text → Fields → Fields × Bool
history_edit offered api_format =
    if is_messages api_format then edit_messages_history offered else edit_chat_history offered

either-Settles :
    (b : Bool) (f g : Fields → Fields × Bool) → Settles f → Settles g → Settles (if b then f else g)
either-Settles true f g s t = s
either-Settles false f g s t = t

-- A body that is empty is not edited; neither is any without offered tools.
guarded_twice :
    (skip : Text → Bool) (f : Text → Text) (body : Text)
    → f (f body) ≡ f body
    → let once = if skip body then body else f body in (if skip once then once else f once) ≡ once
guarded_twice skip f body twice = elim (Bool-cases (skip body)) [
  | inl e ↦ rw (e, e)
  | inr e ↦ elim (Bool-cases (skip (f body))) [ inl d ↦ rw (e, d) | inr d ↦ rw (e, d) twice ]
]

-- DecloakResponseBody does nothing to a body that it returned, if the encoder's output for the edited
-- fields is decoded to those fields.
decloak_response_body-twice :
    (offered : List Text) (codec : JsonCodec) (api_format body : Text)
    → ((fs : Fields)
        → codec.decode body ≡ some fs
        → ReadsBack codec (response_edit offered api_format fs).0)
    → decloak_response_body offered codec api_format
        (decloak_response_body offered codec api_format body)
      ≡ decloak_response_body offered codec api_format body
unfolding decloak_response_body
decloak_response_body-twice offered codec api_format body back =
    let edit = response_edit offered api_format in
    guarded_twice (λ t. is_blank t || nothing_offered offered) (edit_body codec edit) body
      (edit_body-twice codec edit body
        (either-Settles (is_messages api_format) (edit_messages_response offered)
          (edit_chat_response offered) (edit_messages_response-Settles offered)
          (edit_chat_response-Settles offered))
        back)

-- CleanRequestToolHistory does nothing to a request that it returned, if the encoder's output for the
-- edited fields is decoded to those fields.
pub clean_request_tool_history-twice :
    (offered : List Text) (codec : JsonCodec) (api_format body : Text)
    → ((fs : Fields)
        → codec.decode body ≡ some fs
        → ReadsBack codec (history_edit offered api_format fs).0)
    → clean_request_tool_history offered codec api_format
        (clean_request_tool_history offered codec api_format body)
      ≡ clean_request_tool_history offered codec api_format body
unfolding clean_request_tool_history
clean_request_tool_history-twice offered codec api_format body back =
    let edit = history_edit offered api_format in
    guarded_twice (λ t. is_blank t || nothing_offered offered) (edit_body codec edit) body
      (edit_body-twice codec edit body
        (either-Settles (is_messages api_format) (edit_messages_history offered)
          (edit_chat_history offered) (edit_messages_history-Settles offered)
          (edit_chat_history-Settles offered))
        back)
