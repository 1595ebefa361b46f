-- ===== src/Proxy/Decloak/Settled.antt =====
-- A body whose tool names were cleaned stays as it is.
use nineguard.Base.{◌≡◌, refl, ap, inl, inr, List, none, Bool, true, false, ◌||◌, Bool-cases}
use nineguard.Base.Text.{Text, codes, text_eq, text_eq_refl, is_blank}
use nineguard.Proxy.Json.{
  Json, null, boolean, number, string, array, object, Fields, get_field, string_of, is_object,
  on_field, on_object, on_elements, edit_if, no_edit,
}
use nineguard.Proxy.Json.Edits.{
  Settles, get-on_field, get-then_edit, on_field-Settles, on_object-Settles, on_elements-Settles,
  then_edit-Settles, edit_if-Settles, no_edit-Settles, is_object-on_field_self,
}
use nineguard.Proxy.Decloak.{
  offers, nothing_offered, strip_one, strip_loop, strip_cloak_suffix, decloak_name, rename_tool,
  rename_function, rename_tool_use, rename_calls, has_role, edit_messages_response,
  edit_chat_response, edit_messages_history, edit_chat_history,
}
use nineguard.Proxy.Decloak.Strip.{Bare-strip_one, none-offers, strip_cloak_suffix-Decloaks}

strip-offered :
    (offered : List Text) (r : Text) → offers offered r ≡ true → strip_cloak_suffix r offered ≡ r
unfolding strip_cloak_suffix
strip-offered offered r known = rw known

strip-bare :
    (offered : List Text) (r : Text)
    → nothing_offered offered ≡ true
    → strip_one r ≡ none
    → strip_cloak_suffix r offered ≡ r
unfolding strip_cloak_suffix strip_loop
strip-bare offered r e stop = rw (none-offers offered r e, stop, e)

strip_twice :
    (offered : List Text) (name : Text)
    → strip_cloak_suffix (strip_cloak_suffix name offered) offered ≡ strip_cloak_suffix name offered
strip_twice offered name =
    let r = strip_cloak_suffix name offered in
    let (ends, (cut, all, some_of)) = strip_cloak_suffix-Decloaks name offered in
    elim (Bool-cases (nothing_offered offered)) [
      | inl e ↦ strip-bare offered r e (Bare-strip_one r (all e))
      | inr e ↦ elim (some_of e) [
        | inl known ↦ strip-offered offered r known
        | inr (same, none_fits) ↦ ap (λ n. strip_cloak_suffix n offered) same
      ]
    ]

module _ (offered : List Text) where
  decloak_name-Settles : Settles (decloak_name offered)
  unfolding decloak_name
  decloak_name-Settles (string s) =
      let d = strip_cloak_suffix s offered in
      elim (Bool-cases (is_blank s || text_eq d s)) [
        | inl e ↦ rw (e, e)
        | inr e ↦ rw (e, strip_twice offered s, text_eq_refl d, end_of (is_blank d))
      ]
    where
      end_of : (b : Bool) → b || true ≡ true
      end_of true = refl
      end_of false = refl
  decloak_name-Settles null = refl
  decloak_name-Settles (boolean b) = refl
  decloak_name-Settles (number n) = refl
  decloak_name-Settles (array xs) = refl
  decloak_name-Settles (object fs) = refl

  rename_tool-Settles : Settles (rename_tool offered)
  rename_tool-Settles = on_field-Settles (codes "name") (decloak_name offered) decloak_name-Settles

  rename_function-Settles : Settles (rename_function offered)
  rename_function-Settles =
      on_field-Settles (codes "function") (on_object (rename_tool offered))
        (on_object-Settles (rename_tool offered) rename_tool-Settles)

  same_type :
      (fs : Fields)
      → get_field (codes "type") (rename_tool offered fs).0 ≡ get_field (codes "type") fs
  unfolding text_eq
  same_type fs = get-on_field (codes "type") (codes "name") (decloak_name offered) fs refl

  rename_tool_use-Settles : Settles (rename_tool_use offered)
  rename_tool_use-Settles =
      edit_if-Settles (λ fs. text_eq (string_of (get_field (codes "type") fs)) (codes "tool_use"))
        (rename_tool offered) no_edit
        (λ fs. ap (λ o. text_eq (string_of o) (codes "tool_use")) (same_type fs)) (λ fs. refl)
        rename_tool-Settles no_edit-Settles

  rename_calls-Settles : Settles (rename_calls offered)
  unfolding text_eq
  rename_calls-Settles =
      then_edit-Settles (codes "tool_calls") (codes "function_call")
        (on_elements (on_object (rename_function offered))) (on_object (rename_tool offered)) refl
        refl
        (on_elements-Settles (on_object (rename_function offered))
          (on_object-Settles (rename_function offered) rename_function-Settles))
        (on_object-Settles (rename_tool offered) rename_tool-Settles)

  objects-Settles : (f : Fields → Fields × Bool) → Settles f → Settles (on_elements (on_object f))
  objects-Settles f s = on_elements-Settles (on_object f) (on_object-Settles f s)

  pub edit_messages_response-Settles : Settles (edit_messages_response offered)
  unfolding edit_messages_response
  edit_messages_response-Settles =
      on_field-Settles (codes "content") (on_elements (on_object (rename_tool_use offered)))
        (objects-Settles (rename_tool_use offered) rename_tool_use-Settles)

  pub edit_chat_response-Settles : Settles (edit_chat_response offered)
  unfolding edit_chat_response
  edit_chat_response-Settles =
      on_field-Settles (codes "choices")
        (on_elements (on_object (on_field (codes "message") (on_object (rename_calls offered)))))
        (objects-Settles (on_field (codes "message") (on_object (rename_calls offered))) (
          on_field-Settles (codes "message") (on_object (rename_calls offered))
            (on_object-Settles (rename_calls offered) rename_calls-Settles)))

  same_role :
      (role key : Text) (f : Json → Json × Bool) (fs : Fields)
      → text_eq (codes "role") key ≡ false
      → has_role role (on_field key f fs).0 ≡ has_role role fs
  same_role role key f fs ne =
      ap (λ o. text_eq (string_of o) role) (get-on_field (codes "role") key f fs ne)

  pub edit_messages_history-Settles : Settles (edit_messages_history offered)
  unfolding edit_messages_history text_eq
  edit_messages_history-Settles =
      let blocks = on_elements (on_object (rename_tool_use offered)) in
      let assistant =
        edit_if (has_role (codes "assistant")) (on_field (codes "content") blocks) no_edit in
      then_edit-Settles (codes "messages") (codes "tool_choice") (on_elements (on_object assistant))
        (on_object (rename_tool offered)) refl refl
        (objects-Settles assistant (
          edit_if-Settles (has_role (codes "assistant")) (on_field (codes "content") blocks) no_edit
            (λ fs. same_role (codes "assistant") (codes "content") blocks fs refl) (λ fs. refl)
            (on_field-Settles (codes "content") blocks
              (objects-Settles (rename_tool_use offered) rename_tool_use-Settles))
            no_edit-Settles))
        (on_object-Settles (rename_tool offered) rename_tool-Settles)

  same_role-calls :
      (role : Text) (fs : Fields) → has_role role (rename_calls offered fs).0 ≡ has_role role fs
  unfolding text_eq
  same_role-calls role fs =
      ap (λ o. text_eq (string_of o) role)
        (get-then_edit (codes "role") (codes "tool_calls") (codes "function_call")
          (on_elements (on_object (rename_function offered))) (on_object (rename_tool offered)) fs
          refl refl)

  abbrev rename_result : Fields → Fields × Bool
  rename_result = edit_if (has_role (codes "function")) (rename_tool offered) no_edit

  same_role-tool :
      (role : Text) (fs : Fields) → has_role role (rename_tool offered fs).0 ≡ has_role role fs
  unfolding text_eq
  same_role-tool role fs = same_role role (codes "name") (decloak_name offered) fs refl

  same_role-result :
      (role : Text) (fs : Fields) → has_role role (rename_result fs).0 ≡ has_role role fs
  unfolding edit_if
  same_role-result role fs = elim (Bool-cases (has_role (codes "function") fs)) [
    | inl e ↦ rw e (same_role-tool role fs)
    | inr e ↦ rw e
  ]

  message_history-Settles :
      Settles (edit_if (has_role (codes "assistant")) (rename_calls offered) rename_result)
  message_history-Settles =
      edit_if-Settles (has_role (codes "assistant")) (rename_calls offered) rename_result
        (same_role-calls (codes "assistant")) (same_role-result (codes "assistant"))
        rename_calls-Settles
        (edit_if-Settles (has_role (codes "function")) (rename_tool offered) no_edit
          (same_role-tool (codes "function")) (λ fs. refl) rename_tool-Settles no_edit-Settles)

  abbrev has_function : Fields → Bool
  has_function fs = is_object (get_field (codes "function") fs)

  tool_choice-Settles :
      Settles (edit_if has_function (rename_function offered) (rename_tool offered))
  unfolding text_eq
  tool_choice-Settles =
      edit_if-Settles has_function (rename_function offered) (rename_tool offered)
        (is_object-on_field_self (codes "function") (rename_tool offered))
        (λ fs.
          ap is_object
            (get-on_field (codes "function") (codes "name") (decloak_name offered) fs refl))
        rename_function-Settles rename_tool-Settles

  pub edit_chat_history-Settles : Settles (edit_chat_history offered)
  unfolding edit_chat_history text_eq
  edit_chat_history-Settles =
      let message = edit_if (has_role (codes "assistant")) (rename_calls offered) rename_result in
      let choice = edit_if has_function (rename_function offered) (rename_tool offered) in
      then_edit-Settles (codes "messages") (codes "tool_choice") (on_elements (on_object message))
        (on_object choice) refl refl (objects-Settles message message_history-Settles)
        (on_object-Settles choice tool_choice-Settles)
