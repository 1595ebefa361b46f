-- ===== src/Keys/Cache/Sound/Creation.antt =====
-- `CreateKeyWithOptions` keeps the invariant of the cache.
use nineguard.Base.{
  ◌≡◌, refl, sym, ap, subst, ◌∙◌, inl, inr, List, [], ◌∷◌, ◌++◌, Option, none, some, true, false,
  insert, Bool-cases,
}
use nineguard.Base.Text.{Text, text_eq, text_eq→eq, text_eq_refl, is_blank}
use nineguard.Quota.{Location}
use nineguard.Keys.Schedule.{Codec}
use nineguard.Keys.Lists.{ListCodec}
use nineguard.Keys.Cache.{ApiKeyRow, ClientKey, KeyStore, Sql, find_key, find_id, read_entry}
use nineguard.Keys.Cache.Operations.{
  new_row, new_entry, create_row, create_with, create_key_with_options,
}
use nineguard.Keys.Cache.Options.{CreateKeyOptions, normalize_quota_mode}
use nineguard.Keys.Cache.Table.{or_new, find_key-append, append-DistinctKeys, append-DistinctIds}
use nineguard.Keys.Cache.Sound.{
  KeyPolicy, policy, policy_of, derive_access_mode-nonblank, policy_of_row, served, IsSound,
  mode_of_same,
}

abbrev pub FreshToken : List ApiKeyRow → Option Text → Type 0
FreshToken rows none = Unit {0}
FreshToken rows (some key) = find_key key rows ≡ none

module _ (zones : Text → Option Location) (codec : Codec) (lists : ListCodec) where
  module _ (sql : Sql) (st : KeyStore) (sound : IsSound zones codec lists st) where
    new_entry-policy :
        (r : ApiKeyRow) (opts : CreateKeyOptions)
        → r.is_active ≡ true
        → policy (new_entry zones codec lists st.global r opts)
          ≡ policy (read_entry zones codec lists none r)
    unfolding new_entry read_entry policy
    new_entry-policy r opts active = rw active refl

    created-IsSound :
        (r : ApiKeyRow) (opts : CreateKeyOptions)
        → find_key r.key st.rows ≡ none
        → is_blank r.mode ≡ false
        → r.is_active ≡ true
        → IsSound zones codec lists (create_row zones codec lists sql st r opts).0
    unfolding create_row find_key
    created-IsSound r opts fresh moded active = elim (Bool-cases sql.writes) [
      | inr w ↦ rw w sound
      | inl w ↦ go w (find_id r.id st.rows) refl
    ]
      where
        entry : ClientKey
        entry = new_entry zones codec lists st.global r opts

        at :
            (k : Text)
            → find_key k (st.rows ++ (r ∷ [])) ≡ or_new (find_key k st.rows) (find_key k (r ∷ []))
        at k = find_key-append k st.rows (r ∷ [])

        kept :
            (k : Text) (o n : Option ApiKeyRow) (p : KeyPolicy)
            → policy_of_row zones codec lists o ≡ some p
            → policy_of_row zones codec lists (or_new o n) ≡ some p
        kept k none n p h = absurd cc
        kept k (some x) n p h = h

        mode_of :
            (k : Text) (o : Option ApiKeyRow) (x : ApiKeyRow)
            → find_key k st.rows ≡ o
            → or_new o (find_key k (r ∷ [])) ≡ some x
            → is_blank x.mode ≡ false
        mode_of k (some y) x e h = mode_of_same y x h (sound.modes k y e)
        mode_of k none x e h = elim (Bool-cases (text_eq k r.key)) [
          | inl i ↦ let h' : some r ≡ some x = rw i at h in mode_of_same r x h' moded
          | inr i ↦ let h' : none ≡ some x = rw i at h in absurd (cc)
        ]

        found_new : served zones codec lists (st.rows ++ (r ∷ [])) r.key ≡ some (policy entry)
        found_new =
            ap (policy_of_row zones codec lists) (at r.key)
            ∙ rw (fresh, text_eq_refl r.key) (ap some (sym (new_entry-policy r opts active)))

        live_after :
            (k : Text) (e : ClientKey)
            → is_blank k ≡ false
            → insert r.key entry st.cache k ≡ some e
            → served zones codec lists (st.rows ++ (r ∷ [])) k ≡ some (policy e)
        live_after k e nb h = elim (Bool-cases (text_eq k r.key)) [
          | inl i ↦
              let h' : some entry ≡ some e = rw i at h in
              subst (λ y. served zones codec lists (st.rows ++ (r ∷ [])) y ≡ some (policy e))
                (sym (text_eq→eq k r.key i)) (found_new ∙ ap policy_of h')
          | inr i ↦
              let h' : st.cache k ≡ some e = rw i at h in
              ap (policy_of_row zones codec lists) (at k)
              ∙ kept k (find_key k st.rows) (find_key k (r ∷ [])) (policy e) (sound.live k e nb h')
        ]

        go :
            sql.writes ≡ true
            → (o : Option ApiKeyRow) → find_id r.id st.rows ≡ o
            → IsSound zones codec lists (create_row zones codec lists sql st r opts).0
        go w (some x) e = rw (w, e) sound
        go w none e =
            rw (w, e)
              (record {
                keys = append-DistinctKeys r st.rows fresh sound.keys;
                ids = append-DistinctIds r st.rows e sound.ids;
                modes = λ k x h. mode_of k (find_key k st.rows) x refl (sym (at k) ∙ h);
                live = live_after;
              })

    pub create_key_with_options-IsSound :
        (token : Option Text) (id name : Text) (opts : CreateKeyOptions)
        → FreshToken st.rows token
        → IsSound zones codec lists
            (create_key_with_options zones codec lists sql st token id name opts).0
    unfolding create_key_with_options new_row
    create_key_with_options-IsSound token id name opts fresh =
        by_token token (normalize_quota_mode opts.quota_mode) fresh
      where
        by_token :
            (token mode : Option Text)
            → FreshToken st.rows token
            → IsSound zones codec lists
                (create_with zones codec lists sql st id name opts token mode).0
        by_token none mode fresh = sound
        by_token (some key) none fresh = sound
        by_token (some key) (some mode) fresh =
            created-IsSound (new_row zones codec lists id key name mode opts) opts fresh
              (derive_access_mode-nonblank opts.mode opts.groups opts.models) refl
