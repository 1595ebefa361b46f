-- ===== src/Keys/Cache/Sound/Updates.antt =====
-- The operations that change a row keep the invariant of the cache.
use nineguard.Base.{
  ◌≡◌, refl, sym, ◌∙◌, inl, inr, ℕ, ℤ, List, Option, none, some, Bool, true, false, Bool-cases,
}
use nineguard.Base.Text.{Text, text_eq, trim_space, is_blank}
use nineguard.Quota.{Location}
use nineguard.Keys.Schedule.{Codec, has_value}
use nineguard.Keys.Lists.{ListCodec}
use nineguard.Keys.Cache.{ApiKeyRow, KeyStore, Sql, find_key, find_id, update_id, load_local_cache}
use nineguard.Keys.Cache.Operations.{
  update_row, update_key, update_key_quota, write_update, with_quota_mode, with_normal_mode,
  update_key_all, toggle_key,
}
use nineguard.Keys.Cache.Options.{KeyUpdate, normalize_quota_mode}
use nineguard.Keys.Cache.Table.{
  KeepsKeys, updated, find_key-update, update-DistinctKeys, update-DistinctIds,
}
use nineguard.Keys.Cache.Sound.{
  derive_access_mode-nonblank, Moded, IsSound, load-IsSound, mode_of_same,
}

module _ (zones : Text → Option Location) (codec : Codec) (lists : ListCodec) where
  -- A statement that keeps the key and the id of a row, and gives it a mode when it had one.
  pub record Admissible (f : ApiKeyRow → ApiKeyRow) : Type 0 where
    pub identity : KeepsKeys f
    pub mode_kept : (r : ApiKeyRow) → is_blank r.mode ≡ false → is_blank (f r).mode ≡ false

  module _ (sql : Sql) (st : KeyStore) (sound : IsSound zones codec lists st) where
    updated-IsSound :
        (id : Text) (f : ApiKeyRow → ApiKeyRow)
        → Admissible f
        → sql.reloads ≡ true
        → IsSound zones codec lists
            (load_local_cache zones codec lists sql (record st { rows = update_id id f st.rows }))
    updated-IsSound id f ok reloads =
        load-IsSound zones codec lists sql st (update_id id f st.rows) reloads
          (update-DistinctKeys id f ok.identity st.rows sound.keys)
          (update-DistinctIds id f ok.identity st.rows sound.ids) moded kept sound
      where
        after : (k : Text) → find_key k (update_id id f st.rows) ≡ updated id f (find_key k st.rows)
        after k = find_key-update id f ok.identity k st.rows

        mode_of :
            (k : Text) (o : Option ApiKeyRow) (r : ApiKeyRow)
            → find_key k st.rows ≡ o
            → updated id f o ≡ some r
            → is_blank r.mode ≡ false
        mode_of k none r e h = cc
        mode_of k (some x) r e h = elim (Bool-cases (text_eq id x.id)) [
          | inl i ↦
              let h' : some (f x) ≡ some r = rw i at h in
              mode_of_same (f x) r h' (ok.mode_kept x (sound.modes k x e))
          | inr i ↦ let h' : some x ≡ some r = rw i at h in mode_of_same x r h' (sound.modes k x e)
        ]

        moded : Moded zones codec lists (update_id id f st.rows)
        moded k r h = mode_of k (find_key k st.rows) r refl (sym (after k) ∙ h)

        emptied : (o : Option ApiKeyRow) → updated id f o ≡ none → o ≡ none
        emptied none h = refl
        emptied (some x) h = absurd cc

        kept : (k : Text) → find_key k (update_id id f st.rows) ≡ none → find_key k st.rows ≡ none
        kept k h = emptied (find_key k st.rows) (sym (after k) ∙ h)

    pub update_row-IsSound :
        (id : Text) (f : ApiKeyRow → ApiKeyRow)
        → Admissible f
        → sql.reloads ≡ true
        → IsSound zones codec lists (update_row zones codec lists sql st id f).0
    unfolding update_row load_local_cache
    update_row-IsSound id f ok reloads = elim (Bool-cases sql.writes) [
      | inr w ↦ rw w sound
      | inl w ↦ elim (Bool-cases (has_value (find_id id st.rows))) [
        | inr h ↦ rw (w, h) sound
        | inl h ↦ rw (w, h) (updated-IsSound id f ok reloads)
      ]
    ]

    pub update_key-IsSound :
        (id name mode : Text) (groups models : List Text)
        → sql.reloads ≡ true
        → IsSound zones codec lists
            (update_key zones codec lists sql st id name mode groups models).0
    unfolding update_key
    update_key-IsSound id name mode groups models reloads =
        elim (Bool-cases (is_blank (trim_space name))) [
          | inl b ↦ rw b sound
          | inr b ↦ rw b (
              update_row-IsSound id _
                (record {
                  identity = record { same_key = λ r. refl; same_id = λ r. refl };
                  mode_kept = λ r h. derive_access_mode-nonblank mode groups models;
                })
                reloads)
        ]

    pub update_key_quota-IsSound :
        (id : Text) (limit : ℤ) (period : Text)
        → sql.reloads ≡ true
        → IsSound zones codec lists (update_key_quota zones codec lists sql st id limit period).0
    unfolding update_key_quota
    update_key_quota-IsSound id limit period reloads =
        update_row-IsSound id _
          (record {
            identity = record { same_key = λ r. refl; same_id = λ r. refl };
            mode_kept = λ r h. h;
          })
          reloads

    write_update-Admissible :
        (now : ℕ) (u : KeyUpdate) (mode : Option Text)
        → Admissible (write_update zones codec lists st.global now u mode)
    unfolding write_update
    write_update-Admissible now u mode = record {
      identity = record { same_key = λ r. refl; same_id = λ r. refl };
      mode_kept = λ r h. derive_access_mode-nonblank u.mode u.groups u.models;
    }

    pub update_key_all-IsSound :
        (id : Text) (now : ℕ) (u : KeyUpdate)
        → sql.reloads ≡ true
        → IsSound zones codec lists (update_key_all zones codec lists sql st id now u).0
    unfolding update_key_all
    update_key_all-IsSound id now u reloads = elim (Bool-cases (is_blank (trim_space u.name))) [
      | inl b ↦ rw b sound
      | inr b ↦ rw b (by_mode u.quota_mode)
    ]
      where
        normal :
            (mode : Option Text)
            → IsSound zones codec lists (with_normal_mode zones codec lists sql st id now u mode).0
        normal none = sound
        normal (some mode) =
            update_row-IsSound id _ (write_update-Admissible now u (some mode)) reloads

        by_mode :
            (mode : Option Text)
            → IsSound zones codec lists (with_quota_mode zones codec lists sql st id now u mode).0
        by_mode none = update_row-IsSound id _ (write_update-Admissible now u none) reloads
        by_mode (some s) = normal (normalize_quota_mode s)

    pub toggle_key-IsSound :
        (id : Text) (active : Bool)
        → sql.reloads ≡ true
        → IsSound zones codec lists (toggle_key zones codec lists sql st id active).0
    unfolding toggle_key load_local_cache
    toggle_key-IsSound id active reloads = elim (Bool-cases sql.writes) [
      | inr w ↦ rw w sound
      | inl w ↦ rw w (
          updated-IsSound id _
            (record {
              identity = record { same_key = λ r. refl; same_id = λ r. refl };
              mode_kept = λ r h. h;
            })
            reloads)
    ]
