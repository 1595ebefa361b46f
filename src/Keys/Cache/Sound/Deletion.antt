-- ===== src/Keys/Cache/Sound/Deletion.antt =====
-- `DeleteKey` and `ValidateClientKey` keep the invariant of the cache.
use nineguard.Base.{
  ◌≡◌, refl, sym, ap, ◌∙◌, inl, inr, Option, none, some, true, false, delete, Bool-cases,
}
use nineguard.Base.Text.{Text, text_eq, text_eq→eq, text_eq_refl, is_blank}
use nineguard.Quota.{Location, ResetSchedule}
use nineguard.Keys.Schedule.{Codec}
use nineguard.Keys.Lists.{ListCodec}
use nineguard.Keys.Lists.Mask.{bare_key}
use nineguard.Keys.Cache.{
  ApiKeyRow, ClientKey, KeyStore, Sql, find_key, find_id, row_entry, delete_id, read_entry,
  validate_read, validate_store, cached_or_read, validate_client_key,
}
use nineguard.Keys.Cache.Operations.{raw_key_of, delete_key}
use nineguard.Keys.Cache.Table.{survivor}
use nineguard.Keys.Cache.Deleted.{
  find_key-delete, delete-DistinctKeys, delete-DistinctIds, found-key, find_id-found,
}
use nineguard.Keys.Cache.Sound.{policy, policy_of, policy_of_row, served, IsSound, mode_of_same}

module _ (zones : Text → Option Location) (codec : Codec) (lists : ListCodec) where
  pub read_entry-policy :
      (global : Option ResetSchedule) (r : ApiKeyRow)
      → policy_of_row zones codec lists (some r)
        ≡ policy_of (some (read_entry zones codec lists global r))
  unfolding read_entry policy
  read_entry-policy global r = refl

  module _ (sql : Sql) (st : KeyStore) (sound : IsSound zones codec lists st) where
    pub delete_key-IsSound :
        (id : Text) → sql.reads ≡ true → IsSound zones codec lists (delete_key sql st id).0
    unfolding delete_key
    delete_key-IsSound id reads = elim (Bool-cases sql.writes) [
      | inr w ↦ rw w sound
      | inl w ↦
          rw (w, reads)
            (record {
              keys = delete-DistinctKeys id st.rows sound.keys;
              ids = delete-DistinctIds id st.rows sound.ids;
              modes = λ k r h. mode_of k (find_key k st.rows) r refl (sym (at k) ∙ h);
              live = λ k e nb h. elim (Bool-cases (is_blank raw)) [
                | inl b ↦ survives k e nb (rw b at h) (λ r f. unread k r nb f b)
                | inr b ↦ cleared k e nb (rw b at h)
              ];
            })
    ]
      where
        raw : Text
        raw = raw_key_of (find_id id st.rows)

        at : (k : Text) → find_key k (delete_id id st.rows) ≡ survivor id (find_key k st.rows)
        at k = find_key-delete k id st.rows sound.keys

        mode_of :
            (k : Text) (o : Option ApiKeyRow) (r : ApiKeyRow)
            → find_key k st.rows ≡ o
            → survivor id o ≡ some r
            → is_blank r.mode ≡ false
        mode_of k none r e h = absurd cc
        mode_of k (some x) r e h = elim (Bool-cases (text_eq id x.id)) [
          | inl i ↦ let h' : none ≡ some r = rw i at h in absurd (cc)
          | inr i ↦ let h' : some x ≡ some r = rw i at h in mode_of_same x r h' (sound.modes k x e)
        ]

        -- The key of the row with the id is the one that the query reads.
        read :
            (k : Text) (r : ApiKeyRow)
            → find_key k st.rows ≡ some r
            → text_eq id r.id ≡ true
            → raw ≡ k
        read k r f i =
            ap raw_key_of (find_id-found k id r st.rows sound.ids f i) ∙ found-key k r st.rows f

        survives :
            (k : Text) (e : ClientKey)
            → is_blank k ≡ false
            → st.cache k ≡ some e
            → ((r : ApiKeyRow) → find_key k st.rows ≡ some r → text_eq id r.id ≡ false)
            → served zones codec lists (delete_id id st.rows) k ≡ some (policy e)
        survives k e nb h other =
            ap (policy_of_row zones codec lists) (at k)
            ∙ go (find_key k st.rows) refl (sound.live k e nb h)
          where
            go :
                (o : Option ApiKeyRow)
                → find_key k st.rows ≡ o
                → policy_of_row zones codec lists o ≡ some (policy e)
                → policy_of_row zones codec lists (survivor id o) ≡ some (policy e)
            go none f p = p
            go (some r) f p = rw (other r f) p

        unread :
            (k : Text) (r : ApiKeyRow)
            → is_blank k ≡ false
            → find_key k st.rows ≡ some r
            → is_blank raw ≡ true
            → text_eq id r.id ≡ false
        unread k r nb f b = elim (Bool-cases (text_eq id r.id)) [
          | inl i ↦ absurd (cc (sym nb ∙ (ap is_blank (sym (read k r f i)) ∙ b)))
          | inr i ↦ i
        ]

        kept :
            (k : Text) (r : ApiKeyRow)
            → text_eq k raw ≡ false
            → find_key k st.rows ≡ some r
            → text_eq id r.id ≡ false
        kept k r ne f = elim (Bool-cases (text_eq id r.id)) [
          | inl i ↦ absurd (cc (sym (text_eq_refl k) ∙ (ap (text_eq k) (sym (read k r f i)) ∙ ne)))
          | inr i ↦ i
        ]

        cleared :
            (k : Text) (e : ClientKey)
            → is_blank k ≡ false
            → delete raw st.cache k ≡ some e
            → served zones codec lists (delete_id id st.rows) k ≡ some (policy e)
        cleared k e nb h = elim (Bool-cases (text_eq k raw)) [
          | inl i ↦ let h' : none ≡ some e = rw i at h in absurd (cc)
          | inr i ↦ survives k e nb (rw i at h) (λ r f. kept k r i f)
        ]

    -- A key that is not in the cache has the entry of its row stored.
    stored-IsSound :
        (k : Text)
        → IsSound zones codec lists
            (validate_store k (validate_read zones codec lists sql st k) st).0
    unfolding validate_store validate_read
    stored-IsSound k = elim (Bool-cases sql.reads) [
      | inr n ↦ rw n sound
      | inl y ↦ rw y (go (find_key k st.rows) refl)
    ]
      where
        go :
            (o : Option ApiKeyRow)
            → find_key k st.rows ≡ o
            → IsSound zones codec lists
                (validate_store k (row_entry zones codec lists st.global o) st).0
        go none f = sound
        go (some r) f = record {
          keys = sound.keys;
          ids = sound.ids;
          modes = sound.modes;
          live = λ j e nb h. elim (Bool-cases (text_eq j k)) [
            | inl i ↦
                let h' : some (read_entry zones codec lists st.global r) ≡ some e = rw i at h in
                ap (served zones codec lists st.rows) (text_eq→eq j k i)
                ∙ (ap (policy_of_row zones codec lists) f
                    ∙ (read_entry-policy st.global r ∙ ap policy_of h'))
            | inr i ↦ sound.live j e nb (rw i at h)
          ];
        }

    pub validate_client_key-IsSound :
        (raw : Text)
        → IsSound zones codec lists (validate_client_key zones codec lists sql st raw).0
    unfolding validate_client_key
    validate_client_key-IsSound raw = elim (Bool-cases (is_blank (bare_key raw))) [
      | inl b ↦ rw b sound
      | inr b ↦ rw b (go (st.cache (bare_key raw)))
    ]
      where
        go :
            (o : Option ClientKey)
            → IsSound zones codec lists (cached_or_read zones codec lists sql st (bare_key raw) o).0
        go (some e) = sound
        go none = stored-IsSound (bare_key raw)
