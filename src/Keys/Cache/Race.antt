-- ===== src/Keys/Cache/Race.antt =====
-- `ValidateClientKey` reads the row and stores its entry in two steps, with no lock held in between.
use nineguard.Base.{◌≡◌, refl, sym, ap, subst, ◌∙◌, Option, none, some, true, false}
use nineguard.Base.Text.{Text, text_eq_refl, is_blank}
use nineguard.Quota.{Location}
use nineguard.Keys.Schedule.{Codec}
use nineguard.Keys.Lists.{ListCodec}
use nineguard.Keys.Lists.Mask.{bare_key}
use nineguard.Keys.Cache.{
  ApiKeyRow, ClientKey, KeyStore, Sql, find_key, delete_id, read_entry, validate_read,
  validate_store, validate_client_key,
}
use nineguard.Keys.Cache.Operations.{delete_key}
use nineguard.Keys.Cache.Table.{DistinctKeys, survivor}
use nineguard.Keys.Cache.Deleted.{find_key-delete}

module _ (zones : Text → Option Location) (codec : Codec) (lists : ListCodec) where
  -- The row of the key is read, the key with the id is deleted, and then the entry is stored.
  unfoldable pub read_delete_store : Sql → KeyStore → Text → Text → KeyStore
  read_delete_store sql st key id =
      (validate_store key (validate_read zones codec lists sql st key) (delete_key sql st id).0).0

  read_row :
      (sql : Sql) (st : KeyStore) (r : ApiKeyRow)
      → sql.reads ≡ true
      → find_key r.key st.rows ≡ some r
      → validate_read zones codec lists sql st r.key
        ≡ some (read_entry zones codec lists st.global r)
  unfolding validate_read
  read_row sql st r reads found = simp (reads, found)

  delete_key-rows :
      (sql : Sql) (st : KeyStore) (id : Text)
      → sql.writes ≡ true
      → (delete_key sql st id).0.rows ≡ delete_id id st.rows
  unfolding delete_key
  delete_key-rows sql st id writes = simp writes

  -- A stored entry answers the next call with its key.
  stored_answer :
      (sql : Sql) (st : KeyStore) (k : Text) (e : ClientKey)
      → e.is_active ≡ true
      → bare_key k ≡ k
      → is_blank k ≡ false
      → validate_client_key zones codec lists sql (validate_store k (some e) st).0 k
        ≡ ((validate_store k (some e) st).0, some e)
  unfolding validate_client_key validate_store
  stored_answer sql st k e active bare key = simp (bare, key, text_eq_refl k, active)

  -- In a table with distinct keys, for an active row whose key is not empty and is what `bare_key` leaves of it, with SQL that
  -- succeeds: when the read of the row falls before the deletion of the key and the store of its entry after it, the table has no
  -- row with the key, and the next call with it still accepts the key and leaves the store as it is.
  pub validate_client_key-read_delete_store :
      (sql : Sql) (st : KeyStore) (r : ApiKeyRow)
      → sql.reads ≡ true
      → sql.writes ≡ true
      → DistinctKeys st.rows
      → find_key r.key st.rows ≡ some r
      → r.is_active ≡ true
      → bare_key r.key ≡ r.key
      → is_blank r.key ≡ false
      → let st' = read_delete_store sql st r.key r.id in
        (find_key r.key st'.rows ≡ none)
        × (validate_client_key zones codec lists sql st' r.key
            ≡ (st', some (read_entry zones codec lists st.global r)))
  unfolding read_delete_store validate_store read_entry
  validate_client_key-read_delete_store sql st r reads writes d found active bare key =
      subst
        (λ (o : Option ClientKey).
          let st' = (validate_store r.key o deleted).0 in
          (find_key r.key st'.rows ≡ none)
          × (validate_client_key zones codec lists sql st' r.key ≡ (st', some entry)))
        (sym (read_row sql st r reads found))
        (gone, stored_answer sql deleted r.key entry active bare key)
    where
      entry : ClientKey
      entry = read_entry zones codec lists st.global r

      deleted : KeyStore
      deleted = (delete_key sql st r.id).0

      gone : find_key r.key deleted.rows ≡ none
      gone =
          ap (find_key r.key) (delete_key-rows sql st r.id writes)
          ∙ (find_key-delete r.key r.id st.rows d
              ∙ (ap (survivor r.id) found ∙ rw (text_eq_refl r.id) refl))
