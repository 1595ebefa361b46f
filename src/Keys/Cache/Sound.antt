-- ===== src/Keys/Cache/Sound.antt =====
-- The cache of client keys serves what the table holds: the invariant, and the reload of the cache.
pub mod Updates
pub mod Creation
pub mod Deletion
use nineguard.Base.{
  ◌≡◌, refl, sym, ap, subst, ◌∙◌, inl, inr, ℕ, ℤ, List, [], ◌∷◌, ◌++◌, Option, none, some, Bool,
  true, false, not, ◌||◌, arith, if◌then◌else◌, insert, delete, Bool-cases, Option-cases,
}
use nineguard.Base.Text.{
  Text, codes, text_eq, text_eq→eq, text_eq_refl, trim_space, to_lower, is_blank,
}
use nineguard.Quota.{Location, ResetSchedule}
use nineguard.Keys.Schedule.{Codec, has_value}
use nineguard.Keys.Lists.{ListCodec, derive_access_mode}
use nineguard.Keys.Lists.Mask.{bare_key}
use nineguard.Keys.Access.{no_entries}
use nineguard.Keys.Cache.{
  ApiKeyRow, ClientKey, KeyStore, Sql, find_key, find_id, update_id, delete_id, read_entry,
  load_entry, load_rows, load_local_cache, validate_read, validate_store, cached_or_read,
  validate_client_key,
}
use nineguard.Keys.Cache.Operations.{
  new_row, new_entry, create_row, create_with, create_key_with_options, update_row, update_key,
  update_key_quota, write_update, with_quota_mode, with_normal_mode, update_key_all, toggle_key,
  raw_key_of, delete_key,
}
use nineguard.Keys.Cache.Options.{
  KeyError, Answer, CreateKeyOptions, KeyUpdate, normalize_quota_mode,
}
use nineguard.Keys.Cache.Table.{
  DistinctKeys, DistinctIds, KeepsKeys, updated, survivor, or_new, find_key-update,
  update-DistinctKeys, update-DistinctIds, find_key-append, append-DistinctKeys, append-DistinctIds,
}
use nineguard.Keys.Cache.Deleted.{
  find_key-delete, delete-DistinctKeys, delete-DistinctIds, found-key, find_id-found,
}

-- What decides whether a key is accepted and what it may use: an entry less its schedule.
pub record KeyPolicy : Type 0 where
  pub id : Text
  pub raw_key : Text
  pub name : Text
  pub is_active : Bool
  pub mode : Text
  pub groups : List Text
  pub models : List Text
  pub quota_limit : ℤ
  pub quota_period : Text
  pub quota_mode : Text
  pub cost_visibility : Option Text

unfoldable pub policy : ClientKey → KeyPolicy
policy e = record {
  id = e.id;
  raw_key = e.raw_key;
  name = e.name;
  is_active = e.is_active;
  mode = e.mode;
  groups = e.groups;
  models = e.models;
  quota_limit = e.quota_limit;
  quota_period = e.quota_period;
  quota_mode = e.quota_mode;
  cost_visibility = e.cost_visibility;
}

abbrev pub policy_of : Option ClientKey → Option KeyPolicy
policy_of none = none
policy_of (some e) = some (policy e)

pub derive_access_mode-nonblank :
    (mode : Text) (groups allowed : List Text)
    → is_blank (derive_access_mode mode groups allowed) ≡ false
unfolding derive_access_mode
derive_access_mode-nonblank mode groups allowed =
    elim (Bool-cases (is_blank (to_lower (trim_space mode)))) [
      | inl e ↦ rw e (ground arith)
      | inr e ↦ rw e e
    ]

-- Two rows that are one have one mode.
pub mode_of_same :
    (a b : ApiKeyRow) → some a ≡ some b → is_blank a.mode ≡ false → is_blank b.mode ≡ false
mode_of_same a b e h = let p : a ≡ b = cc in subst (λ (y : ApiKeyRow). is_blank y.mode ≡ false) p h

module _ (zones : Text → Option Location) (codec : Codec) (lists : ListCodec) where
  abbrev pub policy_of_row : Option ApiKeyRow → Option KeyPolicy
  policy_of_row none = none
  policy_of_row (some r) = some (policy (read_entry zones codec lists none r))

  abbrev pub served : List ApiKeyRow → Text → Option KeyPolicy
  served rows key = policy_of_row (find_key key rows)

  abbrev pub Moded : List ApiKeyRow → Type 0
  Moded rows = (k : Text) (r : ApiKeyRow) → find_key k rows ≡ some r → is_blank r.mode ≡ false

  pub record IsSound (st : KeyStore) : Type 0 where
    pub keys : DistinctKeys st.rows
    pub ids : DistinctIds st.rows
    pub modes : Moded st.rows
    pub live :
        (k : Text) (e : ClientKey)
        → is_blank k ≡ false
        → st.cache k ≡ some e
        → served st.rows k ≡ some (policy e)

  load_entry-policy :
      (global : Option ResetSchedule) (r : ApiKeyRow)
      → is_blank r.mode ≡ false
      → policy (read_entry zones codec lists none r)
        ≡ policy (load_entry zones codec lists global r)
  unfolding read_entry load_entry policy
  load_entry-policy global r h = rw h refl

  abbrev loaded : Option ResetSchedule → Option ApiKeyRow → Option ClientKey → Option ClientKey
  loaded global none old = old
  loaded global (some r) old = some (load_entry zones codec lists global r)

  -- What the loop leaves at a key.
  load_rows-at :
      (global : Option ResetSchedule) (rows : List ApiKeyRow) (cache : Text → Option ClientKey)
      (k : Text)
      → DistinctKeys rows
      → load_rows zones codec lists global rows cache k ≡ loaded global (find_key k rows) (cache k)
  unfolding load_rows find_key
  load_rows-at global [] cache k d = refl
  load_rows-at global (r ∷ rs) cache k (new, d) =
      let rest =
        load_rows-at global rs (insert r.key (load_entry zones codec lists global r) cache) k d in
      elim (Bool-cases (text_eq k r.key)) [
        | inl e ↦
            let gone : find_key k rs ≡ none =
              subst (λ y. find_key y rs ≡ none) (sym (text_eq→eq k r.key e)) new in
            rest ∙ rw (gone, e) refl
        | inr e ↦ rest ∙ rw e refl
      ]

  -- A new table read into the cache of a sound store whose keys it all has.
  pub load-IsSound :
      (sql : Sql) (st : KeyStore) (rows : List ApiKeyRow)
      → sql.reloads ≡ true
      → DistinctKeys rows
      → DistinctIds rows
      → Moded rows
      → ((k : Text) → find_key k rows ≡ none → find_key k st.rows ≡ none)
      → IsSound st
      → IsSound (load_local_cache zones codec lists sql (record st { rows = rows }))
  unfolding load_local_cache
  load-IsSound sql st rows ok d di m kept sound =
      rw ok (record { keys = d; ids = di; modes = m; live = live_after })
    where
      at :
          (k : Text)
          → load_rows zones codec lists st.global rows st.cache k
            ≡ loaded st.global (find_key k rows) (st.cache k)
      at k = load_rows-at st.global rows st.cache k d

      found :
          (k : Text) (e : ClientKey) (o : Option ApiKeyRow)
          → find_key k rows ≡ o
          → is_blank k ≡ false
          → loaded st.global o (st.cache k) ≡ some e
          → policy_of_row o ≡ some (policy e)
      found k e none f nb h = absurd (cc (sym (sound.live k e nb h) ∙ ap policy_of_row (kept k f)))
      found k e (some r) f nb h = ap some (load_entry-policy st.global r (m k r f)) ∙ ap policy_of h

      live_after :
          (k : Text) (e : ClientKey)
          → is_blank k ≡ false
          → load_rows zones codec lists st.global rows st.cache k ≡ some e
          → served rows k ≡ some (policy e)
      live_after k e nb h = found k e (find_key k rows) refl nb (sym (at k) ∙ h)
