-- ===== src/Keys/Cache/Operations.antt =====
-- The operations on client keys. What `crypto/rand` gives is an argument: the token, if there is one,
-- and the id of a new key.
use nineguard.Base.{
  ℕ, ℤ, List, [], ◌∷◌, ◌++◌, Option, none, some, Bool, true, false, not, ◌||◌, if◌then◌else◌,
  delete, insert,
}
use nineguard.Base.Text.{Text, codes, trim_space, is_blank}
use nineguard.Quota.{Location, ResetSchedule, no_pins}
use nineguard.Keys.Schedule.{Codec, effective_schedule, encode_schedule, change_row, has_value}
use nineguard.Keys.Lists.{
  ListCodec, parse_allowed_models, serialize_allowed_models, derive_access_mode,
}
use nineguard.Keys.Cache.{
  ApiKeyRow, ClientKey, KeyStore, Sql, find_id, update_id, delete_id, schedule_columns, read_entry,
  load_local_cache,
}
use nineguard.Keys.Cache.Options.{
  token_failed, invalid_quota_mode, empty_name, not_found, database_failed, Answer, given, refused,
  normalize_quota_mode, visibility_of, period_or_none, at_least_zero, CreateKeyOptions, KeyUpdate,
  or_kept, clamped, normal_period, kept_visibility,
}

module _ (zones : Text → Option Location) (codec : Codec) (lists : ListCodec) where
  -- The row that `CreateKeyWithOptions` inserts, and the entry that it caches.
  unfoldable pub new_row : Text → Text → Text → Text → CreateKeyOptions → ApiKeyRow
  new_row id key name quota_mode opts = record {
    id = id;
    key = key;
    name = if is_blank (trim_space name) then codes "Agent Key" else trim_space name;
    is_active = true;
    mode = derive_access_mode opts.mode opts.groups opts.models;
    groups_raw = serialize_allowed_models lists opts.groups;
    models_raw = serialize_allowed_models lists opts.models;
    quota_limit = at_least_zero opts.quota_limit;
    quota_period = period_or_none opts.quota_period;
    quota_mode = quota_mode;
    own_raw = encode_schedule zones codec opts.reset_schedule;
    pins_raw = [];
    cost_visibility = visibility_of opts.cost_visibility;
  }

  unfoldable pub new_entry : Option ResetSchedule → ApiKeyRow → CreateKeyOptions → ClientKey
  new_entry global r opts = record {
    id = r.id;
    raw_key = r.key;
    name = r.name;
    is_active = true;
    mode = r.mode;
    groups = parse_allowed_models lists r.groups_raw;
    models = parse_allowed_models lists r.models_raw;
    quota_limit = r.quota_limit;
    quota_period = r.quota_period;
    quota_mode = r.quota_mode;
    reset_schedule = opts.reset_schedule;
    reset_rule = record {
      schedule = (effective_schedule opts.reset_schedule global).0;
      pins = no_pins;
    };
    cost_visibility = r.cost_visibility;
  }

  -- The INSERT fails on an id that is taken.
  unfoldable pub create_row :
      Sql → KeyStore → ApiKeyRow → CreateKeyOptions → KeyStore × Answer ClientKey
  create_row sql st r opts =
      if not sql.writes || has_value (find_id r.id st.rows)
      then (st, refused database_failed)
      else let e = new_entry st.global r opts in
        (record st { rows = st.rows ++ (r ∷ []); cache = insert r.key e st.cache }, given e)

  abbrev pub create_with :
      Sql
      → KeyStore
      → Text
      → Text
      → CreateKeyOptions
      → Option Text
      → Option Text
      → KeyStore × Answer ClientKey
  create_with sql st id name opts none mode = (st, refused token_failed)
  create_with sql st id name opts (some key) none = (st, refused invalid_quota_mode)
  create_with sql st id name opts (some key) (some mode) =
      create_row sql st (new_row id key name mode opts) opts

  unfoldable pub create_key_with_options :
      Sql → KeyStore → Option Text → Text → Text → CreateKeyOptions → KeyStore × Answer ClientKey
  create_key_with_options sql st token id name opts =
      create_with sql st id name opts token (normalize_quota_mode opts.quota_mode)

  abbrev found_entry : Option ResetSchedule → Option ApiKeyRow → Answer ClientKey
  found_entry global none = refused not_found
  found_entry global (some r) = given (read_entry zones codec lists global r)

  unfoldable pub get_key : Sql → KeyStore → Text → Answer ClientKey
  get_key sql st id =
      if sql.reads then found_entry st.global (find_id id st.rows) else refused database_failed

  -- An UPDATE of the row with the id, the reload of the cache, and `GetKey`.
  unfoldable pub update_row :
      Sql → KeyStore → Text → (ApiKeyRow → ApiKeyRow) → KeyStore × Answer ClientKey
  update_row sql st id f =
      if not sql.writes
      then (st, refused database_failed)
      else if not (has_value (find_id id st.rows))
      then (st, refused not_found)
      else let st' =
          load_local_cache zones codec lists sql (record st { rows = update_id id f st.rows }) in
        (st', get_key sql st' id)

  unfoldable pub update_key :
      Sql → KeyStore → Text → Text → Text → List Text → List Text → KeyStore × Answer ClientKey
  update_key sql st id name mode groups models =
      if is_blank (trim_space name)
      then (st, refused empty_name)
      else update_row sql st id (λ r. record r {
        name = trim_space name;
        mode = derive_access_mode mode groups models;
        groups_raw = serialize_allowed_models lists groups;
        models_raw = serialize_allowed_models lists models;
      })

  unfoldable pub update_key_quota : Sql → KeyStore → Text → ℤ → Text → KeyStore × Answer ClientKey
  update_key_quota sql st id limit period =
      update_row sql st id
        (λ r. record r { quota_limit = at_least_zero limit; quota_period = period_or_none period })

  -- The columns that `UpdateKeyAll` writes.
  unfoldable pub write_update :
      Option ResetSchedule → ℕ → KeyUpdate → Option Text → ApiKeyRow → ApiKeyRow
  write_update global now u quota_mode r =
      let columns = change_row zones codec u.reset_schedule global now (schedule_columns r) in
      record r {
        name = trim_space u.name;
        mode = derive_access_mode u.mode u.groups u.models;
        groups_raw = serialize_allowed_models lists u.groups;
        models_raw = serialize_allowed_models lists u.models;
        quota_limit = or_kept (clamped u.quota_limit) r.quota_limit;
        quota_period = or_kept (normal_period u.quota_period) r.quota_period;
        quota_mode = or_kept quota_mode r.quota_mode;
        own_raw = columns.own_raw;
        pins_raw = columns.pins_raw;
        cost_visibility = kept_visibility u.cost_visibility r.cost_visibility;
      }

  abbrev pub with_normal_mode :
      Sql → KeyStore → Text → ℕ → KeyUpdate → Option Text → KeyStore × Answer ClientKey
  with_normal_mode sql st id now u none = (st, refused invalid_quota_mode)
  with_normal_mode sql st id now u (some mode) =
      update_row sql st id (write_update st.global now u (some mode))

  abbrev pub with_quota_mode :
      Sql → KeyStore → Text → ℕ → KeyUpdate → Option Text → KeyStore × Answer ClientKey
  with_quota_mode sql st id now u none = update_row sql st id (write_update st.global now u none)
  with_quota_mode sql st id now u (some s) =
      with_normal_mode sql st id now u (normalize_quota_mode s)

  unfoldable pub update_key_all :
      Sql → KeyStore → Text → ℕ → KeyUpdate → KeyStore × Answer ClientKey
  update_key_all sql st id now u =
      if is_blank (trim_space u.name)
      then (st, refused empty_name)
      else with_quota_mode sql st id now u u.quota_mode

  -- `ToggleKey` and `DeleteKey`: the new store, and whether it returns without an error.
  unfoldable pub toggle_key : Sql → KeyStore → Text → Bool → KeyStore × Bool
  toggle_key sql st id active = if not sql.writes then (st, false) else (
    load_local_cache zones codec lists sql
        (record st { rows = update_id id (λ r. record r { is_active = active }) st.rows }),
    true,
  )

-- The raw key of the id; the code ignores an error of this query.
abbrev pub raw_key_of : Option ApiKeyRow → Text
raw_key_of none = []
raw_key_of (some r) = r.key

unfoldable pub delete_key : Sql → KeyStore → Text → KeyStore × Bool
delete_key sql st id =
    if not sql.writes
    then (st, false)
    else let raw = if sql.reads then raw_key_of (find_id id st.rows) else [] in
      (
        record st {
          rows = delete_id id st.rows;
          cache = if is_blank raw then st.cache else delete raw st.cache;
        },
        true,
      )
