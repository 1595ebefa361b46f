-- ===== src/Keys/Cache.antt =====
-- internal/keys/{keys,modelquota}.go: the table of client keys and the cache in front of it. A table is
-- a list of rows with the columns that the code reads, less `prefix`, the times and the Model
-- Quotas; SQL NULL has gone through COALESCE. `Sql` says which queries of an operation succeed.
pub mod Options
pub mod Operations
pub mod Table
pub mod Deleted
pub mod Sound
pub mod Refines
pub mod Race
mod Examples
use nineguard.Base.{
  ℕ, ℤ, List, [], ◌∷◌, Option, none, some, Bool, true, false, not, ◌||◌, if◌then◌else◌, filter, any,
  map, insert, delete,
}
use nineguard.Base.Text.{Text, codes, text_eq, is_blank}
use nineguard.Quota.{Location, ResetSchedule, ResetRule}
use nineguard.Keys.Schedule.{Codec, KeyScheduleRow, parse_schedule, row_rule}
use nineguard.Keys.Access.{no_entries}
use nineguard.Keys.Lists.{ListCodec, parse_allowed_models}
use nineguard.Keys.Lists.Mask.{bare_key}

-- A row of `api_keys`.
pub record ApiKeyRow : Type 0 where
  pub id : Text
  pub key : Text
  pub name : Text
  pub is_active : Bool
  pub mode : Text
  pub groups_raw : Text
  pub models_raw : Text
  pub quota_limit : ℤ
  pub quota_period : Text
  pub quota_mode : Text
  pub own_raw : Text
  pub pins_raw : Text
  pub cost_visibility : Option Text

-- What `KeyInfo` holds of it.
pub record ClientKey : Type 0 where
  pub id : Text
  pub raw_key : Text
  pub name : Text
  pub is_active : Bool
  pub mode : Text
  pub groups : List Text
  pub models : List Text
  pub quota_limit : ℤ
  pub quota_period : Text
  pub quota_mode : Text
  pub reset_schedule : Option ResetSchedule
  pub reset_rule : ResetRule
  pub cost_visibility : Option Text

pub record KeyStore : Type 0 where
  pub rows : List ApiKeyRow
  pub cache : Text → Option ClientKey
  pub global : Option ResetSchedule

-- `reads`: the query for one row; `writes`: the statements and the commit; `reloads`: the query of
-- `loadLocalCache`.
pub record Sql : Type 0 where
  pub reads : Bool
  pub writes : Bool
  pub reloads : Bool

-- `SELECT … WHERE key = ? LIMIT 1` and `WHERE id = ?`.
unfoldable pub find_key : Text → List ApiKeyRow → Option ApiKeyRow
find_key key [] = none
find_key key (r ∷ rs) = if text_eq key r.key then some r else find_key key rs

unfoldable pub find_id : Text → List ApiKeyRow → Option ApiKeyRow
find_id id [] = none
find_id id (r ∷ rs) = if text_eq id r.id then some r else find_id id rs

-- `UPDATE … WHERE id = ?` and `DELETE … WHERE id = ?`.
unfoldable pub update_id : Text → (ApiKeyRow → ApiKeyRow) → List ApiKeyRow → List ApiKeyRow
update_id id f [] = []
update_id id f (r ∷ rs) = (if text_eq id r.id then f r else r) ∷ update_id id f rs

unfoldable pub delete_id : Text → List ApiKeyRow → List ApiKeyRow
delete_id id rs = filter (λ r. not (text_eq id r.id)) rs

abbrev pub schedule_columns : ApiKeyRow → KeyScheduleRow
schedule_columns r = record { id = r.id; own_raw = r.own_raw; pins_raw = r.pins_raw }

abbrev pub active_only : ClientKey → Option ClientKey
active_only e = if e.is_active then some e else none

-- … and then its entry is stored.
unfoldable pub validate_store : Text → Option ClientKey → KeyStore → KeyStore × Option ClientKey
validate_store key none st = (st, none)
validate_store key (some e) st = (record st { cache = insert key e st.cache }, active_only e)

module _ (zones : Text → Option Location) (codec : Codec) (lists : ListCodec) where
  -- A row as `ValidateClientKey` and `GetKey` read it.
  unfoldable pub read_entry : Option ResetSchedule → ApiKeyRow → ClientKey
  read_entry global r = record {
    id = r.id;
    raw_key = r.key;
    name = r.name;
    is_active = r.is_active;
    mode = r.mode;
    groups = parse_allowed_models lists r.groups_raw;
    models = parse_allowed_models lists r.models_raw;
    quota_limit = r.quota_limit;
    quota_period = r.quota_period;
    quota_mode = r.quota_mode;
    reset_schedule = parse_schedule zones codec r.own_raw;
    reset_rule = row_rule zones codec global (schedule_columns r);
    cost_visibility = r.cost_visibility;
  }

  -- The mode that `loadLocalCache` gives a row without one.
  abbrev pub default_mode : ClientKey → Text
  default_mode e =
      if not (is_blank e.mode)
      then e.mode
      else if not (no_entries e.models)
      then codes "custom"
      else codes "all"

  unfoldable pub load_entry : Option ResetSchedule → ApiKeyRow → ClientKey
  load_entry global r = let e = read_entry global r in record e { mode = default_mode e }

  -- The loop of `loadLocalCache`; it never deletes an entry.
  unfoldable pub load_rows :
      Option ResetSchedule → List ApiKeyRow → (Text → Option ClientKey) → Text → Option ClientKey
  load_rows global [] cache = cache
  load_rows global (r ∷ rs) cache = load_rows global rs (insert r.key (load_entry global r) cache)

  unfoldable pub load_local_cache : Sql → KeyStore → KeyStore
  load_local_cache sql st =
      if sql.reloads then record st { cache = load_rows st.global st.rows st.cache } else st

  -- `ValidateClientKey` below the cache: the row is read.
  abbrev pub row_entry : Option ResetSchedule → Option ApiKeyRow → Option ClientKey
  row_entry global none = none
  row_entry global (some r) = some (read_entry global r)

  unfoldable pub validate_read : Sql → KeyStore → Text → Option ClientKey
  validate_read sql st key = if sql.reads then row_entry st.global (find_key key st.rows) else none

  abbrev pub cached_or_read : Sql → KeyStore → Text → Option ClientKey → KeyStore × Option ClientKey
  cached_or_read sql st key (some e) = (st, active_only e)
  cached_or_read sql st key none = validate_store key (validate_read sql st key) st

  unfoldable pub validate_client_key : Sql → KeyStore → Text → KeyStore × Option ClientKey
  validate_client_key sql st raw =
      let key = bare_key raw in
      if is_blank key then (st, none) else cached_or_read sql st key (st.cache key)
