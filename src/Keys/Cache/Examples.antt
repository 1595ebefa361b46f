-- ===== src/Keys/Cache/Examples.antt =====
-- The theorems of the cache of client keys at a table of two keys.
use nineguard.Base.{◌≡◌, refl, pos, [], ◌∷◌, Option, none, some, true, empty}
use nineguard.Base.Text.{Text, codes, text_eq, to_lower, trim_space}
use nineguard.Quota.{Location}
use nineguard.Keys.Schedule.{Codec}
use nineguard.Keys.Lists.Examples.{lists}
use nineguard.Keys.Lists.Mask.{bare_key}
use nineguard.Keys.Cache.{
  ApiKeyRow, KeyStore, Sql, find_key, find_id, read_entry, validate_client_key,
}
use nineguard.Keys.Cache.Operations.{create_key_with_options, create_row, new_row}
use nineguard.Keys.Cache.Options.{CreateKeyOptions, normalize_quota_mode}
use nineguard.Keys.Cache.Sound.{policy_of}
use nineguard.Keys.Cache.Refines.{
  create, Reached, opened, after, perform, accepted, validate_client_key-accepted,
}
use nineguard.Keys.Cache.Race.{read_delete_store, validate_client_key-read_delete_store}

abbrev no_zones : Text → Option Location
no_zones name = none

abbrev plain : Codec
plain = record {
  decode_schedule = λ s. none;
  encode_schedule = λ s. [];
  decode_pins = λ s. none;
  encode_pins = λ p. [];
}

abbrev working : Sql
working = record { reads = true; writes = true; reloads = true }

abbrev options : CreateKeyOptions
options = record {
  mode = [];
  groups = [];
  models = codes "gpt-4o" ∷ [];
  quota_limit = pos 500;
  quota_period = codes "daily";
  quota_mode = [];
  reset_schedule = none;
  cost_visibility = none;
}

abbrev first_store : KeyStore
first_store =
    perform no_zones plain lists working (record { rows = []; cache = empty; global = none })
      (create (some (codes "ng-first")) (codes "k1") (codes "ci") options)

abbrev second_store : KeyStore
second_store =
    perform no_zones plain lists working first_store
      (create (some (codes "ng-second")) (codes "k2") [] options)

two_keys : Reached no_zones plain lists none second_store
unfolding perform create_key_with_options create_row find_key text_eq normalize_quota_mode to_lower
    trim_space find_id new_row
two_keys =
    after
      (after opened working refl refl
        (create (some (codes "ng-first")) (codes "k1") (codes "ci") options) refl)
      working refl refl (create (some (codes "ng-second")) (codes "k2") [] options) refl

validate_client_key-accepted_example :
    policy_of
      (validate_client_key no_zones plain lists working second_store (codes "Bearer ng-second")).1
    ≡ accepted no_zones plain lists second_store.rows (codes "Bearer ng-second")
validate_client_key-accepted_example =
    validate_client_key-accepted no_zones plain lists none second_store two_keys working refl
      (codes "Bearer ng-second")

abbrev leaked : ApiKeyRow
leaked = record {
  id = codes "k1";
  key = codes "ng-first";
  name = codes "ci";
  is_active = true;
  mode = codes "all";
  groups_raw = [];
  models_raw = [];
  quota_limit = pos 0;
  quota_period = codes "none";
  quota_mode = codes "key";
  own_raw = [];
  pins_raw = [];
  cost_visibility = none;
}

abbrev opened_store : KeyStore
opened_store = record { rows = leaked ∷ []; cache = empty; global = none }

validate_client_key-read_delete_store_example :
    let st' =
      read_delete_store no_zones plain lists working opened_store (codes "ng-first") (codes "k1") in
    (find_key (codes "ng-first") st'.rows ≡ none)
    × (validate_client_key no_zones plain lists working st' (codes "ng-first")
        ≡ (st', some (read_entry no_zones plain lists none leaked)))
unfolding find_key text_eq bare_key
validate_client_key-read_delete_store_example =
    validate_client_key-read_delete_store no_zones plain lists working opened_store leaked refl refl
      (refl, tt) refl refl refl refl
