-- ===== src/Keys/Cache/Refines.antt =====
-- The specification of client keys: a table alone, without a cache, and the runs of the manager over it.
use nineguard.Base.{
  ◌≡◌, refl, sym, ap, ◌∙◌, inl, inr, ℕ, ℤ, List, [], Option, none, some, Bool, true, false,
  if◌then◌else◌, Bool-cases,
}
use nineguard.Base.Text.{Text, is_blank}
use nineguard.Quota.{Location, ResetSchedule}
use nineguard.Keys.Schedule.{Codec}
use nineguard.Keys.Lists.{ListCodec}
use nineguard.Keys.Lists.Mask.{bare_key}
use nineguard.Keys.Cache.{
  ApiKeyRow, ClientKey, KeyStore, Sql, find_key, row_entry, read_entry, validate_read,
  validate_store, cached_or_read, validate_client_key,
}
use nineguard.Keys.Cache.Operations.{
  create_key_with_options, update_key, update_key_quota, update_key_all, toggle_key, delete_key,
}
use nineguard.Keys.Cache.Options.{CreateKeyOptions, KeyUpdate}
use nineguard.Keys.Cache.Sound.{KeyPolicy, policy, policy_of, policy_of_row, served, IsSound}
use nineguard.Base.{empty}
use nineguard.Keys.Cache.{active_only}
use nineguard.Keys.Cache.Sound.Updates.{
  update_key-IsSound, update_key_quota-IsSound, update_key_all-IsSound, toggle_key-IsSound,
}
use nineguard.Keys.Cache.Sound.Creation.{FreshToken, create_key_with_options-IsSound}
use nineguard.Keys.Cache.Sound.Deletion.{
  read_entry-policy, delete_key-IsSound, validate_client_key-IsSound,
}

-- The calls of the manager.
pub data Call : Type 0 where
  validate : Text → Call
  create : Option Text → Text → Text → CreateKeyOptions → Call
  update : Text → Text → Text → List Text → List Text → Call
  update_quota : Text → ℤ → Text → Call
  update_all : Text → ℕ → KeyUpdate → Call
  toggle : Text → Bool → Call
  remove : Text → Call

-- The token of a new key is not that of another key.
abbrev pub Fresh : List ApiKeyRow → Call → Type 0
Fresh rows (create token id name opts) = FreshToken rows token
Fresh rows call = Unit {0}

-- What the specification answers: the policy of the active row with the key.
abbrev pub active_policy : Option KeyPolicy → Option KeyPolicy
active_policy none = none
active_policy (some p) = if p.is_active then some p else none

module _ (zones : Text → Option Location) (codec : Codec) (lists : ListCodec) where
  unfoldable pub accepted : List ApiKeyRow → Text → Option KeyPolicy
  accepted rows raw =
      let key = bare_key raw in
      if is_blank key then none else active_policy (served zones codec lists rows key)

  unfoldable pub perform : Sql → KeyStore → Call → KeyStore
  perform sql st (validate raw) = (validate_client_key zones codec lists sql st raw).0
  perform sql st (create token id name opts) =
      (create_key_with_options zones codec lists sql st token id name opts).0
  perform sql st (update id name mode groups models) =
      (update_key zones codec lists sql st id name mode groups models).0
  perform sql st (update_quota id limit period) =
      (update_key_quota zones codec lists sql st id limit period).0
  perform sql st (update_all id now u) = (update_key_all zones codec lists sql st id now u).0
  perform sql st (toggle id active) = (toggle_key zones codec lists sql st id active).0
  perform sql st (remove id) = (delete_key sql st id).0

  -- The stores of a run from an empty table, in which queries may not fail and statements may.
  pub data Reached (global : Option ResetSchedule) : KeyStore → Type 0 where
    opened : Reached global (record { rows = []; cache = empty; global = global })
    after :
        {st : KeyStore}
        → Reached global st
        → (sql : Sql) → sql.reads ≡ true
        → sql.reloads ≡ true
        → (call : Call) → Fresh st.rows call
        → Reached global (perform sql st call)

  perform-IsSound :
      (sql : Sql) (st : KeyStore) (call : Call)
      → sql.reads ≡ true
      → sql.reloads ≡ true
      → Fresh st.rows call
      → IsSound zones codec lists st
      → IsSound zones codec lists (perform sql st call)
  unfolding perform
  perform-IsSound sql st (validate raw) reads reloads f sound =
      validate_client_key-IsSound zones codec lists sql st sound raw
  perform-IsSound sql st (create token id name opts) reads reloads f sound =
      create_key_with_options-IsSound zones codec lists sql st sound token id name opts f
  perform-IsSound sql st (update id name mode groups models) reads reloads f sound =
      update_key-IsSound zones codec lists sql st sound id name mode groups models reloads
  perform-IsSound sql st (update_quota id limit period) reads reloads f sound =
      update_key_quota-IsSound zones codec lists sql st sound id limit period reloads
  perform-IsSound sql st (update_all id now u) reads reloads f sound =
      update_key_all-IsSound zones codec lists sql st sound id now u reloads
  perform-IsSound sql st (toggle id active) reads reloads f sound =
      toggle_key-IsSound zones codec lists sql st sound id active reloads
  perform-IsSound sql st (remove id) reads reloads f sound =
      delete_key-IsSound zones codec lists sql st sound id reads

  -- After every run of calls, whose statements may fail but whose queries do not and whose new tokens are fresh, the table has no two rows with one key or
  -- one id and no row without a mode, and every cached entry of a key has the policy of the key's row.
  reached-IsSound :
      (global : Option ResetSchedule) (st : KeyStore)
      → Reached global st
      → IsSound zones codec lists st
  unfolding find_key
  reached-IsSound global _ opened = record {
    keys = tt;
    ids = tt;
    modes = λ k r h. absurd cc;
    live = λ k e nb h. absurd cc;
  }
  reached-IsSound global _ (after {st = st} run sql reads reloads call f) =
      perform-IsSound sql st call reads reloads f (reached-IsSound global st run)

  active_only-policy : (e : ClientKey) → policy_of (active_only e) ≡ active_policy (some (policy e))
  unfolding policy
  active_only-policy e = elim (Bool-cases e.is_active) [ inl a ↦ rw a refl | inr a ↦ rw a refl ]

  -- After every run of calls, whose statements may fail but whose queries do not and whose new tokens are fresh, a key is accepted exactly
  -- when the table has an active row with it, and then with that row's policy: the cache changes no answer.
  pub validate_client_key-accepted :
      (global : Option ResetSchedule) (st : KeyStore)
      → Reached global st
      → (sql : Sql) → sql.reads ≡ true
      → (raw : Text)
      → policy_of (validate_client_key zones codec lists sql st raw).1 ≡ accepted st.rows raw
  unfolding validate_client_key accepted validate_read validate_store
  validate_client_key-accepted global st run sql reads raw =
      elim (Bool-cases (is_blank (bare_key raw))) [
        | inl b ↦ rw b refl
        | inr b ↦ rw b (by_cache b (st.cache (bare_key raw)) refl)
      ]
    where
      by_row :
          (o : Option ApiKeyRow)
          → policy_of (validate_store (bare_key raw) (row_entry zones codec lists st.global o) st).1
            ≡ active_policy (policy_of_row zones codec lists o)
      by_row none = refl
      by_row (some r) =
          active_only-policy (read_entry zones codec lists st.global r)
          ∙ ap active_policy (sym (read_entry-policy zones codec lists st.global r))

      by_cache :
          is_blank (bare_key raw) ≡ false
          → (o : Option ClientKey) → st.cache (bare_key raw) ≡ o
          → policy_of (cached_or_read zones codec lists sql st (bare_key raw) o).1
            ≡ active_policy (served zones codec lists st.rows (bare_key raw))
      by_cache b (some e) h =
          active_only-policy e
          ∙ ap active_policy (sym ((reached-IsSound global st run).live (bare_key raw) e b h))
      by_cache b none h = rw reads (by_row (find_key (bare_key raw) st.rows))
