-- ===== src/Keys/Access.antt =====
-- internal/keys/keys.go and internal/models/availability.go: which models a key may use.
-- A nil `*KeyInfo`, `*Manager` or `*Availability` is `none`; a Go map is a function to options.
pub mod Groups
pub mod Available
pub mod Present
pub mod Case
mod Examples
use nineguard.Base.{
  ℕ, ◌+◌, List, [], ◌∷◌, ◌++◌, Option, none, some, Bool, true, false, not, ◌&&◌, ◌||◌, ◌==◌,
  if◌then◌else◌, filter, any,
}
use nineguard.Base.Text.{
  Text, codes, text_eq, trim_space, equal_fold, to_lower, has_prefix, has_suffix, trim_prefix,
  trim_suffix, contains_byte, after_byte, is_blank,
}

pub record Availability : Type 0 where
  pub present : List Text
  pub removed : List Text

-- What the access check reads of `Manager` and of `KeyInfo`.
pub record Manager : Type 0 where
  pub group_cache : Text → Option (List Text)
  pub avail : Option Availability

pub record KeyInfo : Type 0 where
  pub model_access_mode : Text
  pub model_group_ids : List Text
  pub allowed_models : List Text

abbrev pub no_entries {ℓ} : {A : Type ℓ} → List A → Bool
no_entries [] = true
no_entries (x ∷ xs) = false

unfoldable pub entry_matches_id : Text → Text → Bool
unfolding equal_fold after_byte
entry_matches_id entry id =
    equal_fold entry id
    || not (contains_byte entry b'/')
      && contains_byte id b'/'
      && equal_fold entry (after_byte id b'/')

-- `IsUnavailable` after its guards, on the trimmed entry.
unfoldable pub only_removed : Availability → Text → Bool
unfolding entry_matches_id
only_removed a entry =
    if is_blank entry || contains_byte entry b'*' || equal_fold entry (codes "all")
    then false
    else if any (entry_matches_id entry) a.present
    then false
    else any (entry_matches_id entry) a.removed

unfoldable pub is_unavailable : Option Availability → Text → Bool
unfolding only_removed trim_space
is_unavailable none entry = false
is_unavailable (some a) entry = only_removed a (trim_space entry)

unfoldable pub filter_available : Option Availability → List Text → List Text
unfolding is_unavailable
filter_available none entries = entries
filter_available (some a) entries =
    if no_entries a.removed then entries else filter (λ e. not (is_unavailable (some a) e)) entries

-- The two nested loops of `GetModelsForGroups`, over the models of the groups in order; `seen` is
-- the map of the models already in the result.
unfoldable pub fresh : (Text → Bool) → List Text → List Text
unfolding text_eq
fresh seen [] = []
fresh seen (m ∷ ms) =
    let rest = fresh seen ms in
    let rest_marked = fresh (λ x. text_eq x m || seen x) ms in
    if seen m then rest else m ∷ rest_marked

abbrev pub cached : Option (List Text) → List Text
cached none = []
cached (some ms) = ms

abbrev pub models_of : (Text → Option (List Text)) → List Text → List Text
models_of cache [] = []
models_of cache (gid ∷ gids) = cached (cache gid) ++ models_of cache gids

unfoldable pub get_models_for_groups : (Text → Option (List Text)) → List Text → List Text
unfolding fresh
get_models_for_groups cache gids = fresh (λ x. false) (models_of cache gids)

-- The mode, inferred when it is not stored.
unfoldable pub access_mode : KeyInfo → Text
access_mode ki =
    if not (is_blank ki.model_access_mode)
    then ki.model_access_mode
    else if not (no_entries ki.model_group_ids)
    then codes "group"
    else if not (no_entries ki.allowed_models)
    then codes "custom"
    else codes "all"

abbrev pub via_groups : Option Manager → KeyInfo → List Text
via_groups none ki = ki.allowed_models
via_groups (some m) ki =
    filter_available m.avail (get_models_for_groups m.group_cache ki.model_group_ids)

abbrev pub via_custom : Option Manager → KeyInfo → List Text
via_custom none ki = ki.allowed_models
via_custom (some m) ki = filter_available m.avail ki.allowed_models

unfoldable pub get_effective_allowed_models : Option Manager → Option KeyInfo → List Text
unfolding access_mode text_eq
get_effective_allowed_models manager none = codes "*" ∷ []
get_effective_allowed_models manager (some ki) =
    if text_eq (access_mode ki) (codes "all")
    then codes "*" ∷ []
    else if text_eq (access_mode ki) (codes "group")
    then via_groups manager ki
    else if text_eq (access_mode ki) (codes "custom")
    then via_custom manager ki
    else codes "*" ∷ []

unfoldable pub allows_all : Text → Bool
unfolding text_eq equal_fold
allows_all m = text_eq m (codes "*") || equal_fold m (codes "all")

unfoldable pub is_all_models_allowed : Option Manager → Option KeyInfo → Bool
unfolding access_mode allows_all text_eq get_effective_allowed_models
is_all_models_allowed manager none = true
is_all_models_allowed manager (some ki) =
    if text_eq (access_mode ki) (codes "all")
    then true
    else if text_eq (access_mode ki) (codes "group")
    then any allows_all (get_effective_allowed_models manager (some ki))
    else if text_eq (access_mode ki) (codes "custom")
    then no_entries ki.allowed_models || any allows_all ki.allowed_models
    else true

-- `matchModelPattern` on the trimmed entry; the branches that return true, in order.
unfoldable pub matches : Text → Text → Bool
unfolding text_eq equal_fold has_prefix has_suffix trim_prefix trim_suffix to_lower after_byte
matches allowed model =
    text_eq allowed (codes "*")
    || is_blank allowed
    || equal_fold allowed (codes "all")
    || equal_fold allowed model
    || has_suffix allowed (codes "/*")
      && has_prefix (to_lower model) (to_lower (trim_suffix allowed (codes "/*")) ++ codes "/")
    || has_prefix allowed (codes "*.")
      && has_suffix (to_lower model) (to_lower (trim_prefix allowed (codes "*")))
    || contains_byte model b'/'
      && not (contains_byte allowed b'/')
      && equal_fold (after_byte model b'/') allowed
    || contains_byte allowed b'/'
      && not (contains_byte model b'/')
      && equal_fold (after_byte allowed b'/') model

unfoldable pub match_model_pattern : Text → Text → Bool
unfolding matches trim_space
match_model_pattern allowed model = matches (trim_space allowed) model

-- `IsModelAllowed` after the test for a key without restriction, on the trimmed model.
unfoldable pub allowed_by : List Text → Text → Bool
unfolding match_model_pattern
allowed_by effective model =
    if is_blank model
    then true
    else if no_entries effective
    then false
    else any (λ allowed. match_model_pattern allowed model) effective

unfoldable pub is_model_allowed : Option Manager → Option KeyInfo → Text → Bool
unfolding allowed_by trim_space is_all_models_allowed get_effective_allowed_models
is_model_allowed manager ki model =
    if is_all_models_allowed manager ki
    then true
    else allowed_by (get_effective_allowed_models manager ki) (trim_space model)
