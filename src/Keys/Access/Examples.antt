-- ===== src/Keys/Access/Examples.antt =====
-- The theorems of the access check at concrete keys.
use nineguard.Base.{◌≡◌, refl, List, [], ◌∷◌, Option, none, some, true, false, if◌then◌else◌}
use nineguard.Base.Text.{Text, codes, text_eq, trim_space, equal_fold}
use nineguard.Keys.Access.{
  Availability, Manager, KeyInfo, get_models_for_groups, get_effective_allowed_models,
  is_unavailable, match_model_pattern, filter_available, is_model_allowed, access_mode,
}
use nineguard.Keys.Access.Available.{removed_only_denied}
use nineguard.Keys.Access.Present.{Names, bare, Lists, effective-Names}

abbrev cache : Text → Option (List Text)
cache gid =
    if text_eq gid (codes "g1")
    then some (codes "gpt-4o" ∷ codes "claude" ∷ [])
    else if text_eq gid (codes "g2")
    then some (codes "claude" ∷ codes "old" ∷ [])
    else none

abbrev models : Availability
models = record {
  present = codes "openai/gpt-4o" ∷ codes "claude" ∷ [];
  removed = codes "old" ∷ [];
}

abbrev manager : Manager
manager = record { group_cache = cache; avail = some models }

abbrev grouped : KeyInfo
grouped = record {
  model_access_mode = codes "group";
  model_group_ids = codes "g1" ∷ codes "g2" ∷ codes "g3" ∷ [];
  allowed_models = [];
}

abbrev stale : KeyInfo
stale = record { model_access_mode = []; model_group_ids = []; allowed_models = codes "Old" ∷ [] }

-- A bare name of a group grants the provider's model; wildcards match prefixes and suffixes.
by_bare_name : is_model_allowed (some manager) (some grouped) (codes "openai/GPT-4o") ≡ true
unfolding is_model_allowed filter_available get_models_for_groups
by_bare_name = refl

prefix : match_model_pattern (codes "openai/*") (codes "OpenAI/o1") ≡ true
unfolding match_model_pattern
prefix = refl

suffix : match_model_pattern (codes "*.flash") (codes "gemini-2.flash") ≡ true
unfolding match_model_pattern
suffix = refl

-- "claude" is removed at one provider and present at another.
abbrev mixed : Availability
mixed = record {
  present = codes "openai/gpt-4o" ∷ codes "first/claude" ∷ [];
  removed = codes "other/Claude" ∷ codes "old" ∷ [];
}

abbrev mixed_manager : Manager
mixed_manager = record { group_cache = cache; avail = some mixed }

claude_usable :
    Lists (get_effective_allowed_models (some mixed_manager) (some grouped)) (codes "claude")
unfolding get_effective_allowed_models get_models_for_groups filter_available is_unavailable
claude_usable = refl

claude_named : Names (codes "claude") (codes "other/Claude")
unfolding equal_fold
claude_named = bare (codes "other") (codes "Claude") refl refl refl refl

claude_bare : equal_fold (codes "claude") (codes "all") ≡ false
unfolding equal_fold
claude_bare = refl

effective-Names_example :
    (id : Text) × Lists (codes "openai/gpt-4o" ∷ codes "first/claude" ∷ []) id
    × Names (codes "claude") id
unfolding trim_space text_eq
effective-Names_example =
    effective-Names mixed_manager mixed (some grouped) (codes "claude") (codes "other/Claude") refl
      claude_usable refl refl claude_bare refl claude_named

removed_only_denied_example : is_model_allowed (some manager) (some stale) (codes "old") ≡ false
unfolding is_unavailable access_mode
removed_only_denied_example =
    removed_only_denied manager models stale (codes "old") refl refl refl refl refl
