-- ===== src/Upstream/Pool.antt =====
-- internal/upstream/pool.go: the names of sub-providers, and which pools and buckets a key may see.
-- `MergedPoolQuota` has the fields that are read here.
pub mod Visible
pub mod Variants
mod Examples
use nineguard.Base.{
  ℕ, ◌-◌, List, [], ◌∷◌, Option, none, some, Bool, true, false, not, ◌&&◌, ◌||◌, leb, if◌then◌else◌,
  any, all, filter,
}
use nineguard.Base.Text.{
  Text, codes, text_eq, trim_space, equal_fold, to_lower, has_prefix, contains, trim_prefix,
  is_blank,
}
use nineguard.Upstream.Alert.{QuotaBucket, ConnectionQuota}

pub record MergedPoolQuota : Type 0 where
  pub family : Text
  pub buckets : List QuotaBucket
  pub allowed_models : List Text

-- The names that have a fixed form, each with the lower-case texts that stand for it.
abbrev known_names : List (Text × List Text)
known_names =
    (codes "Antigravity", codes "antigravity" ∷ [])
    ∷ (codes "Copilot", codes "copilot" ∷ codes "github_copilot" ∷ codes "github-copilot" ∷ [])
    ∷ (codes "Anthropic", codes "anthropic" ∷ codes "claude" ∷ [])
    ∷ (codes "Google", codes "google" ∷ codes "gemini" ∷ [])
    ∷ (codes "OpenAI", codes "openai" ∷ codes "codex" ∷ [])
    ∷ (codes "DeepSeek", codes "deepseek" ∷ [])
    ∷ (codes "Mistral", codes "mistral" ∷ [])
    ∷ (codes "Groq", codes "groq" ∷ [])
    ∷ (codes "OpenRouter", codes "openrouter" ∷ [])
    ∷ (codes "Kiro", codes "kiro" ∷ [])
    ∷ []

abbrev upper_byte : ℕ → ℕ
upper_byte c = if leb b'a' c && leb c b'z' then c - 32 else c

abbrev capitalised : Text → Text
capitalised [] = []
capitalised (c ∷ s) = upper_byte c ∷ s

-- The `switch`: the first case that lists the text.
abbrev name_of : List (Text × List Text) → Text → Text → Text
name_of [] lower s = capitalised s
name_of ((name, texts) ∷ rest) lower s =
    if any (text_eq lower) texts then name else name_of rest lower s

-- `FormatSubProviderName`, for names that begin with an ASCII character.
unfoldable pub format_sub_provider_name : Text → Text
unfolding text_eq to_lower trim_space
format_sub_provider_name raw = let s = trim_space raw in name_of known_names (to_lower s) s

-- What follows the first occurrence of `sep`, if there is one.
unfoldable pub after_text : Text → Text → Option Text
unfolding has_prefix trim_prefix
after_text s [] = some s
after_text [] (d ∷ sep) = none
after_text (c ∷ s) (d ∷ sep) =
    let later = after_text s (d ∷ sep) in
    if has_prefix (c ∷ s) (d ∷ sep) then some (trim_prefix (c ∷ s) (d ∷ sep)) else later

-- " · " in UTF-8.
abbrev middle_dot : Text
middle_dot = 32 ∷ 194 ∷ 183 ∷ 32 ∷ []

abbrev or_plan : Text → Text → Text
or_plan raw plan =
    if not (is_blank raw)
    then raw
    else if not (is_blank plan)
        && not (equal_fold plan (codes "Shared Upstream Pool"))
        && not (contains (to_lower plan) (codes "budget"))
    then plan
    else raw

abbrev trimmed : Option Text → Text
trimmed none = []
trimmed (some s) = trim_space s

abbrev or_label : Text → Text → Text
or_label raw label = if not (is_blank raw) then raw else trimmed (after_text label middle_dot)

unfoldable pub resolve_sub_provider : ConnectionQuota → Text × Text
unfolding trim_space equal_fold contains to_lower after_text format_sub_provider_name
resolve_sub_provider conn =
    let raw =
      or_label (or_plan (trim_space conn.provider) (trim_space conn.plan)) conn.account_label in
    if is_blank raw then ([], []) else (to_lower raw, format_sub_provider_name raw)

abbrev pub specific_variants : List Text
specific_variants =
    codes "opus"
    ∷ codes "sonnet"
    ∷ codes "haiku"
    ∷ codes "gpt-oss"
    ∷ codes "oss"
    ∷ codes "image"
    ∷ []

abbrev pub families : List Text
families =
    codes "gemini"
    ∷ codes "claude"
    ∷ codes "gpt"
    ∷ codes "deepseek"
    ∷ codes "qwen"
    ∷ codes "mistral"
    ∷ codes "llama"
    ∷ codes "codex"
    ∷ codes "copilot"
    ∷ codes "kiro"
    ∷ []

-- Some allowed model has this word in its name.
unfoldable pub has_word : List Text → Text → Bool
unfolding contains to_lower
has_word models word = any (λ am. contains (to_lower am) word) models

-- The two loops of `isBucketAllowed`, on the lower-case name.
unfoldable pub variants_held : Text → List Text → List Text → Bool
variants_held name models [] = true
variants_held name models (v ∷ vs) =
    let rest = variants_held name models vs in
    if contains name v then (if not (has_word models v) then false else rest) else rest

unfoldable pub family_held : Text → List Text → Bool → List Text → Bool
family_held name models found [] = not found
family_held name models found (f ∷ fs) =
    let rest = family_held name models found fs in
    let rest_found = family_held name models true fs in
    if contains name f then (if has_word models f then true else rest_found) else rest

unfoldable pub is_bucket_allowed : Text → List Text → Bool
is_bucket_allowed name models =
    let lower = to_lower name in
    if contains lower (codes "credit") || contains lower (codes "balance")
    then true
    else if not (variants_held lower models specific_variants)
    then false
    else family_held lower models false families

abbrev pub none_left {ℓ} : {A : Type ℓ} → List A → Bool
none_left [] = true
none_left (x ∷ xs) = false

-- Some model of the pool is allowed, if the pool lists any.
unfoldable pub pool_matches : List Text → List Text → Bool
unfolding equal_fold has_prefix to_lower
pool_matches pool_models models =
    none_left pool_models
    || any (λ pm. any (λ am. equal_fold pm am || has_prefix (to_lower am) (to_lower pm)) models)
        pool_models

abbrev pub kept_buckets :
    MergedPoolQuota → List QuotaBucket → List MergedPoolQuota → List MergedPoolQuota
kept_buckets pool [] rest = rest
kept_buckets pool (b ∷ bs) rest = record pool { buckets = b ∷ bs } ∷ rest

-- The body of the loop over the pools.
unfoldable pub filter_pool :
    List Text → MergedPoolQuota → List MergedPoolQuota → List MergedPoolQuota
filter_pool models pool rest =
    if not (pool_matches pool.allowed_models models)
    then rest
    else if none_left pool.buckets
    then pool ∷ rest
    else kept_buckets pool (filter (λ b. is_bucket_allowed b.name models) pool.buckets) rest

unfoldable pub filter_pools : List Text → List MergedPoolQuota → List MergedPoolQuota
filter_pools models [] = []
filter_pools models (pool ∷ pools) = filter_pool models pool (filter_pools models pools)

unfoldable pub filter_pools_by_model_access :
    List MergedPoolQuota → List Text → List MergedPoolQuota
filter_pools_by_model_access pools models =
    if none_left models
    then pools
    else if any (λ m. text_eq m (codes "*")) models
    then pools
    else filter_pools models pools
