-- ===== src/Keys/Page.antt =====
-- internal/keys/page.go: the options of a page of keys, and the escape of its search text. The query
-- itself is SQL text.
pub mod Options
mod Examples
use nineguard.Base.{
  ℕ, ℤ, pos, negsuc, zero, suc, ltz, ◌+◌, ◌-◌, List, [], ◌∷◌, ◌++◌, Option, none, some, Bool, true,
  false, not, ltb, leb, ◌==◌, if◌then◌else◌, any,
}
use nineguard.Base.Text.{Text, codes, text_eq, trim_space, to_lower, is_blank}

pub record ListOptions : Type 0 where
  pub page : ℤ
  pub limit : ℤ
  pub sort : Text
  pub order : Text
  pub query : Text
  pub status : Text
  pub mode : Text

abbrev pub allowed_limits : List ℕ
allowed_limits = 10 ∷ 25 ∷ 50 ∷ 100 ∷ []

abbrev pub sort_fields : List Text
sort_fields =
    codes "name"
    ∷ codes "status"
    ∷ codes "created"
    ∷ codes "last_active"
    ∷ codes "requests"
    ∷ codes "tokens"
    ∷ []

abbrev pub sort_orders : List Text
sort_orders = codes "asc" ∷ codes "desc" ∷ []

abbrev pub status_filters : List Text
status_filters = codes "all" ∷ codes "active" ∷ codes "disabled" ∷ []

abbrev pub mode_filters : List Text
mode_filters = codes "any" ∷ codes "all" ∷ codes "group" ∷ codes "custom" ∷ []

-- `abs(n - l)`.
abbrev pub distance : ℕ → ℕ → ℕ
distance n l = (n - l) + (l - n)

unfoldable pub nearest : ℕ → ℕ → List ℕ → ℕ
nearest n best [] = best
nearest n best (l ∷ ls) = nearest n (if ltb (distance n l) (distance n best) then l else best) ls

unfoldable pub clamp_limit : ℤ → ℕ
unfolding nearest
clamp_limit (pos (suc n)) = nearest (suc n) 10 allowed_limits
clamp_limit _ = 25

abbrev pub one_of : Text → List Text → Bool
one_of v allowed = any (λ a. text_eq v a) allowed

-- One turn of the loop of `Normalize`: the value, or `none` for one that is not allowed.
unfoldable pub normal_field : Text → List Text → Text → Option Text
unfolding trim_space to_lower text_eq
normal_field def allowed raw =
    let v = to_lower (trim_space raw) in
    let value = if is_blank v then def else v in if one_of value allowed then some value else none

-- The parameter that an error names.
pub data Parameter : Type 0 where
  sort_parameter order_parameter status_parameter mode_parameter : Parameter

pub data Normal : Type 0 where
  invalid : Parameter → Normal
  normal : ListOptions → Normal

abbrev pub with_fields :
    ListOptions → Option Text → Option Text → Option Text → Option Text → Normal
with_fields o none _ _ _ = invalid sort_parameter
with_fields o (some s) none _ _ = invalid order_parameter
with_fields o (some s) (some d) none _ = invalid status_parameter
with_fields o (some s) (some d) (some t) none = invalid mode_parameter
with_fields o (some s) (some d) (some t) (some m) =
    normal (record o { sort = s; order = d; status = t; mode = m; query = trim_space o.query })

unfoldable pub normalize : ListOptions → Normal
unfolding clamp_limit normal_field
normalize o =
    with_fields
      (record o {
        page = if ltz o.page (pos 1) then pos 1 else o.page;
        limit = pos (clamp_limit o.limit);
      })
      (normal_field (codes "last_active") sort_fields o.sort)
      (normal_field (codes "desc") sort_orders o.order)
      (normal_field (codes "all") status_filters o.status)
      (normal_field (codes "any") mode_filters o.mode)

abbrev pub is_wildcard : ℕ → Bool
is_wildcard c = if c == b'%' then true else c == b'_'

-- `likeEscape`: its first pair replaces a backslash by one backslash.
unfoldable pub like_escape : Text → Text
like_escape [] = []
like_escape (c ∷ s) =
    let rest = like_escape s in if is_wildcard c then b'\\' ∷ c ∷ rest else c ∷ rest
