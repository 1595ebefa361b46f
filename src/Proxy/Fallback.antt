-- ===== src/Proxy/Fallback.antt =====
-- internal/proxy/fallback.go: `FallbackAlerter`. The map is a list of entries, of which the code
-- reads the size. Instants and the interval are nanoseconds.
pub mod Throttle
use nineguard.Base.{
  ℕ, ◌+◌, ◌*◌, List, [], ◌∷◌, ◌++◌, Option, none, some, Bool, true, false, not, ◌==◌, ltb,
  if◌then◌else◌, length, filter,
}
use nineguard.Base.Text.{Text, codes, text_eq}

pub record FallbackAlerter : Type 0 where
  pub last_warn : List (Text × ℕ)
  pub interval : ℕ

-- `NewFallbackAlerter`; an interval that is not positive is 0 here.
unfoldable pub new_fallback_alerter : ℕ → FallbackAlerter
new_fallback_alerter interval = record {
  last_warn = [];
  interval = if interval == 0 then 600000000000 else interval;
}

unfoldable pub lookup : Text → List (Text × ℕ) → Option ℕ
lookup key [] = none
lookup key ((k, t) ∷ m) = if text_eq key k then some t else lookup key m

unfoldable pub put : Text → ℕ → List (Text × ℕ) → List (Text × ℕ)
put key now [] = (key, now) ∷ []
put key now ((k, t) ∷ m) =
    let rest = put key now m in if text_eq key k then (k, now) ∷ m else (k, t) ∷ rest

-- The entries that the clean-up keeps: not before `now` less two intervals.
unfoldable pub prune : ℕ → ℕ → List (Text × ℕ) → List (Text × ℕ)
prune now interval [] = []
prune now interval ((k, t) ∷ m) =
    let rest = prune now interval m in if ltb (t + 2 * interval) now then rest else (k, t) ∷ rest

unfoldable pub clean : ℕ → ℕ → List (Text × ℕ) → List (Text × ℕ)
clean now interval m = if ltb 100 (length m) then prune now interval m else m

-- `exists && now.Sub(last) < a.interval`.
abbrev pub throttled : Option ℕ → ℕ → ℕ → Bool
throttled none interval now = false
throttled (some last) interval now = ltb now (last + interval)

unfoldable pub alert_key : Text → Text → Text → Text
alert_key key_id model served = key_id ++ (codes "|" ++ (model ++ (codes "|" ++ served)))

-- `Alert` for the key of its map.
unfoldable pub alert_for : FallbackAlerter → Text → ℕ → FallbackAlerter × Bool
alert_for a key now =
    if throttled (lookup key a.last_warn) a.interval now
    then (a, false)
    else (record a { last_warn = clean now a.interval (put key now a.last_warn) }, true)

unfoldable pub alert : FallbackAlerter → Text → Text → Text → ℕ → FallbackAlerter × Bool
unfolding alert_key
alert a key_id model served now = alert_for a (alert_key key_id model served) now
