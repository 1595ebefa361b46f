-- ===== src/Proxy/Fallback/Throttle.antt =====
-- Fallback warnings about one key, model and served model are an interval apart.
use nineguard.Base.{
  ℕ, ◌+◌, ◌*◌, ◌≤◌, ◌<◌, ◌≡◌, refl, sym, ap, subst, ◌∙◌, ◌⊎◌, inl, inr, List, [], ◌∷◌, Option, none,
  some, Bool, true, false, ◌&&◌, arith, ltb, leb, ltb→lt, if◌then◌else◌, length, Bool-cases,
}
use nineguard.Base.Text.{Text, text_eq, text_eq→eq, text_eq_refl}
use nineguard.Proxy.Fallback.{
  FallbackAlerter, new_fallback_alerter, lookup, put, prune, clean, throttled, alert_for,
}

lookup-put :
    (key k : Text) (now : ℕ) (m : List (Text × ℕ))
    → text_eq key k ≡ false
    → lookup key (put k now m) ≡ lookup key m
unfolding lookup put
lookup-put key k now [] h = rw h refl
lookup-put key k now ((j, t) ∷ m) h = elim (Bool-cases (text_eq k j)) [
  | inl e ↦ let same = text_eq→eq k j e in rw (e, ← same, h) refl
  | inr e ↦ rw e (ap (λ o. if text_eq key j then some t else o) (lookup-put key k now m h))
]

lookup-put_self :
    (key : Text) (now : ℕ) (m : List (Text × ℕ)) → lookup key (put key now m) ≡ some now
unfolding lookup put
lookup-put_self key now [] = rw (text_eq_refl key) refl
lookup-put_self key now ((j, t) ∷ m) = elim (Bool-cases (text_eq key j)) [
  | inl e ↦ rw (e, e) refl
  | inr e ↦ rw (e, e) (lookup-put_self key now m)
]

-- What the clean-up does to a lookup: nothing, or the entry was two intervals old.
abbrev Cleaned : ℕ → ℕ → Option ℕ → Option ℕ → Type 0
Cleaned now interval before later =
    (later ≡ before) ⊎ ((t : ℕ) × (before ≡ some t) × (t + 2 * interval < now))

lookup-prune :
    (key : Text) (now interval : ℕ) (m : List (Text × ℕ))
    → Cleaned now interval (lookup key m) (lookup key (prune now interval m))
unfolding lookup prune
lookup-prune key now interval [] = inl refl
lookup-prune key now interval ((j, t) ∷ m) = elim (Bool-cases (ltb (t + 2 * interval) now)) [
  | inl stale ↦ elim (Bool-cases (text_eq key j)) [
    | inl e ↦ rw (stale, e) (inr (t, refl, ltb→lt (t + 2 * interval) now stale))
    | inr e ↦ rw (stale, e) (lookup-prune key now interval m)
  ]
  | inr young ↦ elim (Bool-cases (text_eq key j)) [
    | inl e ↦ rw (young, e) (inl refl)
    | inr e ↦ rw (young, e) (lookup-prune key now interval m)
  ]
]

lookup-clean :
    (key : Text) (now interval : ℕ) (m : List (Text × ℕ))
    → Cleaned now interval (lookup key m) (lookup key (clean now interval m))
unfolding clean
lookup-clean key now interval m = elim (Bool-cases (ltb 100 (length m))) [
  | inl e ↦ rw e (lookup-prune key now interval m)
  | inr e ↦ rw e (inl refl)
]

-- A call of `Alert`, with the instant it reads.
pub record Call : Type 0 where
  pub at : ℕ
  pub key : Text

-- The clock does not go back.
abbrev pub Ordered : ℕ → List Call → Type 0
Ordered from [] = Unit {0}
Ordered from (c ∷ cs) = (from ≤ c.at) × Ordered c.at cs

-- The instants at which the calls for `key` warned.
unfoldable pub warned_at : Text → FallbackAlerter → List Call → List ℕ
warned_at key a [] = []
warned_at key a (c ∷ cs) =
    let (a', warned) = alert_for a c.key c.at in
    let rest = warned_at key a' cs in if text_eq key c.key && warned then c.at ∷ rest else rest

-- Each instant is at least an interval after the one before it.
abbrev pub okay : ℕ → Option ℕ → ℕ → Bool
okay interval none t = true
okay interval (some last) t = leb (last + interval) t

abbrev pub spaced : ℕ → Option ℕ → List ℕ → Bool
spaced interval last [] = true
spaced interval last (t ∷ ts) = okay interval last t && spaced interval (some t) ts

-- The map knows the last warning, or the last warning is over an interval old.
abbrev Knows : Text → FallbackAlerter → Option ℕ → ℕ → Type 0
Knows key a last now =
    (lookup key a.last_warn ≡ last) ⊎ ((l : ℕ) × (last ≡ some l) × (l + a.interval ≤ now))

later-Knows :
    (key : Text) (a : FallbackAlerter) (last : Option ℕ) (n now : ℕ)
    → n ≤ now
    → Knows key a last n
    → Knows key a last now
later-Knows key a last n now h (inl e) = inl e
later-Knows key a last n now h (inr (l, e, k)) = inr (l, e, omega (arith, h, k))

known-okay :
    (key : Text) (a : FallbackAlerter) (last : Option ℕ) (now : ℕ)
    → Knows key a last now
    → throttled (lookup key a.last_warn) a.interval now ≡ false
    → okay a.interval last now ≡ true
known-okay key a none now k h = refl
known-okay key a (some l) now (inl e) h = okay_of (lookup key a.last_warn) e h
  where
    okay_of :
        (o : Option ℕ)
        → o ≡ some l
        → throttled o a.interval now ≡ false
        → leb (l + a.interval) now ≡ true
    okay_of o e h = ground arith
known-okay key a (some l) now (inr (m, e, k)) h = ground (arith, e, k)

abbrev warned_state : FallbackAlerter → Text → ℕ → FallbackAlerter
warned_state a key now = record a { last_warn = clean now a.interval (put key now a.last_warn) }

warned-Knows :
    (key : Text) (a : FallbackAlerter) (now : ℕ) → Knows key (warned_state a key now) (some now) now
warned-Knows key a now = elim (lookup-clean key now a.interval (put key now a.last_warn)) [
  | inl e ↦ inl (e ∙ lookup-put_self key now a.last_warn)
  | inr (t, e, old) ↦
      let same = sym (lookup-put_self key now a.last_warn) ∙ e in absurd (ground (arith, same, old))
]

other-Knows :
    (key k : Text) (a : FallbackAlerter) (last : Option ℕ) (now : ℕ)
    → text_eq key k ≡ false
    → Knows key a last now
    → Knows key (warned_state a k now) last now
other-Knows key k a last now other (inr old) = inr old
other-Knows key k a last now other (inl e) =
    elim (lookup-clean key now a.interval (put k now a.last_warn)) [
      | inl same ↦ inl (same ∙ (lookup-put key k now a.last_warn other ∙ e))
      | inr (t, was, old) ↦
          inr (t, sym e ∙ (sym (lookup-put key k now a.last_warn other) ∙ was), omega (arith, old))
    ]

spaced-Knows :
    (key : Text) (a : FallbackAlerter) (last : Option ℕ) (n : ℕ) (cs : List Call)
    → Ordered n cs
    → Knows key a last n
    → spaced a.interval last (warned_at key a cs) ≡ true
unfolding warned_at alert_for
spaced-Knows key a last n [] o k = refl
spaced-Knows key a last n (c ∷ cs) (le, o) k =
    let known = later-Knows key a last n c.at le k in
    elim (Bool-cases (throttled (lookup c.key a.last_warn) a.interval c.at)) [
      | inl quiet ↦ elim (Bool-cases (text_eq key c.key)) [
        | inl e ↦ rw (quiet, e) (spaced-Knows key a last c.at cs o known)
        | inr e ↦ rw (quiet, e) (spaced-Knows key a last c.at cs o known)
      ]
      | inr loud ↦ elim (Bool-cases (text_eq key c.key)) [
        | inl e ↦
            let same = text_eq→eq key c.key e in
            let okay_now = known-okay key a last c.at known (
              subst (λ k. throttled (lookup k a.last_warn) a.interval c.at ≡ false) (sym same)
                loud) in
            let rest = spaced-Knows key (warned_state a c.key c.at) (some c.at) c.at cs o (
              subst (λ k. Knows key (warned_state a k c.at) (some c.at) c.at) same
                (warned-Knows key a c.at)) in
            rw (loud, e, okay_now) rest
        | inr e ↦
            rw (loud, e)
              (spaced-Knows key (warned_state a c.key c.at) last c.at cs o
                (other-Knows key c.key a last c.at e known))
      ]
    ]

-- Whatever the calls, under a clock that does not go back, the warnings of a new alerter about one
-- key of its map are at least an interval apart.
pub warnings_spaced :
    (interval n : ℕ) (key : Text) (cs : List Call)
    → Ordered n cs
    → spaced
        (new_fallback_alerter interval).interval
        none
        (warned_at key (new_fallback_alerter interval) cs)
      ≡ true
unfolding new_fallback_alerter lookup
warnings_spaced interval n key cs o =
    spaced-Knows key (new_fallback_alerter interval) none n cs o (inl refl)
