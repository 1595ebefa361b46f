-- ===== src/Proxy/Decloak/Strip.antt =====
-- What `StripCloakSuffix` takes off a name.
use nineguard.Base.{
  ℕ, zero, suc, ◌≤◌, ◌≢◌, ◌<◌, ◌≡◌, refl, sym, ap, subst, ◌∙◌, ◌⊎◌, inl, inr, List, [], ◌∷◌, ◌++◌,
  none, some, true, false, arith, Bool-cases, Option-cases, length, length-append,
}
use nineguard.Base.Text.{Text, codes}
use nineguard.Proxy.Decloak.{
  offers, nothing_offered, strip_one, Stripped, offered_name, bare, strip_loop, stripped_or,
  strip_cloak_suffix,
}
use nineguard.Proxy.Decloak.Ends.{
  strip_one-some, strip_one-positive, strip_one-shorter, strip_one-cloak,
}

-- `base` with suffixes after it.
pub data Cloaked (base : Text) : Text → Type 0 where
  plain : Cloaked base base
  with_ide : {n m : Text} → Cloaked base n → m ≡ n ++ codes "_ide" → Cloaked base m
  with_cc : {n m : Text} → Cloaked base n → m ≡ n ++ codes "_cc" → Cloaked base m

-- With more fuel than the name is long, the loop ends.
pub strip_loop-ends :
    (offered : List Text) (f : ℕ) (cur : Text)
    → length cur < f
    → (r : Stripped) × (strip_loop offered f cur ≡ some r)
unfolding strip_loop
strip_loop-ends offered zero cur lt = absurd (omega arith)
strip_loop-ends offered (suc f) cur lt = elim (Option-cases (strip_one cur)) [
  | inl stop ↦ (bare cur, rw stop)
  | inr (cur', step) ↦ elim (Bool-cases (offers offered cur')) [
    | inl found ↦ (offered_name cur', rw (step, found))
    | inr on ↦
        let (r, e) =
          strip_loop-ends offered f cur' (omega (arith, strip_one-shorter cur cur' step)) in
        (r, rw (step, on) e)
  ]
]

Cloaked-length : {x m : Text} → Cloaked x m → length x ≤ length m
Cloaked-length plain = omega arith
Cloaked-length (with_ide {n = n} h e) =
    omega (arith, Cloaked-length h, ap length e, length-append n (codes "_ide"))
Cloaked-length (with_cc {n = n} h e) =
    omega (arith, Cloaked-length h, ap length e, length-append n (codes "_cc"))

-- The round before a cloaked name.
strip_one-Cloaked :
    (x cur : Text)
    → 0 < length x
    → Cloaked x cur
    → (x ≡ cur) ⊎ ((n : Text) × Cloaked x n × (strip_one cur ≡ some n))
strip_one-Cloaked x cur pos plain = inl refl
strip_one-Cloaked x cur pos (with_ide {n = n} h e) =
    inr (n, h, ap strip_one e ∙ strip_one-cloak true n (omega (arith, Cloaked-length h)))
strip_one-Cloaked x cur pos (with_cc {n = n} h e) =
    inr (n, h, ap strip_one e ∙ strip_one-cloak false n (omega (arith, Cloaked-length h)))

-- No suffix after a name that is not empty.
abbrev pub Bare : Text → Type 0
Bare r = (x : Text) → 0 < length x → (r ≢ x ++ codes "_ide") × (r ≢ x ++ codes "_cc")

strip_one-Bare : (r : Text) → strip_one r ≡ none → Bare r
strip_one-Bare r stop x pos = (
  (λ e. cc (sym stop ∙ ap strip_one e ∙ strip_one-cloak true x pos)),
  (λ e. cc (sym stop ∙ ap strip_one e ∙ strip_one-cloak false x pos)),
)

pub Bare-strip_one : (r : Text) → Bare r → strip_one r ≡ none
Bare-strip_one r bare_r = elim (Option-cases (strip_one r)) [
  | inl stop ↦ stop
  | inr (x, step) ↦
      let (no_ide, no_cc) = bare_r x (strip_one-positive r x step) in
      elim (strip_one-some r x step) [ inl e ↦ absurd (no_ide e) | inr e ↦ absurd (no_cc e) ]
]

-- Of the names that `cur` is a cloaked form of, none but itself is offered.
abbrev Passed : List Text → Text → Type 0
Passed offered cur =
    (x : Text) → 0 < length x → Cloaked x cur → (x ≡ cur) ⊎ (offers offered x ≡ false)

bare-Passed : (offered : List Text) (cur : Text) → strip_one cur ≡ none → Passed offered cur
bare-Passed offered cur stop x pos h = elim (strip_one-Cloaked x cur pos h) [
  | inl same ↦ inl same
  | inr (n, under, step) ↦ cc (sym stop ∙ step)
]

Passed-step :
    (offered : List Text) (cur cur' : Text)
    → strip_one cur ≡ some cur'
    → offers offered cur' ≡ false
    → Passed offered cur'
    → Passed offered cur
Passed-step offered cur cur' step on rest x pos h = elim (strip_one-Cloaked x cur pos h) [
  | inl same ↦ inl same
  | inr (n, under, back) ↦
      let same : n ≡ cur' = some_injective (sym back ∙ step) in
      elim (rest x pos (subst (Cloaked x) same under)) [
        | inl e ↦ inr (ap (offers offered) e ∙ on)
        | inr e ↦ inr e
      ]
]
  where
    some_injective : {a b : Text} → some a ≡ some b → a ≡ b
    some_injective e = cc

-- What the loop found, read from the result.
abbrev Found : List Text → Text → Stripped → Type 0
Found offered cur (offered_name r) = (offers offered r ≡ true) × Cloaked r cur
Found offered cur (bare r) = (strip_one r ≡ none) × Cloaked r cur × Passed offered cur

recloak : (base cur cur' : Text) → strip_one cur ≡ some cur' → Cloaked base cur' → Cloaked base cur
recloak base cur cur' step h = elim (strip_one-some cur cur' step) [
  | inl e ↦ with_ide h e
  | inr e ↦ with_cc h e
]

recloak-Found :
    (offered : List Text) (cur cur' : Text) (r : Stripped)
    → strip_one cur ≡ some cur'
    → offers offered cur' ≡ false
    → Found offered cur' r
    → Found offered cur r
recloak-Found offered cur cur' (offered_name r) step on h = (h.0, recloak r cur cur' step h.1)
recloak-Found offered cur cur' (bare r) step on (stop, under, rest) =
    (stop, recloak r cur cur' step under, Passed-step offered cur cur' step on rest)

strip_loop-Found :
    (offered : List Text) (f : ℕ) (cur : Text) (r : Stripped)
    → strip_loop offered f cur ≡ some r
    → Found offered cur r
unfolding strip_loop
strip_loop-Found offered zero cur r h = cc
strip_loop-Found offered (suc f) cur r h = elim (Option-cases (strip_one cur)) [
  | inl stop ↦
      subst (Found offered cur) (some_injective (rw stop at h))
        (stop, plain, bare-Passed offered cur stop)
  | inr (cur', step) ↦ elim (Bool-cases (offers offered cur')) [
    | inl found ↦
        subst (Found offered cur) (some_injective (rw (step, found) at h))
          (found, recloak cur' cur cur' step plain)
    | inr on ↦
        recloak-Found offered cur cur' r step on
          (strip_loop-Found offered f cur' r (rw (step, on) at h))
  ]
]
  where
    some_injective : {a b : Stripped} → some a ≡ some b → a ≡ b
    some_injective e = cc

pub none-offers :
    (offered : List Text) (name : Text)
    → nothing_offered offered ≡ true
    → offers offered name ≡ false
none-offers [] name h = refl
none-offers (t ∷ ts) name h = cc

-- What the name is replaced by.
abbrev pub Decloaks : List Text → Text → Text → Type 0
Decloaks offered name r =
    Cloaked r name
    × (nothing_offered offered ≡ true → Bare r)
    × (nothing_offered offered ≡ false
        → (offers offered r ≡ true)
          ⊎ ((r ≡ name) × ((x : Text) → 0 < length x → Cloaked x name → offers offered x ≡ false)))

differ : true ≡ false → ⊥
differ e = cc

stripped_or-Decloaks :
    (offered : List Text) (name : Text) (r : Stripped)
    → offers offered name ≡ false
    → Found offered name r
    → Decloaks offered name (stripped_or offered name (some r))
stripped_or-Decloaks offered name (offered_name r) new (known, h) =
    (h, (λ e. absurd (differ (sym known ∙ none-offers offered r e))), λ e. inl known)
stripped_or-Decloaks offered name (bare r) new (stop, h, rest) =
    elim (Bool-cases (nothing_offered offered)) [
      | inl e ↦ rw e (h, (λ x. strip_one-Bare r stop), λ x. absurd (differ x))
      | inr e ↦ rw e (plain, (λ x. absurd (differ (sym x))), λ x. inr (refl, none_fits))
    ]
  where
    none_fits : (x : Text) → 0 < length x → Cloaked x name → offers offered x ≡ false
    none_fits x pos under = elim (rest x pos under) [
      | inl e ↦ ap (offers offered) e ∙ new
      | inr e ↦ e
    ]

-- StripCloakSuffix always ends. What it returns is the name without some of its suffixes. With no
-- offered tools it ends in neither `_ide` nor `_cc` after something else. Otherwise it is an offered
-- tool; or it is the name itself, and then no non-empty name of which that is a cloaked form is offered.
pub strip_cloak_suffix-Decloaks :
    (name : Text) (offered : List Text)
    → ((r : Stripped) × (strip_loop offered (suc (length name)) name ≡ some r))
      × Decloaks offered name (strip_cloak_suffix name offered)
unfolding strip_cloak_suffix
strip_cloak_suffix-Decloaks name offered =
    let (r, ends) = strip_loop-ends offered (suc (length name)) name (omega arith) in
    (
      (r, ends),
      elim (Bool-cases (offers offered name)) [
        | inl e ↦
            rw e (plain, (λ x. absurd (differ (sym e ∙ none-offers offered name x))), λ x. inl e)
        | inr e ↦
            rw (e, ends)
              (stripped_or-Decloaks offered name r e
                (strip_loop-Found offered (suc (length name)) name r ends))
      ],
    )
