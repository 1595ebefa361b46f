-- ===== src/Proxy/Decloak/Cloak.antt =====
-- How `StripCloakSuffix` undoes any number of suffixes.
use nineguard.Base.{
  ℕ, zero, suc, ◌≤◌, ◌<◌, ◌≡◌, List, [], ◌∷◌, ◌++◌, some, Bool, true, false, arith, length,
  length-append,
}
use nineguard.Base.Text.{Text}
use nineguard.Proxy.Decloak.{offers, strip_one, offered_name, strip_loop, strip_cloak_suffix}
use nineguard.Proxy.Decloak.Ends.{suffix_of, strip_one-shorter, strip_one-cloak}

-- A name with suffixes, the last of them first.
abbrev pub cloak : List Bool → Text → Text
cloak [] base = base
cloak (k ∷ ks) base = cloak ks base ++ suffix_of k

-- No name on the way is offered.
abbrev pub Unoffered : List Text → List Bool → Text → Type 0
Unoffered offered [] base = Unit {0}
Unoffered offered (k ∷ ks) base =
    (offers offered (cloak (k ∷ ks) base) ≡ false) × Unoffered offered ks base

length-cloak : (ks : List Bool) (base : Text) → length base ≤ length (cloak ks base)
length-cloak [] base = omega arith
length-cloak (k ∷ ks) base =
    omega (arith, length-cloak ks base, length-append (cloak ks base) (suffix_of k))

strip_loop-cloak :
    (offered : List Text) (k : Bool) (ks : List Bool) (base : Text) (f : ℕ)
    → 0 < length base
    → offers offered base ≡ true
    → Unoffered offered ks base
    → length (cloak (k ∷ ks) base) < f
    → strip_loop offered f (cloak (k ∷ ks) base) ≡ some (offered_name base)
unfolding strip_loop
strip_loop-cloak offered k ks base zero pos known un lt = absurd (omega arith)
strip_loop-cloak offered k [] base (suc f) pos known un lt = rw (strip_one-cloak k base pos, known)
strip_loop-cloak offered k (j ∷ ks) base (suc f) pos known (no_offer, un) lt =
    let shorter = strip_one-shorter (cloak (k ∷ j ∷ ks) base) (cloak (j ∷ ks) base) step in
    rw (step, no_offer) (strip_loop-cloak offered j ks base f pos known un (omega arith))
  where
    step : strip_one (cloak (k ∷ j ∷ ks) base) ≡ some (cloak (j ∷ ks) base)
    step = strip_one-cloak k (cloak (j ∷ ks) base) (omega (arith, length-cloak (j ∷ ks) base))

-- However often an offered name was cloaked, StripCloakSuffix gives it back, if no name on the way is
-- offered too.
pub strip_cloak_suffix-cloak :
    (offered : List Text) (ks : List Bool) (base : Text)
    → 0 < length base
    → offers offered base ≡ true
    → Unoffered offered ks base
    → strip_cloak_suffix (cloak ks base) offered ≡ base
unfolding strip_cloak_suffix
strip_cloak_suffix-cloak offered [] base pos known un = rw known
strip_cloak_suffix-cloak offered (k ∷ ks) base pos known (no_offer, un) = rw (
  no_offer,
  strip_loop-cloak offered k ks base (suc (length (cloak (k ∷ ks) base))) pos known un
      (omega arith),
)
