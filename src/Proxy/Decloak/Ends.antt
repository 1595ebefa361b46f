-- ===== src/Proxy/Decloak/Ends.antt =====
-- One round of `StripCloakSuffix`: the suffix at the end of a name.
use mathlib.Core.List.{reverse-append}
use nineguard.Base.{
  ◌≡◌, sym, ap, ◌∙◌, ◌⊎◌, inl, inr, [], ◌∷◌, ◌++◌, some, Bool, true, false, ◌<◌, ltb, lt→ltb, arith,
  Bool-cases, length, length-append,
}
use nineguard.Base.Text.{Text, codes, has_suffix, has_prefix, trim_suffix}
use nineguard.Proxy.Decloak.{ide, cc_suffix, ends_in, strip_one}
use nineguard.Proxy.Decloak.Suffixes.{trim_suffix-append, has_suffix-append, trim_suffix-undo}

-- The suffix that is taken off, of the two.
abbrev pub suffix_of : Bool → Text
suffix_of true = codes "_ide"
suffix_of false = codes "_cc"

-- A suffix that is taken off was the end of the name, and left something.
pub strip_one-some :
    (cur cur' : Text)
    → strip_one cur ≡ some cur'
    → ((cur ≡ cur' ++ ide) ⊎ (cur ≡ cur' ++ cc_suffix))
unfolding strip_one
strip_one-some cur cur' h = elim (Bool-cases (ends_in cur ide)) [
  | inl e ↦ inl (ended ide (ends-suffix cur ide e) (rw e at h))
  | inr e ↦ elim (Bool-cases (ends_in cur cc_suffix)) [
    | inl f ↦ inr (ended cc_suffix (ends-suffix cur cc_suffix f) (rw (e, f) at h))
    | inr f ↦ cc (rw (e, f) at h)
  ]
]
  where
    ends-suffix : (s t : Text) → ends_in s t ≡ true → has_suffix s t ≡ true
    ends-suffix s t e = ground arith

    some_injective : {a b : Text} → some a ≡ some b → a ≡ b
    some_injective e = cc

    ended :
        (t : Text)
        → has_suffix cur t ≡ true
        → some (trim_suffix cur t) ≡ some cur'
        → cur ≡ cur' ++ t
    ended t ends same = sym (trim_suffix-append cur t ends) ∙ ap (λ x. x ++ t) (some_injective same)

pub strip_one-shorter : (cur cur' : Text) → strip_one cur ≡ some cur' → length cur' < length cur
strip_one-shorter cur cur' h = elim (strip_one-some cur cur' h) [
  | inl e ↦ let size = ap length e in omega (arith, size, length-append cur' ide)
  | inr e ↦ let size = ap length e in omega (arith, size, length-append cur' cc_suffix)
]

ends_in-append : (x t : Text) → 0 < length x → ends_in (x ++ t) t ≡ true
ends_in-append x t pos =
    rw (
      lt→ltb (length t) (length (x ++ t)) (omega (arith, length-append x t)),
      has_suffix-append x t,
    )

cc-not_ide : (x : Text) → has_suffix (x ++ cc_suffix) ide ≡ false
unfolding has_suffix has_prefix
cc-not_ide x = rw (reverse-append x cc_suffix)

cc-not_ends_in : (x : Text) → ends_in (x ++ cc_suffix) ide ≡ false
cc-not_ends_in x = elim (Bool-cases (ltb (length ide) (length (x ++ cc_suffix)))) [
  | inl e ↦ rw (e, cc-not_ide x)
  | inr e ↦ rw e
]

pub strip_one-cloak : (k : Bool) (x : Text) → 0 < length x → strip_one (x ++ suffix_of k) ≡ some x
unfolding strip_one
strip_one-cloak true x pos = rw (ends_in-append x ide pos, trim_suffix-undo x ide)
strip_one-cloak false x pos =
    rw (cc-not_ends_in x, ends_in-append x cc_suffix pos, trim_suffix-undo x cc_suffix)

pub strip_one-positive : (cur x : Text) → strip_one cur ≡ some x → 0 < length x
unfolding strip_one has_suffix has_prefix
strip_one-positive cur (c ∷ x) h = omega arith
strip_one-positive cur [] h = elim (strip_one-some cur [] h) [
  | inl e ↦ cc (sym (ap strip_one e) ∙ h)
  | inr e ↦ cc (sym (ap strip_one e) ∙ h)
]
