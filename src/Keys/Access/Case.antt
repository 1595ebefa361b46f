-- ===== src/Keys/Access/Case.antt =====
-- The access check does not depend on the case of the requested model's name.
use nineguard.Base.{
  ℕ, ◌≡◌, refl, ap₂, inl, inr, List, [], ◌∷◌, map, Option, ◌||◌, arith, any, Bool-cases,
}
use nineguard.Base.Text.{
  Text, trim_space, trim_left, is_blank, is_space, lower_byte, to_lower, contains_byte, after_byte,
}
use mathlib.Core.List.{reverse, reverse_aux}
use nineguard.Keys.Access.{
  Manager, KeyInfo, matches, match_model_pattern, get_effective_allowed_models, allowed_by,
  is_model_allowed,
}

lower-lower : (s : Text) → to_lower (to_lower s) ≡ to_lower s
unfolding to_lower
lower-lower [] = refl
lower-lower (c ∷ s) = ap₂ (λ x y. x ∷ y) (lower_byte_idem c) (lower-lower s)
  where
    lower_byte_idem : (c : ℕ) → lower_byte (lower_byte c) ≡ lower_byte c
    lower_byte_idem c = ground arith

lower-slash : (s : Text) → contains_byte (to_lower s) b'/' ≡ contains_byte s b'/'
unfolding to_lower lower_byte
lower-slash [] = refl
lower-slash (c ∷ s) = ground (arith, lower-slash s)

lower-after : (s : Text) → after_byte (to_lower s) b'/' ≡ to_lower (after_byte s b'/')
unfolding to_lower lower_byte after_byte
lower-after [] = refl
lower-after (c ∷ s) = ground (arith, lower-after s)

matches-lower : (allowed model : Text) → matches allowed (to_lower model) ≡ matches allowed model
unfolding matches
matches-lower allowed model =
    rw
      (lower-lower model, lower-slash model, lower-after model, lower-lower (after_byte model b'/'))
      refl

lower-blank : (s : Text) → is_blank (to_lower s) ≡ is_blank s
unfolding to_lower
lower-blank [] = refl
lower-blank (c ∷ s) = refl

allowed_by-lower :
    (es : List Text) (model : Text) → allowed_by es (to_lower model) ≡ allowed_by es model
unfolding allowed_by match_model_pattern
allowed_by-lower es model = rw (lower-blank model, each es) refl
  where
    each :
        (es : List Text)
        → any (λ a. match_model_pattern a (to_lower model)) es
          ≡ any (λ a. match_model_pattern a model) es
    each [] = refl
    each (e ∷ es) = ap₂ (λ x y. x || y) (matches-lower (trim_space e) model) (each es)

space-lower : (c : ℕ) → is_space (lower_byte c) ≡ is_space c
unfolding lower_byte is_space
space-lower c = ground arith

reverse-lower :
    (s acc : Text)
    → reverse_aux (map lower_byte s) (map lower_byte acc) ≡ map lower_byte (reverse_aux s acc)
reverse-lower [] acc = refl
reverse-lower (c ∷ s) acc = reverse-lower s (c ∷ acc)

left-lower : (s : Text) → trim_left (to_lower s) ≡ to_lower (trim_left s)
unfolding to_lower trim_space
left-lower [] = refl
left-lower (c ∷ s) = elim (Bool-cases (is_space c)) [
  | inl e ↦ rw (space-lower c, e) (left-lower s)
  | inr e ↦ rw (space-lower c, e) refl
]

trim-lower : (s : Text) → trim_space (to_lower s) ≡ to_lower (trim_space s)
unfolding trim_space to_lower
trim-lower s =
    let first = left-lower s in
    let turned = reverse-lower (trim_left s) [] in
    let second = left-lower (reverse (trim_left s)) in
    rw (first, turned, second) (reverse-lower (trim_left (reverse (trim_left s))) [])

-- Two spellings of a model that differ in case only are both allowed, or both refused.
pub is_model_allowed-case :
    (manager : Option Manager) (ki : Option KeyInfo) (model : Text)
    → is_model_allowed manager ki (to_lower model) ≡ is_model_allowed manager ki model
unfolding is_model_allowed
is_model_allowed-case manager ki model =
    rw
      (
        trim-lower model,
        allowed_by-lower (get_effective_allowed_models manager ki) (trim_space model),
      )
      refl
