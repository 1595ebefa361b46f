-- ===== src/Keys/Access/Available.antt =====
-- A Removed Model drops out of what a key may use.
use nineguard.Base.{
  ℕ, ◌≤◌, ◌≡◌, refl, inl, inr, List, [], ◌∷◌, Option, none, some, Bool, true, false, not, arith,
  any, all, filter, Bool-cases,
}
use nineguard.Base.Text.{
  Text, codes, text_eq, text_eq→eq, trim_space, is_blank, is_space, equal_fold, lower_byte,
  to_lower,
}
use nineguard.Keys.Access.{
  Availability, Manager, KeyInfo, no_entries, only_removed, is_unavailable, filter_available,
  get_models_for_groups, access_mode, get_effective_allowed_models, allows_all,
  is_all_models_allowed, allowed_by, is_model_allowed,
}

none_removed :
    (a : Availability) (e : Text) → no_entries a.removed ≡ true → is_unavailable (some a) e ≡ false
unfolding is_unavailable only_removed
none_removed a e h = ground arith

filter-all : (p : Text → Bool) (xs : List Text) → all p (filter p xs) ≡ true
filter-all p [] = refl
filter-all p (x ∷ xs) = ground (arith, filter-all p xs)

all-every : (p : Text → Bool) → ((x : Text) → p x ≡ true) → (xs : List Text) → all p xs ≡ true
all-every p h [] = refl
all-every p h (x ∷ xs) = ground (arith, h x, all-every p h xs)

filter-filter : (p : Text → Bool) (xs : List Text) → filter p (filter p xs) ≡ filter p xs
filter-filter p [] = refl
filter-filter p (x ∷ xs) = ground (arith, filter-filter p xs)

abbrev pub is_available : Option Availability → Text → Bool
is_available a e = not (is_unavailable a e)

filter_available-all :
    (a : Option Availability) (es : List Text) → all (is_available a) (filter_available a es) ≡ true
unfolding filter_available is_unavailable
filter_available-all none es = all-every (is_available none) (λ x. refl) es
filter_available-all (some a) es = elim (Bool-cases (no_entries a.removed)) [
  | inl e ↦ rw e (all-every (is_available (some a)) (λ x. rw (none_removed a x e)) es)
  | inr e ↦ rw e (filter-all (is_available (some a)) es)
]

star_available : (a : Option Availability) → all (is_available a) (codes "*" ∷ []) ≡ true
unfolding is_unavailable only_removed
star_available none = refl
star_available (some a) = refl

-- What a key under a manager may use, whatever its mode: no entry names a model that is removed
-- and present nowhere.
pub effective-available :
    (m : Manager) (ki : Option KeyInfo)
    → all (is_available m.avail) (get_effective_allowed_models (some m) ki) ≡ true
unfolding get_effective_allowed_models
effective-available m none = star_available m.avail
effective-available m (some ki) = ground (
  arith,
  star_available m.avail,
  filter_available-all m.avail ki.allowed_models,
  filter_available-all m.avail (get_models_for_groups m.group_cache ki.model_group_ids),
)

drop_all :
    (a : Availability) (xs : List Text)
    → all (is_unavailable (some a)) xs ≡ true
    → filter (is_available (some a)) xs ≡ []
drop_all a [] h = refl
drop_all a (x ∷ xs) h = ground (arith, drop_all a xs)

all_unavailable :
    (a : Availability) (es : List Text)
    → all (is_unavailable (some a)) es ≡ true
    → no_entries es ≡ false
    → filter_available (some a) es ≡ []
unfolding filter_available
all_unavailable a [] h n = cc
all_unavailable a (e ∷ es) h n = elim (Bool-cases (no_entries a.removed)) [
  | inl r ↦ ground (arith, none_removed a e r)
  | inr r ↦ rw r (drop_all a (e ∷ es) h)
]

letter : (c : ℕ) → b'A' ≤ lower_byte c → is_space c ≡ false
unfolding lower_byte is_space
letter c h = ground arith

all-trimmed : (e : Text) → equal_fold e (codes "all") ≡ true → trim_space e ≡ e
unfolding trim_space equal_fold text_eq to_lower
all-trimmed [] h = cc
all-trimmed (c1 ∷ []) h = ground arith
all-trimmed (c1 ∷ c2 ∷ []) h = ground arith
all-trimmed (c1 ∷ c2 ∷ c3 ∷ []) h =
    let e1 = letter c1 (ground arith) in let e3 = letter c3 (ground arith) in rw (e1, e3) refl
all-trimmed (c1 ∷ c2 ∷ c3 ∷ c4 ∷ e) h = ground arith

star_usable : (a : Availability) → is_unavailable (some a) (codes "*") ≡ false
unfolding is_unavailable only_removed
star_usable a = refl

fold-usable :
    (a : Availability) (e : Text)
    → equal_fold e (codes "all") ≡ true
    → is_unavailable (some a) e ≡ false
unfolding is_unavailable only_removed
fold-usable a e h = rw (all-trimmed e h) (ground arith)

star-usable :
    (a : Availability) (e : Text) → text_eq e (codes "*") ≡ true → is_unavailable (some a) e ≡ false
star-usable a e h = rw (text_eq→eq e (codes "*") h) (star_usable a)

unavailable-restricts :
    (a : Availability) (e : Text) → is_unavailable (some a) e ≡ true → allows_all e ≡ false
unfolding allows_all
unavailable-restricts a e h = ground (arith, star-usable a e, fold-usable a e)

not_all :
    (a : Availability) (es : List Text)
    → all (is_unavailable (some a)) es ≡ true
    → any allows_all es ≡ false
not_all a [] h = refl
not_all a (e ∷ es) h = ground (arith, unavailable-restricts a e, not_all a es)

-- A custom key whose entries all name Removed Models fails closed: it is granted no model.
pub removed_only_denied :
    (m : Manager) (a : Availability) (ki : KeyInfo) (model : Text)
    → m.avail ≡ some a
    → access_mode ki ≡ codes "custom"
    → no_entries ki.allowed_models ≡ false
    → all (is_unavailable (some a)) ki.allowed_models ≡ true
    → is_blank (trim_space model) ≡ false
    → is_model_allowed (some m) (some ki) model ≡ false
unfolding is_model_allowed is_all_models_allowed get_effective_allowed_models allowed_by text_eq
removed_only_denied m a ki model avail mode nonempty gone asked =
    rw
      (
        mode,
        avail,
        nonempty,
        not_all a ki.allowed_models gone,
        all_unavailable a ki.allowed_models gone nonempty,
        asked,
      )
      refl
