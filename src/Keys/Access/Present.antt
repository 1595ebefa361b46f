-- ===== src/Keys/Access/Present.antt =====
-- What may be said of the models that the entries of a key name.
use nineguard.Base.{
  ◌≡◌, refl, ap, subst, ◌∙◌, inl, inr, List, [], ◌∷◌, ◌++◌, Option, some, Bool, true, false, ◌||◌,
  ◌==◌, arith, any, all, Bool-cases,
}
use nineguard.Base.Text.{
  Text, codes, text_eq, text_eq→eq, text_eq_refl, trim_space, is_blank, equal_fold, contains_byte,
  after_byte,
}
use nineguard.Keys.Access.{
  Availability, Manager, KeyInfo, entry_matches_id, only_removed, is_unavailable,
  get_effective_allowed_models,
}
use nineguard.Keys.Access.Available.{is_available, effective-available}

-- An entry names a model: its ID in any case, or, without a slash, the part of its ID after the first slash.
pub data Names (entry : Text) : Text → Type 0 where
  whole : {id : Text} → equal_fold entry id ≡ true → Names entry id
  bare :
      {id : Text} (provider model : Text)
      → contains_byte entry b'/' ≡ false
      → contains_byte provider b'/' ≡ false
      → id ≡ provider ++ (b'/' ∷ model)
      → equal_fold entry model ≡ true
      → Names entry id

contains_byte-append :
    (provider model : Text) → contains_byte (provider ++ (b'/' ∷ model)) b'/' ≡ true
contains_byte-append [] model = refl
contains_byte-append (c ∷ provider) model = ground (arith, contains_byte-append provider model)

after_byte-append :
    (provider model : Text)
    → contains_byte provider b'/' ≡ false
    → after_byte (provider ++ (b'/' ∷ model)) b'/' ≡ model
unfolding after_byte
after_byte-append [] model h = refl
after_byte-append (c ∷ provider) model h = ground (arith, after_byte-append provider model)

abbrev Cut : Text → Type 0
Cut id =
    (provider : Text) × (contains_byte provider b'/' ≡ false)
    × (id ≡ provider ++ (b'/' ∷ after_byte id b'/'))

contains_byte-Cut : (id : Text) → contains_byte id b'/' ≡ true → Cut id
unfolding after_byte
contains_byte-Cut [] h = cc
contains_byte-Cut (c ∷ id) h = elim (Bool-cases (c == b'/')) [
  | inl e ↦ ([], refl, rw e (ap (λ x. x ∷ id) (ground arith)))
  | inr e ↦
      let (provider, none_before, split) = contains_byte-Cut id (rw e at h) in
      (c ∷ provider, rw e none_before, rw e (ap (λ x. c ∷ x) split))
]

entry_matches_id-Names : (entry id : Text) → entry_matches_id entry id ≡ true → Names entry id
unfolding entry_matches_id
entry_matches_id-Names entry id h = elim (Bool-cases (equal_fold entry id)) [
  | inl e ↦ whole e
  | inr e ↦
      let (provider, none_before, split) = contains_byte-Cut id (ground arith) in
      bare provider (after_byte id b'/') (ground arith) none_before split (ground arith)
]

Names-entry_matches_id : (entry id : Text) → Names entry id → entry_matches_id entry id ≡ true
unfolding entry_matches_id
Names-entry_matches_id entry id (whole e) = rw e
Names-entry_matches_id entry id (bare provider model no_slash none_before split e) =
    rw
      (
        split,
        no_slash,
        contains_byte-append provider model,
        after_byte-append provider model none_before,
        e,
      )
      (end_of (equal_fold entry (provider ++ (b'/' ∷ model))))
  where
    end_of : (b : Bool) → (b || true) ≡ true
    end_of true = refl
    end_of false = refl

-- A text is in a list.
abbrev pub Lists : List Text → Text → Type 0
Lists xs x = any (text_eq x) xs ≡ true

all-Lists :
    (p : Text → Bool) (xs : List Text) (x : Text) → all p xs ≡ true → Lists xs x → p x ≡ true
all-Lists p [] x h m = cc
all-Lists p (y ∷ ys) x h m = elim (Bool-cases (text_eq x y)) [
  | inl e ↦ ap p (text_eq→eq x y e) ∙ ground arith
  | inr e ↦ all-Lists p ys x (ground arith) (ground arith)
]

Lists-any :
    (p : Text → Bool) (xs : List Text) (x : Text) → Lists xs x → p x ≡ true → any p xs ≡ true
Lists-any p [] x m h = cc
Lists-any p (y ∷ ys) x m h = elim (Bool-cases (text_eq x y)) [
  | inl e ↦ let here : p y ≡ true = subst (λ z. p z ≡ true) (text_eq→eq x y e) h in rw here
  | inr e ↦ let later = Lists-any p ys x (ground arith) h in ground arith
]

any-Lists :
    (p : Text → Bool) (xs : List Text) → any p xs ≡ true → (x : Text) × Lists xs x × (p x ≡ true)
any-Lists p [] h = cc
any-Lists p (y ∷ ys) h = elim (Bool-cases (p y)) [
  | inl e ↦ (y, rw (text_eq_refl y), e)
  | inr e ↦ let (x, m, holds) = any-Lists p ys (ground arith) in (x, ground arith, holds)
]

-- With the availability of models, an entry that a key may use and that is neither blank, nor with a wildcard,
-- nor "all": if it names a removed model, by its ID in any case or, without a slash, by the part of the ID after its
-- first slash, it also names one that is present.
pub effective-Names :
    (m : Manager) (a : Availability) (ki : Option KeyInfo) (entry gone : Text)
    → m.avail ≡ some a
    → Lists (get_effective_allowed_models (some m) ki) entry
    → is_blank (trim_space entry) ≡ false
    → contains_byte (trim_space entry) b'*' ≡ false
    → equal_fold (trim_space entry) (codes "all") ≡ false
    → Lists a.removed gone
    → Names (trim_space entry) gone
    → (id : Text) × Lists a.present id × Names (trim_space entry) id
unfolding is_unavailable only_removed
effective-Names m a ki entry gone avail usable some_text no_star not_all removed named =
    let open_to : is_available (some a) entry ≡ true =
      subst (λ o. is_available o entry ≡ true) avail
        (all-Lists (is_available m.avail) (get_effective_allowed_models (some m) ki) entry
          (effective-available m ki) usable) in
    let hit : any (entry_matches_id (trim_space entry)) a.removed ≡ true =
      Lists-any (entry_matches_id (trim_space entry)) a.removed gone removed
        (Names-entry_matches_id (trim_space entry) gone named) in
    let (id, present, matched) =
      any-Lists (entry_matches_id (trim_space entry)) a.present (ground arith) in
    (id, present, entry_matches_id-Names (trim_space entry) id matched)
