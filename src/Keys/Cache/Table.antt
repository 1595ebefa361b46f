-- ===== src/Keys/Cache/Table.antt =====
-- Tables of client keys: what a query finds after a statement.
use nineguard.Base.{
  ◌≡◌, refl, sym, ap, ◌∙◌, inl, inr, List, [], ◌∷◌, ◌++◌, Option, none, some, false, if◌then◌else◌,
  Bool-cases,
}
use nineguard.Base.Text.{Text, text_eq, text_eq→eq, text_eq_refl}
use nineguard.Keys.Cache.{ApiKeyRow, find_key, find_id, update_id}

abbrev pub DistinctKeys : List ApiKeyRow → Type 0
DistinctKeys [] = Unit {0}
DistinctKeys (r ∷ rs) = (find_key r.key rs ≡ none) × DistinctKeys rs

abbrev pub DistinctIds : List ApiKeyRow → Type 0
DistinctIds [] = Unit {0}
DistinctIds (r ∷ rs) = (find_id r.id rs ≡ none) × DistinctIds rs

abbrev pub updated : Text → (ApiKeyRow → ApiKeyRow) → Option ApiKeyRow → Option ApiKeyRow
updated id f none = none
updated id f (some r) = some (if text_eq id r.id then f r else r)

abbrev pub survivor : Text → Option ApiKeyRow → Option ApiKeyRow
survivor id none = none
survivor id (some r) = if text_eq id r.id then none else some r

-- The statement leaves the key and the id of every row alone.
pub record KeepsKeys (f : ApiKeyRow → ApiKeyRow) : Type 0 where
  pub same_key : (r : ApiKeyRow) → (f r).key ≡ r.key
  pub same_id : (r : ApiKeyRow) → (f r).id ≡ r.id

module _ (id : Text) (f : ApiKeyRow → ApiKeyRow) (keeps : KeepsKeys f) where
  abbrev row_after : ApiKeyRow → ApiKeyRow
  row_after r = if text_eq id r.id then f r else r

  row_after-key : (r : ApiKeyRow) → (row_after r).key ≡ r.key
  row_after-key r = elim (Bool-cases (text_eq id r.id)) [
    | inl e ↦ rw e (keeps.same_key r)
    | inr e ↦ rw e refl
  ]

  row_after-id : (r : ApiKeyRow) → (row_after r).id ≡ r.id
  row_after-id r = elim (Bool-cases (text_eq id r.id)) [
    | inl e ↦ rw e (keeps.same_id r)
    | inr e ↦ rw e refl
  ]

  pub find_key-update :
      (k : Text) (rs : List ApiKeyRow)
      → find_key k (update_id id f rs) ≡ updated id f (find_key k rs)
  unfolding find_key update_id
  find_key-update k [] = refl
  find_key-update k (r ∷ rs) = elim (Bool-cases (text_eq k r.key)) [
    | inl e ↦ rw (row_after-key r, e) refl
    | inr e ↦ rw (row_after-key r, e) (find_key-update k rs)
  ]

  pub find_id-update :
      (i : Text) (rs : List ApiKeyRow) → find_id i (update_id id f rs) ≡ updated id f (find_id i rs)
  unfolding find_id update_id
  find_id-update i [] = refl
  find_id-update i (r ∷ rs) = elim (Bool-cases (text_eq i r.id)) [
    | inl e ↦ rw (row_after-id r, e) refl
    | inr e ↦ rw (row_after-id r, e) (find_id-update i rs)
  ]

  pub update-DistinctKeys :
      (rs : List ApiKeyRow) → DistinctKeys rs → DistinctKeys (update_id id f rs)
  unfolding update_id
  update-DistinctKeys [] d = tt
  update-DistinctKeys (r ∷ rs) (new, d) = (
    rw (row_after-key r) (find_key-update r.key rs ∙ ap (updated id f) new),
    update-DistinctKeys rs d,
  )

  pub update-DistinctIds : (rs : List ApiKeyRow) → DistinctIds rs → DistinctIds (update_id id f rs)
  unfolding update_id
  update-DistinctIds [] d = tt
  update-DistinctIds (r ∷ rs) (new, d) = (
    rw (row_after-id r) (find_id-update r.id rs ∙ ap (updated id f) new),
    update-DistinctIds rs d,
  )

abbrev pub or_new : Option ApiKeyRow → Option ApiKeyRow → Option ApiKeyRow
or_new none new = new
or_new (some r) new = some r

pub find_key-append :
    (k : Text) (rs new : List ApiKeyRow)
    → find_key k (rs ++ new) ≡ or_new (find_key k rs) (find_key k new)
unfolding find_key
find_key-append k [] new = refl
find_key-append k (r ∷ rs) new = elim (Bool-cases (text_eq k r.key)) [
  | inl e ↦ rw e refl
  | inr e ↦ rw e (find_key-append k rs new)
]

find_id-append :
    (i : Text) (rs new : List ApiKeyRow)
    → find_id i (rs ++ new) ≡ or_new (find_id i rs) (find_id i new)
unfolding find_id
find_id-append i [] new = refl
find_id-append i (r ∷ rs) new = elim (Bool-cases (text_eq i r.id)) [
  | inl e ↦ rw e refl
  | inr e ↦ rw e (find_id-append i rs new)
]

-- A key that is not in the table is not that of a row of the table.
pub not_found-ne :
    (k : Text) (r : ApiKeyRow) (rs : List ApiKeyRow)
    → find_key k (r ∷ rs) ≡ none
    → (text_eq k r.key ≡ false) × (find_key k rs ≡ none)
unfolding find_key
not_found-ne k r rs h = elim (Bool-cases (text_eq k r.key)) [
  | inl e ↦ absurd (cc (rw e at h))
  | inr e ↦ (e, rw e at h)
]

pub not_found_id-ne :
    (i : Text) (r : ApiKeyRow) (rs : List ApiKeyRow)
    → find_id i (r ∷ rs) ≡ none
    → (text_eq i r.id ≡ false) × (find_id i rs ≡ none)
unfolding find_id
not_found_id-ne i r rs h = elim (Bool-cases (text_eq i r.id)) [
  | inl e ↦ absurd (cc (rw e at h))
  | inr e ↦ (e, rw e at h)
]

text_eq_sym : (s t : Text) → text_eq s t ≡ false → text_eq t s ≡ false
text_eq_sym s t h = elim (Bool-cases (text_eq t s)) [
  | inl e ↦ absurd (cc (sym (text_eq_refl s) ∙ (ap (text_eq s) (sym (text_eq→eq t s e)) ∙ h)))
  | inr e ↦ e
]

pub append-DistinctKeys :
    (r : ApiKeyRow) (rs : List ApiKeyRow)
    → find_key r.key rs ≡ none
    → DistinctKeys rs
    → DistinctKeys (rs ++ (r ∷ []))
unfolding find_key
append-DistinctKeys r [] new d = (refl, tt)
append-DistinctKeys r (x ∷ rs) new (first, d) =
    let (ne, rest) = not_found-ne r.key x rs new in
    (
      find_key-append x.key rs (r ∷ []) ∙ rw (first, text_eq_sym r.key x.key ne) refl,
      append-DistinctKeys r rs rest d,
    )

pub append-DistinctIds :
    (r : ApiKeyRow) (rs : List ApiKeyRow)
    → find_id r.id rs ≡ none
    → DistinctIds rs
    → DistinctIds (rs ++ (r ∷ []))
unfolding find_id
append-DistinctIds r [] new d = (refl, tt)
append-DistinctIds r (x ∷ rs) new (first, d) =
    let (ne, rest) = not_found_id-ne r.id x rs new in
    (
      find_id-append x.id rs (r ∷ []) ∙ rw (first, text_eq_sym r.id x.id ne) refl,
      append-DistinctIds r rs rest d,
    )
