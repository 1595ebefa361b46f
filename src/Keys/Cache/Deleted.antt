-- ===== src/Keys/Cache/Deleted.antt =====
-- Tables of client keys: what is found after a deletion, and the rows of what is found.
use nineguard.Base.{
  ◌≡◌, refl, sym, ap, subst, inl, inr, List, [], ◌∷◌, none, some, true, arith, Bool-cases,
}
use nineguard.Base.Text.{Text, text_eq, text_eq→eq}
use nineguard.Keys.Cache.{ApiKeyRow, find_key, find_id, delete_id}
use nineguard.Keys.Cache.Table.{DistinctKeys, DistinctIds, survivor, not_found-ne, not_found_id-ne}

gone-stays :
    (k id : Text) (rs : List ApiKeyRow) → find_key k rs ≡ none → find_key k (delete_id id rs) ≡ none
unfolding find_key delete_id
gone-stays k id [] h = refl
gone-stays k id (r ∷ rs) h =
    let (ne, rest) = not_found-ne k r rs h in
    elim (Bool-cases (text_eq id r.id)) [
      | inl e ↦ rw e (gone-stays k id rs rest)
      | inr e ↦ rw (e, ne) (gone-stays k id rs rest)
    ]

gone_id-stays :
    (i id : Text) (rs : List ApiKeyRow) → find_id i rs ≡ none → find_id i (delete_id id rs) ≡ none
unfolding find_id delete_id
gone_id-stays i id [] h = refl
gone_id-stays i id (r ∷ rs) h =
    let (ne, rest) = not_found_id-ne i r rs h in
    elim (Bool-cases (text_eq id r.id)) [
      | inl e ↦ rw e (gone_id-stays i id rs rest)
      | inr e ↦ rw (e, ne) (gone_id-stays i id rs rest)
    ]

pub find_key-delete :
    (k id : Text) (rs : List ApiKeyRow)
    → DistinctKeys rs
    → find_key k (delete_id id rs) ≡ survivor id (find_key k rs)
unfolding find_key delete_id
find_key-delete k id [] d = refl
find_key-delete k id (r ∷ rs) (new, d) = elim (Bool-cases (text_eq k r.key)) [
  | inl e ↦ elim (Bool-cases (text_eq id r.id)) [
    | inl x ↦
        gone_first e x
          (gone-stays k id rs (subst (λ y. find_key y rs ≡ none) (sym (text_eq→eq k r.key e)) new))
    | inr x ↦ rw (e, x, e) refl
  ]
  | inr e ↦ elim (Bool-cases (text_eq id r.id)) [
    | inl x ↦ rw (e, x) (find_key-delete k id rs d)
    | inr x ↦ rw (e, x, e) (find_key-delete k id rs d)
  ]
]
  where
    gone_first :
        text_eq k r.key ≡ true
        → text_eq id r.id ≡ true
        → find_key k (delete_id id rs) ≡ none
        → find_key k (delete_id id (r ∷ rs)) ≡ survivor id (find_key k (r ∷ rs))
    gone_first e x h = rw (x, e, x) h

pub delete-DistinctKeys :
    (id : Text) (rs : List ApiKeyRow) → DistinctKeys rs → DistinctKeys (delete_id id rs)
unfolding delete_id
delete-DistinctKeys id [] d = tt
delete-DistinctKeys id (r ∷ rs) (new, d) = elim (Bool-cases (text_eq id r.id)) [
  | inl e ↦ rw e (delete-DistinctKeys id rs d)
  | inr e ↦ rw e (gone-stays r.key id rs new, delete-DistinctKeys id rs d)
]

pub delete-DistinctIds :
    (id : Text) (rs : List ApiKeyRow) → DistinctIds rs → DistinctIds (delete_id id rs)
unfolding delete_id
delete-DistinctIds id [] d = tt
delete-DistinctIds id (r ∷ rs) (new, d) = elim (Bool-cases (text_eq id r.id)) [
  | inl e ↦ rw e (delete-DistinctIds id rs d)
  | inr e ↦ rw e (gone_id-stays r.id id rs new, delete-DistinctIds id rs d)
]

pub found-key :
    (k : Text) (r : ApiKeyRow) (rs : List ApiKeyRow) → find_key k rs ≡ some r → r.key ≡ k
unfolding find_key
found-key k r [] h = cc
found-key k r (x ∷ rs) h = elim (Bool-cases (text_eq k x.key)) [
  | inl e ↦ ground (arith, rw e at h, text_eq→eq k x.key e)
  | inr e ↦ found-key k r rs (rw e at h)
]

-- The id of a row finds that row.
pub find_id-found :
    (k id : Text) (r : ApiKeyRow) (rs : List ApiKeyRow)
    → DistinctIds rs
    → find_key k rs ≡ some r
    → text_eq id r.id ≡ true
    → find_id id rs ≡ some r
unfolding find_key find_id
find_id-found k id r [] d h same = cc
find_id-found k id r (x ∷ rs) (new, d) h same = elim (Bool-cases (text_eq k x.key)) [
  | inl e ↦ let h' : some x ≡ some r = rw e at h in hit cc
  | inr e ↦
      let h' : find_key k rs ≡ some r = rw e at h in
      let ih = find_id-found k id r rs d h' same in
      elim (Bool-cases (text_eq id x.id)) [
        | inl i ↦
            absurd (cc (sym new, subst (λ y. find_id y rs ≡ some r) (text_eq→eq id x.id i) ih))
        | inr i ↦ rw i ih
      ]
]
  where
    hit : x ≡ r → find_id id (x ∷ rs) ≡ some r
    hit p = rw (ap (λ y. text_eq id y.id) p, same) (ap some p)
