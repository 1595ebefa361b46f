-- ===== src/Auth/Governed.antt =====
-- Tables of users with an administrator, distinct ids, and no id that is yet to be given out.
use nineguard.Base.{
  ℕ, ◌+◌, ◌<◌, ◌≤◌, ◌==◌, ◌≡◌, ◌≢◌, refl, sym, ap, inl, inr, List, [], ◌∷◌, ◌++◌, Bool, true, false,
  arith, Bool-cases, All, if◌then◌else◌, leb, ◌&&◌, subst, ==_iff,
}
use nineguard.Auth.{
  Session, UserRow, Sql, find_user, update_user_row, delete_user_row, count_admins, admin,
}
use nineguard.Auth.Accounts.{role_is_admin}
use nineguard.Auth.Runs.{deletes}
use nineguard.Auth.Keeps.{Closed, KeepsIdRole, CallKeeps, delete_user-keeps}
use nineguard.Auth.Deleted.{update-Gone, append-Gone, delete-Gone}

abbrev pub DistinctIds : List UserRow → Type 0
DistinctIds [] = Unit {0}
DistinctIds (r ∷ us) = All (λ x. x.id ≢ r.id) us × DistinctIds us

-- An administrator is there, and the ids are distinct and given out.
abbrev pub Governed : List UserRow → ℕ → List Session → Type 0
Governed us n ss = (0 < count_admins us) × DistinctIds us × All (λ r. r.id < n) us

count_admins-update :
    (id : ℕ) (f : UserRow → UserRow) (us : List UserRow)
    → KeepsIdRole f
    → count_admins (update_user_row id f us) ≡ count_admins us
unfolding count_admins update_user_row
count_admins-update id f [] k = refl
count_admins-update id f (r ∷ us) k = elim (Bool-cases (id == r.id)) [
  | inl e ↦ rw (e, (k r).1) (omega (arith, count_admins-update id f us k))
  | inr e ↦ rw e (omega (arith, count_admins-update id f us k))
]

update-DistinctIds :
    (id : ℕ) (f : UserRow → UserRow) (us : List UserRow)
    → KeepsIdRole f
    → DistinctIds us
    → DistinctIds (update_user_row id f us)
unfolding update_user_row
update-DistinctIds id f [] k d = tt
update-DistinctIds id f (r ∷ us) k (new, d) =
    let rest = update-DistinctIds id f us k d in
    let apart = update-Gone r.id id f us (λ x. (k x).0) new in
    elim (Bool-cases (id == r.id)) [
      | inl e ↦ rw (e, (k r).0) (apart, rest)
      | inr e ↦ rw e (apart, rest)
    ]

update-Below :
    (n id : ℕ) (f : UserRow → UserRow) (us : List UserRow)
    → KeepsIdRole f
    → All (λ r. r.id < n) us
    → All (λ r. r.id < n) (update_user_row id f us)
unfolding update_user_row
update-Below n id f [] k h = tt
update-Below n id f (r ∷ us) k h = (
  elim (Bool-cases (id == r.id)) [ inl e ↦ rw (e, (k r).0) h.0 | inr e ↦ rw e h.0 ],
  update-Below n id f us k h.1,
)

count_admins-append :
    (us : List UserRow) (r : UserRow) → count_admins us ≤ count_admins (us ++ (r ∷ []))
unfolding count_admins
count_admins-append [] r = omega arith
count_admins-append (x ∷ us) r = omega (arith, count_admins-append us r)

append-DistinctIds :
    (r : UserRow) (us : List UserRow)
    → All (λ x. x.id < r.id) us
    → DistinctIds us
    → DistinctIds (us ++ (r ∷ []))
append-DistinctIds r [] below d = (tt, tt)
append-DistinctIds r (x ∷ us) (lt, below) (new, d) =
    (append-Gone x.id r us (λ e. omega arith) new, append-DistinctIds r us below d)

append-Below :
    (r : UserRow) (us : List UserRow)
    → All (λ x. x.id < r.id) us
    → All (λ x. x.id < r.id + 1) (us ++ (r ∷ []))
append-Below r [] h = (omega arith, tt)
append-Below r (x ∷ us) h = (omega arith, append-Below r us h.1)

pub Governed-closed : Closed Governed (λ s. Unit {0})
Governed-closed = record {
  edited = λ id f us n ss k h. (
    rw (count_admins-update id f us k) h.0,
    update-DistinctIds id f us k h.1,
    update-Below n id f us k h.2,
  );
  added = λ r us n ss e h.
      subst (λ m. Governed (us ++ (r ∷ [])) (m + 1) ss) e
        (let below = subst (λ m. All (λ x. x.id < m) us) (sym e) h.2 in
          (
            omega (arith, count_admins-append us r),
            append-DistinctIds r us below h.1,
            append-Below r us below,
          ));
  opened = λ s us n ss fine h. h;
  ended = λ keep us n ss h. h;
}

delete_user_row-absent :
    (id : ℕ) (us : List UserRow) → All (λ x. x.id ≢ id) us → delete_user_row id us ≡ us
unfolding delete_user_row
delete_user_row-absent id [] h = refl
delete_user_row-absent id (r ∷ us) (ne, h) = elim (Bool-cases (id == r.id)) [
  | inl e ↦ absurd (ne (sym ((==_iff id r.id).0 e)))
  | inr e ↦ rw e (ap (λ x. r ∷ x) (delete_user_row-absent id us h))
]

-- A deletion takes at most the administrator with the id.
count_admins-delete :
    (id : ℕ) (us : List UserRow)
    → DistinctIds us
    → count_admins us
      ≡ count_admins (delete_user_row id us) + (if role_is_admin (find_user id us) then 1 else 0)
unfolding count_admins find_user delete_user_row
count_admins-delete id [] d = omega arith
count_admins-delete id (r ∷ us) (new, d) = elim (Bool-cases (id == r.id)) [
  | inl e ↦
      let same = (==_iff id r.id).0 e in
      let rest =
        delete_user_row-absent id us (subst (λ i. All (λ x. x.id ≢ i) us) (sym same) new) in
      rw (e, rest) (omega arith)
  | inr e ↦ rw e (omega (arith, count_admins-delete id us d))
]

delete-DistinctIds :
    (id : ℕ) (us : List UserRow) → DistinctIds us → DistinctIds (delete_user_row id us)
unfolding delete_user_row
delete-DistinctIds id [] d = tt
delete-DistinctIds id (r ∷ us) (new, d) = elim (Bool-cases (id == r.id)) [
  | inl e ↦ rw e (delete-DistinctIds id us d)
  | inr e ↦ rw e (delete-Gone r.id id us new, delete-DistinctIds id us d)
]

delete-Below :
    (n id : ℕ) (us : List UserRow)
    → All (λ r. r.id < n) us
    → All (λ r. r.id < n) (delete_user_row id us)
unfolding delete_user_row
delete-Below n id [] h = tt
delete-Below n id (r ∷ us) h = elim (Bool-cases (id == r.id)) [
  | inl e ↦ rw e (delete-Below n id us h.1)
  | inr e ↦ rw e (h.0, delete-Below n id us h.1)
]

admin_left :
    (reads admin counts : Bool) (count rest : ℕ)
    → reads ≡ true
    → (reads && admin && leb (if counts then count else 0) 1) ≡ false
    → 0 < count
    → count ≡ rest + (if admin then 1 else 0)
    → 0 < rest
admin_left reads admin counts count rest r e pos same = ground arith

-- A deletion whose query of the role succeeded leaves an administrator.
pub delete_user-Governed : (o : Sql) (id : ℕ) → o.reads ≡ true → CallKeeps Governed o (deletes id)
delete_user-Governed o id reads =
    delete_user-keeps Governed (λ s. Unit {0}) Governed-closed o id
      (λ st e h. (
        admin_left o.reads (role_is_admin (find_user id st.users)) o.counts (count_admins st.users)
            (count_admins (delete_user_row id st.users)) reads e h.held.0
            (count_admins-delete id st.users h.held.1),
        delete-DistinctIds id st.users h.held.1,
        delete-Below st.next_id id st.users h.held.2,
      ))
