-- ===== src/Plugins/Order.antt =====
-- internal/plugins/resolve.go: the order of the candidate groups, and what the sort puts first.
use nineguard.Base.{
  suc, ◌≡◌, ◌≢◌, refl, sym, ap, subst, ◌∙◌, ◌⊎◌, inl, inr, List, [], ◌∷◌, Option, none, some, Bool,
  true, false, not, ◌&&◌, arith, all, count, length, ltz_trans, ltz_irrefl, ltz_weak, Bool-cases,
  Option-cases,
}
use nineguard.Base.Text.{Text, text_eq}
use nineguard.Plugins.{
  Binding, ModelGroup, GroupCandidate, BindingMap, scope_group, state_inherit, deciding, candidates,
  text_lt, before, insert_candidate, sort_candidates,
}

text_lt_trans : (r s t : Text) → text_lt r s ≡ true → text_lt s t ≡ true → text_lt r t ≡ true
unfolding text_lt
text_lt_trans r [] t h k = cc
text_lt_trans r (c ∷ s) [] h k = cc
text_lt_trans [] (c ∷ s) (d ∷ t) h k = refl
text_lt_trans (b ∷ r) (c ∷ s) (d ∷ t) h k = ground (arith, text_lt_trans r s t)

text_lt_irrefl : (s : Text) → text_lt s s ≡ false
unfolding text_lt
text_lt_irrefl [] = refl
text_lt_irrefl (c ∷ s) = ground (arith, text_lt_irrefl s)

before_irrefl : (c : GroupCandidate) → before c c ≡ false
unfolding before
before_irrefl c = rw (ltz_irrefl c.group.priority, text_lt_irrefl c.group.name) refl

before_trans : (a b c : GroupCandidate) → before a b ≡ true → before b c ≡ true → before a c ≡ true
unfolding before
before_trans a b c h k =
    let pa = a.group.priority in
    let pb = b.group.priority in
    let pc = c.group.priority in
    ground (
      arith,
      ltz_trans pc pb pa,
      ltz_weak pb pc pa,
      ltz_weak pc pa pb,
      ltz_weak pa pb pc,
      text_lt_trans a.group.name b.group.name c.group.name,
    )

-- No candidate of the list comes before `w`.
abbrev Wins : GroupCandidate → List GroupCandidate → Type 0
Wins w cs = all (λ x. not (before x w)) cs ≡ true

insert-all :
    (p : GroupCandidate → Bool) (c : GroupCandidate) (cs : List GroupCandidate)
    → all p (insert_candidate c cs) ≡ (p c && all p cs)
unfolding insert_candidate
insert-all p c [] = refl
insert-all p c (d ∷ ds) = ground (arith, insert-all p c ds)

pub sort-all :
    (p : GroupCandidate → Bool) (cs : List GroupCandidate) → all p (sort_candidates cs) ≡ all p cs
unfolding sort_candidates
sort-all p [] = refl
sort-all p (c ∷ cs) = ground (arith, insert-all p c (sort_candidates cs), sort-all p cs)

Wins-later :
    (c d : GroupCandidate) → before c d ≡ true → (cs : List GroupCandidate) → Wins d cs → Wins c cs
Wins-later c d h [] w = refl
Wins-later c d h (x ∷ xs) w = ground (arith, before_trans x c d, Wins-later c d h xs)

-- The head of a sorted list, if there is one, wins over all of it.
abbrev HeadWins : List GroupCandidate → Type 0
HeadWins [] = Unit {0}
HeadWins (w ∷ cs) = Wins w (w ∷ cs)

insert-HeadWins :
    (c : GroupCandidate) (cs : List GroupCandidate) → HeadWins cs → HeadWins (insert_candidate c cs)
unfolding insert_candidate
insert-HeadWins c [] h = ground (arith, before_irrefl c)
insert-HeadWins c (d ∷ ds) h = elim (Bool-cases (before c d)) [
  | inl e ↦ rw e (ground (arith, before_irrefl c, Wins-later c d e (d ∷ ds) h))
  | inr e ↦ rw e (ground (arith, insert-all (λ x. not (before x d)) c ds))
]

sort-HeadWins : (cs : List GroupCandidate) → HeadWins (sort_candidates cs)
unfolding sort_candidates
sort-HeadWins [] = tt
sort-HeadWins (c ∷ cs) = insert-HeadWins c (sort_candidates cs) (sort-HeadWins cs)

insert-length :
    (c : GroupCandidate) (cs : List GroupCandidate)
    → length (insert_candidate c cs) ≡ suc (length cs)
unfolding insert_candidate
insert-length c [] = refl
insert-length c (d ∷ ds) = ground (arith, insert-length c ds)

sort-length : (cs : List GroupCandidate) → length (sort_candidates cs) ≡ length cs
unfolding sort_candidates
sort-length [] = refl
sort-length (c ∷ cs) = ground (arith, insert-length c (sort_candidates cs), sort-length cs)

insert-count :
    (p : GroupCandidate → Bool) (c : GroupCandidate) (cs : List GroupCandidate)
    → count p (insert_candidate c cs) ≡ count p (c ∷ cs)
unfolding insert_candidate
insert-count p c [] = refl
insert-count p c (d ∷ ds) = elim (Bool-cases (before c d)) [
  | inl e ↦ rw e
  | inr e ↦ rw e (omega (arith, insert-count p c ds))
]

sort-count :
    (p : GroupCandidate → Bool) (cs : List GroupCandidate)
    → count p (sort_candidates cs) ≡ count p cs
unfolding sort_candidates
sort-count p [] = refl
sort-count p (c ∷ cs) = insert-count p c (sort_candidates cs) ∙ omega (arith, sort-count p cs)

pub deciding-state :
    (o : Option Binding) (b : Binding) → deciding o ≡ some b → text_eq b.state state_inherit ≡ false
unfolding deciding
deciding-state none b h = cc
deciding-state (some a) b h = ground arith

-- No candidate inherits.
pub candidates-decide :
    (m : BindingMap) (plugin model : Text) (gs : List ModelGroup)
    → all (λ c. not (text_eq c.binding.state state_inherit)) (candidates m plugin model gs) ≡ true
unfolding candidates
candidates-decide m plugin model [] = refl
candidates-decide m plugin model (g ∷ gs) =
    elim (Option-cases (deciding (m plugin scope_group g.id))) [
      | inl e ↦ rw e (ground (arith, candidates-decide m plugin model gs))
      | inr (b, e) ↦ rw e (
          ground (
            arith,
            candidates-decide m plugin model gs,
            deciding-state (m plugin scope_group g.id) b e,
          ))
    ]

pub list-cases :
    (cs : List GroupCandidate)
    → (cs ≡ []) ⊎ ((w : GroupCandidate) × (ls : List GroupCandidate) × (cs ≡ w ∷ ls))
list-cases [] = inl refl
list-cases (w ∷ ls) = inr (w, ls, refl)

no_members : (cs : List GroupCandidate) → length cs ≡ 0 → cs ≡ []
no_members [] h = refl
no_members (c ∷ cs) h = absurd (omega (arith, h))

abbrev pub first_binding : List GroupCandidate → Option Binding
first_binding [] = none
first_binding (w ∷ ls) = some w.binding

-- What the sort finds in a non-empty list.
pub sort-winner :
    (cs : List GroupCandidate)
    → cs ≢ []
    → (w : GroupCandidate) × (ls : List GroupCandidate) × (sort_candidates cs ≡ w ∷ ls)
      × ((q : GroupCandidate → Bool) → all q cs ≡ true → q w ≡ true)
      × (all (λ c. not (before c w)) cs ≡ true)
      × ((q : GroupCandidate → Bool) → count q (w ∷ ls) ≡ count q cs)
sort-winner cs some_c = elim (list-cases (sort_candidates cs)) [
  | inl e ↦ absurd (some_c (no_members cs (sym (sort-length cs) ∙ ap length e)))
  | inr (w, ls, e) ↦ (
    w,
    ls,
    e,
    (λ q h. first q w ls (ap (all q) (sym e) ∙ (sort-all q cs ∙ h))),
    (sym (sort-all (λ c. not (before c w)) cs)
        ∙ (ap (all (λ c. not (before c w))) e ∙ subst HeadWins e (sort-HeadWins cs))),
    (λ q. ap (count q) (sym e) ∙ sort-count q cs),
  )
]
  where
    first :
        (q : GroupCandidate → Bool) (w : GroupCandidate) (ls : List GroupCandidate)
        → all q (w ∷ ls) ≡ true
        → q w ≡ true
    first q w ls h = ground (arith, h)
