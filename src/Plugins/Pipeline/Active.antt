-- ===== src/Plugins/Pipeline/Active.antt =====
-- Which plugins run for a request, and in which order.
use mathlib.Core.List.{Memᴰ}
use mathlib.Core.List.Memᴰ.{head, tail}
use nineguard.Base.{
  ◌≡◌, refl, sym, ap, ◌∙◌, inl, inr, List, [], ◌∷◌, Option, Bool, true, false, not, ◌&&◌, ltz,
  ltz_weak, ltz_trans, ltz_irrefl, arith, all, count, filter, Bool-cases,
}
use nineguard.Base.Text.{Text, codes, text_eq}
use nineguard.Plugins.{ResolvedPlugin}
use nineguard.Plugins.Pipeline.Execute.{insert_ordered, sort_ordered, active_plugins}

count-filter {ℓ} :
    {A : Type ℓ} (p q : A → Bool) (xs : List A) → count q (filter p xs) ≡ count (λ x. p x && q x) xs
count-filter p q [] = refl
count-filter p q (x ∷ xs) = ground (arith, count-filter p q xs)

filter-Memᴰ {ℓ} :
    {A : Type ℓ} (p : A → Bool) (x : A) (xs : List A)
    → p x ≡ true
    → Memᴰ x xs
    → Memᴰ x (filter p xs)
filter-Memᴰ p x [] h m = elim m [ ]
filter-Memᴰ p x (y ∷ ys) h (head e) = let here : p y ≡ true = ap p (sym e) ∙ h in rw here (head e)
filter-Memᴰ p x (y ∷ ys) h (tail m) = elim (Bool-cases (p y)) [
  | inl e ↦ rw e (tail (filter-Memᴰ p x ys h m))
  | inr e ↦ rw e (filter-Memᴰ p x ys h m)
]

module _ {ℓ} {V : Type ℓ} (unmarshal : Text → Option (Text → Option V)) where
  abbrev Item : Type ℓ
  Item = ResolvedPlugin unmarshal

  -- No later plugin has a smaller pipeline order.
  abbrev pub Ordered : List (ResolvedPlugin unmarshal) → Type 0
  Ordered [] = Unit {0}
  Ordered (x ∷ xs) =
      (all (λ y. not (ltz y.plugin.pipeline_order x.plugin.pipeline_order)) xs ≡ true) × Ordered xs

  -- The resolved plugins that are on, each as often as it is resolved, by their pipeline order.
  abbrev pub IsActive : List (ResolvedPlugin unmarshal) → List (ResolvedPlugin unmarshal) → Type ℓ
  IsActive resolved items =
      ((p : ResolvedPlugin unmarshal → Bool)
        → count p items ≡ count (λ r. text_eq r.effective_state (codes "on") && p r) resolved)
      × Ordered items

  insert-count :
      (p : Item → Bool) (x : Item) (xs : List Item)
      → count p (insert_ordered unmarshal x xs) ≡ count p (x ∷ xs)
  unfolding insert_ordered
  insert-count p x [] = refl
  insert-count p x (y ∷ ys) =
      elim (Bool-cases (ltz y.plugin.pipeline_order x.plugin.pipeline_order)) [
        | inl e ↦ rw e (omega (arith, insert-count p x ys))
        | inr e ↦ rw e
      ]

  insert-all :
      (p : Item → Bool) (x : Item) (xs : List Item)
      → all p (insert_ordered unmarshal x xs) ≡ (p x && all p xs)
  unfolding insert_ordered
  insert-all p x [] = refl
  insert-all p x (y ∷ ys) = ground (arith, insert-all p x ys)

  later-all :
      (x y : Item)
      → ltz y.plugin.pipeline_order x.plugin.pipeline_order ≡ false
      → (ys : List Item)
      → all (λ z. not (ltz z.plugin.pipeline_order y.plugin.pipeline_order)) ys ≡ true
      → all (λ z. not (ltz z.plugin.pipeline_order x.plugin.pipeline_order)) ys ≡ true
  later-all x y e [] h = refl
  later-all x y e (z ∷ zs) h =
      let px = x.plugin.pipeline_order in
      let py = y.plugin.pipeline_order in
      let pz = z.plugin.pipeline_order in
      ground (arith, later-all x y e zs, ltz_weak pz px py, ltz_weak pz py px)

  insert-Ordered :
      (x : Item) (xs : List Item) → Ordered xs → Ordered (insert_ordered unmarshal x xs)
  unfolding insert_ordered
  insert-Ordered x [] h = (refl, tt)
  insert-Ordered x (y ∷ ys) (first, rest) =
      let px = x.plugin.pipeline_order in
      let py = y.plugin.pipeline_order in
      elim (Bool-cases (ltz py px)) [
        | inl e ↦ rw e (
          insert-all (λ z. not (ltz z.plugin.pipeline_order py)) x ys
              ∙ ground (arith, first, ltz_trans py px py, ltz_irrefl py),
          insert-Ordered x ys rest,
        )
        | inr e ↦ let after = later-all x y e ys first in rw e (rw e after, (first, rest))
      ]

  sort-count : (p : Item → Bool) (xs : List Item) → count p (sort_ordered unmarshal xs) ≡ count p xs
  unfolding sort_ordered
  sort-count p [] = refl
  sort-count p (x ∷ xs) =
      insert-count p x (sort_ordered unmarshal xs) ∙ omega (arith, sort-count p xs)

  sort-Ordered : (xs : List Item) → Ordered (sort_ordered unmarshal xs)
  unfolding sort_ordered
  sort-Ordered [] = tt
  sort-Ordered (x ∷ xs) = insert-Ordered x (sort_ordered unmarshal xs) (sort-Ordered xs)

  insert-Memᴰ :
      (z x : Item) (xs : List Item) → Memᴰ z (x ∷ xs) → Memᴰ z (insert_ordered unmarshal x xs)
  unfolding insert_ordered
  insert-Memᴰ z x [] m = m
  insert-Memᴰ z x (y ∷ ys) (head p) =
      elim (Bool-cases (ltz y.plugin.pipeline_order x.plugin.pipeline_order)) [
        | inl e ↦ rw e (tail (insert-Memᴰ z x ys (head p)))
        | inr e ↦ rw e (head p)
      ]
  insert-Memᴰ z x (y ∷ ys) (tail (head p)) =
      elim (Bool-cases (ltz y.plugin.pipeline_order x.plugin.pipeline_order)) [
        | inl e ↦ rw e (head p)
        | inr e ↦ rw e (tail (head p))
      ]
  insert-Memᴰ z x (y ∷ ys) (tail (tail m)) =
      elim (Bool-cases (ltz y.plugin.pipeline_order x.plugin.pipeline_order)) [
        | inl e ↦ rw e (tail (insert-Memᴰ z x ys (tail m)))
        | inr e ↦ rw e (tail (tail m))
      ]

  sort-Memᴰ : (z : Item) (xs : List Item) → Memᴰ z xs → Memᴰ z (sort_ordered unmarshal xs)
  unfolding sort_ordered
  sort-Memᴰ z [] m = elim m [ ]
  sort-Memᴰ z (x ∷ xs) (head p) = insert-Memᴰ z x (sort_ordered unmarshal xs) (head p)
  sort-Memᴰ z (x ∷ xs) (tail m) =
      insert-Memᴰ z x (sort_ordered unmarshal xs) (tail (sort-Memᴰ z xs m))

  pub active_plugins-IsActive :
      (resolved : List (ResolvedPlugin unmarshal))
      → IsActive resolved (active_plugins unmarshal resolved)
  unfolding active_plugins
  active_plugins-IsActive resolved = (
    λ p.
        sort-count p (filter (λ r. text_eq r.effective_state (codes "on")) resolved)
        ∙ count-filter (λ r. text_eq r.effective_state (codes "on")) p resolved,
    sort-Ordered (filter (λ r. text_eq r.effective_state (codes "on")) resolved),
  )

  pub active_plugins-Memᴰ :
      (item : ResolvedPlugin unmarshal) (resolved : List (ResolvedPlugin unmarshal))
      → text_eq item.effective_state (codes "on") ≡ true
      → Memᴰ item resolved
      → Memᴰ item (active_plugins unmarshal resolved)
  unfolding active_plugins
  active_plugins-Memᴰ item resolved on m =
      sort-Memᴰ item (filter (λ r. text_eq r.effective_state (codes "on")) resolved)
        (filter-Memᴰ (λ r. text_eq r.effective_state (codes "on")) item resolved on m)
