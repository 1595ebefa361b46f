-- ===== src/Keys/Access/Groups.antt =====
-- `GetModelsForGroups` is a union: nothing is lost, added or listed twice.
use nineguard.Base.{
  ◌≡◌, refl, ap, inl, inr, List, [], ◌∷◌, ◌++◌, Option, Bool, true, false, not, ◌&&◌, ◌||◌, arith,
  any, Bool-cases,
}
use nineguard.Base.Text.{Text, text_eq, text_eq→eq, text_eq_refl}
use nineguard.Keys.Access.{fresh, cached, models_of, get_models_for_groups}

abbrev pub elem : Text → List Text → Bool
elem x ms = any (text_eq x) ms

fresh-elem :
    (seen : Text → Bool) (ms : List Text) (x : Text)
    → elem x (fresh seen ms) ≡ (elem x ms && not (seen x))
unfolding fresh
fresh-elem seen [] x = refl
fresh-elem seen (m ∷ ms) x = elim (Bool-cases (text_eq x m)) [
  | inl same ↦
      let e = ap seen (text_eq→eq x m same) in
      ground (arith, e, fresh-elem seen ms x, fresh-elem (λ y. text_eq y m || seen y) ms x)
  | inr other ↦ ground (arith, fresh-elem seen ms x, fresh-elem (λ y. text_eq y m || seen y) ms x)
]

any-append : (x : Text) (xs ys : List Text) → elem x (xs ++ ys) ≡ (elem x xs || elem x ys)
any-append x [] ys = refl
any-append x (m ∷ xs) ys = ground (arith, any-append x xs ys)

models_of-elem :
    (cache : Text → Option (List Text)) (gids : List Text) (x : Text)
    → elem x (models_of cache gids) ≡ any (λ gid. elem x (cached (cache gid))) gids
models_of-elem cache [] x = refl
models_of-elem cache (gid ∷ gids) x =
    ground
      (arith, any-append x (cached (cache gid)) (models_of cache gids), models_of-elem cache gids x)

abbrev pub no_repeat : List Text → Bool
no_repeat [] = true
no_repeat (m ∷ ms) = not (elem m ms) && no_repeat ms

self_seen : (m : Text) → text_eq m m ≡ true
self_seen m = text_eq_refl m

fresh-no_repeat : (seen : Text → Bool) (ms : List Text) → no_repeat (fresh seen ms) ≡ true
unfolding fresh
fresh-no_repeat seen [] = refl
fresh-no_repeat seen (m ∷ ms) = ground (
  arith,
  fresh-no_repeat seen ms,
  fresh-no_repeat (λ y. text_eq y m || seen y) ms,
  fresh-elem (λ y. text_eq y m || seen y) ms m,
  self_seen m,
)

-- The models of a list of groups are exactly the models of its groups, each listed once; a group
-- that the cache does not know contributes nothing.
get_models_for_groups-union :
    (cache : Text → Option (List Text)) (gids : List Text) (x : Text)
    → (elem x (get_models_for_groups cache gids) ≡ any (λ gid. elem x (cached (cache gid))) gids)
      × (no_repeat (get_models_for_groups cache gids) ≡ true)
unfolding get_models_for_groups
get_models_for_groups-union cache gids x = (
  ground (arith, fresh-elem (λ y. false) (models_of cache gids) x, models_of-elem cache gids x),
  fresh-no_repeat (λ y. false) (models_of cache gids),
)
