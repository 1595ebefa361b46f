-- ===== src/Log/Recent.antt =====
-- The specification of the ring: the last entries that were pushed, as many as fit.
use mathlib.Core.List.{append_assoc, append-nil}
use nineguard.Base.{
  ℕ, ℤ, pos, negsuc, zero, suc, ◌+◌, ◌-◌, ◌≤◌, ◌<◌, ◌≡◌, refl, sym, ap, ap₂, ◌∙◌, List, [], ◌∷◌,
  ◌++◌, arith, leb, inl, inr, length, length-append, Bool-cases,
}
use nineguard.Log.{
  LogHub, HubCall, pushed, subscribed, unsubscribed, taken, ring_size_of, new_log_hub, tail_of,
  push_ring, push, recent, subscribe, unsubscribe, hub_step, hub_run,
}

pub ring_size_of-positive : (c : ℤ) → 0 < ring_size_of c
ring_size_of-positive (pos zero) = omega arith
ring_size_of-positive (pos (suc n)) = omega arith
ring_size_of-positive (negsuc n) = omega arith

drop_none : (k : ℕ) → 0 - k ≡ 0
drop_none k = omega arith

module _ {ℓ} {E : Type ℓ} where
  abbrev pub drop_first : ℕ → List E → List E
  drop_first zero es = es
  drop_first (suc n) [] = []
  drop_first (suc n) (e ∷ es) = drop_first n es

  abbrev pub last_of : ℕ → List E → List E
  last_of n es = drop_first (length es - n) es

  -- The entries that the calls push, in order.
  abbrev pub entries : List (HubCall E) → List E
  entries [] = []
  entries (pushed e ∷ cs) = e ∷ entries cs
  entries (_ ∷ cs) = entries cs

  length-drop_first : (n : ℕ) (es : List E) → length (drop_first n es) ≡ length es - n
  length-drop_first zero es = omega arith
  length-drop_first (suc n) [] = omega arith
  length-drop_first (suc n) (e ∷ es) = length-drop_first n es ∙ omega arith

  tail_of-drop_first : (n : ℕ) (es : List E) → tail_of (drop_first n es) ≡ drop_first (suc n) es
  tail_of-drop_first zero [] = refl
  tail_of-drop_first zero (e ∷ es) = refl
  tail_of-drop_first (suc n) [] = refl
  tail_of-drop_first (suc n) (e ∷ es) = tail_of-drop_first n es

  drop_first-append :
      (n : ℕ) (es fs : List E) → n ≤ length es → drop_first n (es ++ fs) ≡ drop_first n es ++ fs
  drop_first-append zero es fs h = refl
  drop_first-append (suc n) [] fs h = absurd (omega (arith, h))
  drop_first-append (suc n) (e ∷ es) fs h = drop_first-append n es fs (omega (arith, h))

  push_ring-last_of :
      (n : ℕ) (e : E) (es : List E)
      → 0 < n
      → push_ring n e (last_of n es) ≡ last_of n (es ++ (e ∷ []))
  unfolding push_ring
  push_ring-last_of n e es h = elim (Bool-cases (leb n (length (last_of n es)))) [
    | inl f ↦ rw f (full (ground (arith, f, long)))
    | inr f ↦ rw f (room (ground (arith, f, long, h)))
  ]
    where
      long : length (last_of n es) ≡ length es - (length es - n)
      long = length-drop_first (length es - n) es

      longer : length (es ++ (e ∷ [])) ≡ length es + 1
      longer = length-append es (e ∷ [])

      one_more_of : n ≤ length es → suc (length es - n) ≡ length (es ++ (e ∷ [])) - n
      one_more_of le = omega (arith, le, longer)

      full : n ≤ length es → tail_of (last_of n es) ++ (e ∷ []) ≡ last_of n (es ++ (e ∷ []))
      full le =
          ap (λ xs. xs ++ (e ∷ [])) (tail_of-drop_first (length es - n) es)
          ∙ (sym (drop_first-append (suc (length es - n)) es (e ∷ []) (omega (arith, le, h)))
              ∙ ap (λ k. drop_first k (es ++ (e ∷ []))) (one_more_of le))

      room : length es < n → last_of n es ++ (e ∷ []) ≡ last_of n (es ++ (e ∷ []))
      room lt =
          ap (λ k. drop_first k es ++ (e ∷ [])) (fits (length es) (omega (arith, lt)))
          ∙ ap (λ k. drop_first k (es ++ (e ∷ [])))
              (sym (fits (length (es ++ (e ∷ []))) (omega (arith, lt, longer))))
        where
          fits : (k : ℕ) → k ≤ n → k - n ≡ 0
          fits k le = omega (arith, le)

  run-last_of :
      (n : ℕ) (done : List E) (h : LogHub E) (cs : List (HubCall E))
      → 0 < n
      → h.ring_size ≡ n
      → h.ring ≡ last_of n done
      → (hub_run cs h).ring ≡ last_of n (done ++ entries cs)
  unfolding hub_run hub_step push subscribe unsubscribe
  run-last_of n done h [] pos_n size ring = ring ∙ ap (last_of n) (sym (append-nil done))
  run-last_of n done h (pushed e ∷ cs) pos_n size ring =
      run-last_of n (done ++ (e ∷ [])) (push e h) cs pos_n size
        (ap₂ (λ k xs. push_ring k e xs) size ring ∙ push_ring-last_of n e done pos_n)
      ∙ ap (last_of n) (append_assoc done (e ∷ []) (entries cs))
  run-last_of n done h (subscribed ∷ cs) pos_n size ring = run-last_of n done _ cs pos_n size ring
  run-last_of n done h (unsubscribed id ∷ cs) pos_n size ring =
      run-last_of n done _ cs pos_n size ring
  run-last_of n done h (taken id ∷ cs) pos_n size ring = run-last_of n done _ cs pos_n size ring

  -- After every sequence of calls of a new hub, the history is the last entries that were pushed, in order, as many as the
  -- capacity, or 200 for a capacity that is not positive.
  pub recent-last_of :
      (capacity : ℤ) (cs : List (HubCall E))
      → recent (hub_run cs (new_log_hub capacity)) ≡ last_of (ring_size_of capacity) (entries cs)
  unfolding recent new_log_hub
  recent-last_of capacity cs =
      run-last_of (ring_size_of capacity) [] (new_log_hub capacity) cs
        (ring_size_of-positive capacity) refl empty_ring
    where
      empty_ring : [] ≡ last_of (ring_size_of capacity) []
      empty_ring = ap (λ k. drop_first k []) (sym (drop_none (ring_size_of capacity)))
