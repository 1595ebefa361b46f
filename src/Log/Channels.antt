-- ===== src/Log/Channels.antt =====
-- The bounds that a hub keeps.
use nineguard.Base.{
  ℕ, ℤ, ◌+◌, ◌-◌, ◌≤◌, ◌<◌, ◌≡◌, List, [], ◌∷◌, ◌++◌, map, filter, All, Bool, ◌==◌, arith, leb, ltb,
  inl, inr, length, length-append, Bool-cases,
}
use nineguard.Log.{
  Channel, LogHub, HubCall, pushed, subscribed, unsubscribed, taken, new_log_hub, tail_of,
  push_ring, send, push, subscribe, unsubscribe, take_entry, hub_step, hub_run,
}
use nineguard.Log.Recent.{ring_size_of-positive}

module _ {ℓ} {E : Type ℓ} where
  -- A channel within its capacity, with an id that has been given.
  pub record IsOpen (next : ℕ) (ch : Channel E) : Type ℓ where
    pub buffered : length ch.buffer ≤ 128
    pub given_id : ch.sub_id ≤ next

  pub record IsBounded (h : LogHub E) : Type ℓ where
    pub some_room : 0 < h.ring_size
    pub ring_fits : length h.ring ≤ h.ring_size
    pub channels : All (IsOpen h.next_sub_id) h.subscribers

  length-tail_of : (es : List E) → length (tail_of es) ≡ length es - 1
  length-tail_of [] = omega arith
  length-tail_of (e ∷ es) = omega arith

  push_ring-fits :
      (n : ℕ) (e : E) (ring : List E) → 0 < n → length ring ≤ n → length (push_ring n e ring) ≤ n
  unfolding push_ring
  push_ring-fits n e ring pos_n le = elim (Bool-cases (leb n (length ring))) [
    | inl f ↦
        rw (f, length-append (tail_of ring) (e ∷ []), length-tail_of ring)
          (omega (arith, pos_n, le))
    | inr f ↦ rw (f, length-append ring (e ∷ [])) (ground (arith, f))
  ]

  send-IsOpen : (next : ℕ) (e : E) (ch : Channel E) → IsOpen next ch → IsOpen next (send e ch)
  unfolding send
  send-IsOpen next e ch o = elim (Bool-cases (ltb (length ch.buffer) 128)) [
    | inl f ↦ rw f (record {
      buffered = rw (length-append ch.buffer (e ∷ [])) (ground (arith, f));
      given_id = o.given_id;
    })
    | inr f ↦ rw f o
  ]

  take_entry-IsOpen :
      (next id : ℕ) (ch : Channel E) → IsOpen next ch → IsOpen next (take_entry id ch)
  unfolding take_entry
  take_entry-IsOpen next id ch o = elim (Bool-cases (ch.sub_id == id)) [
    | inl f ↦ rw f (record {
      buffered = rw (length-tail_of ch.buffer) (omega (arith, o.buffered));
      given_id = o.given_id;
    })
    | inr f ↦ rw f o
  ]

  All-later :
      (next : ℕ) (chs : List (Channel E)) → All (IsOpen next) chs → All (IsOpen (next + 1)) chs
  All-later next [] a = tt
  All-later next (ch ∷ chs) (o, a) =
      (record { buffered = o.buffered; given_id = omega (arith, o.given_id) }, All-later next chs a)

  All-mapped :
      (next : ℕ) (f : Channel E → Channel E)
      → ((ch : Channel E) → IsOpen next ch → IsOpen next (f ch))
      → (chs : List (Channel E)) → All (IsOpen next) chs
      → All (IsOpen next) (map f chs)
  All-mapped next f ok [] a = tt
  All-mapped next f ok (ch ∷ chs) (o, a) = (ok ch o, All-mapped next f ok chs a)

  All-added :
      (next : ℕ) (new : Channel E) (chs : List (Channel E))
      → IsOpen next new
      → All (IsOpen next) chs
      → All (IsOpen next) (chs ++ (new ∷ []))
  All-added next new [] o a = (o, tt)
  All-added next new (ch ∷ chs) o (p, a) = (p, All-added next new chs o a)

  All-filtered :
      (next : ℕ) (p : Channel E → Bool) (chs : List (Channel E))
      → All (IsOpen next) chs
      → All (IsOpen next) (filter p chs)
  All-filtered next p [] a = tt
  All-filtered next p (ch ∷ chs) (o, a) = elim (Bool-cases (p ch)) [
    | inl f ↦ rw f (o, All-filtered next p chs a)
    | inr f ↦ rw f (All-filtered next p chs a)
  ]

  hub_step-IsBounded : (c : HubCall E) (h : LogHub E) → IsBounded h → IsBounded (hub_step c h)
  unfolding hub_step push subscribe unsubscribe
  hub_step-IsBounded (pushed e) h b = record {
    some_room = b.some_room;
    ring_fits = push_ring-fits h.ring_size e h.ring b.some_room b.ring_fits;
    channels =
        All-mapped h.next_sub_id (send e) (send-IsOpen h.next_sub_id e) h.subscribers b.channels;
  }
  hub_step-IsBounded subscribed h b = record {
    some_room = b.some_room;
    ring_fits = b.ring_fits;
    channels =
        All-added (h.next_sub_id + 1) _ h.subscribers
          (record { buffered = omega arith; given_id = omega arith })
          (All-later h.next_sub_id h.subscribers b.channels);
  }
  hub_step-IsBounded (unsubscribed id) h b = record {
    some_room = b.some_room;
    ring_fits = b.ring_fits;
    channels = All-filtered h.next_sub_id _ h.subscribers b.channels;
  }
  hub_step-IsBounded (taken id) h b = record {
    some_room = b.some_room;
    ring_fits = b.ring_fits;
    channels =
        All-mapped h.next_sub_id (take_entry id) (take_entry-IsOpen h.next_sub_id id) h.subscribers
          b.channels;
  }

  hub_run-kept : (cs : List (HubCall E)) (h : LogHub E) → IsBounded h → IsBounded (hub_run cs h)
  unfolding hub_run
  hub_run-kept [] h b = b
  hub_run-kept (c ∷ cs) h b = hub_run-kept cs (hub_step c h) (hub_step-IsBounded c h b)

  -- After every sequence of calls of a new hub the ring holds no more entries than its size, no channel more than 128, and no
  -- channel an id above the last one given, so that the id of the next subscription is new.
  pub hub_run-IsBounded :
      (capacity : ℤ) (cs : List (HubCall E)) → IsBounded (hub_run cs (new_log_hub capacity))
  unfolding new_log_hub
  hub_run-IsBounded capacity cs = hub_run-kept cs (new_log_hub capacity) (record {
    some_room = ring_size_of-positive capacity;
    ring_fits = omega arith;
    channels = tt;
  })
