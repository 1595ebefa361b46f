-- ===== src/Log.antt =====
-- internal/ui/hub.go: `LogHub`, the ring of recent log entries and the channels of its subscribers. An
-- entry is a value of any type; a channel is the list of what it holds, 128 entries at most.
pub mod Recent
pub mod Channels
mod Examples
use nineguard.Base.{
  ℕ, ℤ, pos, zero, suc, ◌+◌, List, [], ◌∷◌, ◌++◌, map, filter, Option, none, some, Bool, true,
  false, not, ◌==◌, ltb, leb, if◌then◌else◌, length,
}

pub record Channel {ℓ} (E : Type ℓ) : Type ℓ where
  pub sub_id : ℕ
  pub buffer : List E

pub record LogHub {ℓ} (E : Type ℓ) : Type ℓ where
  pub ring : List E
  pub ring_size : ℕ
  pub subscribers : List (Channel E)
  pub next_sub_id : ℕ

-- The capacity, 200 for one that is not positive.
abbrev pub ring_size_of : ℤ → ℕ
ring_size_of (pos (suc n)) = suc n
ring_size_of _ = 200

module _ {ℓ} {E : Type ℓ} where
  unfoldable pub new_log_hub : ℤ → LogHub E
  new_log_hub capacity = record {
    ring = [];
    ring_size = ring_size_of capacity;
    subscribers = [];
    next_sub_id = 0;
  }

  -- `h.ring[1:]`.
  abbrev pub tail_of : List E → List E
  tail_of [] = []
  tail_of (e ∷ es) = es

  unfoldable pub push_ring : ℕ → E → List E → List E
  push_ring size e ring = (if leb size (length ring) then tail_of ring else ring) ++ (e ∷ [])

  -- A send that is dropped when the channel is full.
  unfoldable pub send : E → Channel E → Channel E
  send e ch =
      if ltb (length ch.buffer) 128 then record ch { buffer = ch.buffer ++ (e ∷ []) } else ch

  unfoldable pub push : E → LogHub E → LogHub E
  unfolding push_ring send
  push e h = record h {
    ring = push_ring h.ring_size e h.ring;
    subscribers = map (send e) h.subscribers;
  }

  unfoldable pub recent : LogHub E → List E
  recent h = h.ring

  unfoldable pub subscribe : LogHub E → LogHub E × ℕ
  subscribe h =
      let id = h.next_sub_id + 1 in
      (
        record h {
          next_sub_id = id;
          subscribers = h.subscribers ++ (record { sub_id = id; buffer = [] } ∷ []);
        },
        id,
      )

  unfoldable pub unsubscribe : ℕ → LogHub E → LogHub E
  unsubscribe id h = record h { subscribers = filter (λ ch. not (ch.sub_id == id)) h.subscribers }

-- What happens to a hub: a call of it, or a subscriber that takes the first entry of its channel.
pub data HubCall {ℓ} (E : Type ℓ) : Type ℓ where
  pushed : E → HubCall E
  subscribed : HubCall E
  unsubscribed taken : ℕ → HubCall E

module _ {ℓ} {E : Type ℓ} where
  unfoldable pub take_entry : ℕ → Channel E → Channel E
  take_entry id ch = if ch.sub_id == id then record ch { buffer = tail_of ch.buffer } else ch

  unfoldable pub hub_step : HubCall E → LogHub E → LogHub E
  unfolding push subscribe unsubscribe take_entry
  hub_step (pushed e) h = push e h
  hub_step subscribed h = (subscribe h).0
  hub_step (unsubscribed id) h = unsubscribe id h
  hub_step (taken id) h = record h { subscribers = map (take_entry id) h.subscribers }

  unfoldable pub hub_run : List (HubCall E) → LogHub E → LogHub E
  hub_run [] h = h
  hub_run (c ∷ cs) h = hub_run cs (hub_step c h)
