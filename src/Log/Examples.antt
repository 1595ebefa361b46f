-- ===== src/Log/Examples.antt =====
-- The theorems of the log hub at a hub of two entries.
use nineguard.Base.{ℕ, pos, ◌≡◌, List, [], ◌∷◌}
use nineguard.Log.{
  HubCall, pushed, subscribed, unsubscribed, taken, ring_size_of, new_log_hub, recent, hub_run,
}
use nineguard.Log.Recent.{last_of, entries, recent-last_of}
use nineguard.Log.Channels.{IsBounded, hub_run-IsBounded}

abbrev calls : List (HubCall ℕ)
calls = pushed 4 ∷ subscribed ∷ pushed 5 ∷ pushed 6 ∷ taken 1 ∷ unsubscribed 1 ∷ pushed 7 ∷ []

recent-last_of_example :
    recent (hub_run calls (new_log_hub (pos 2))) ≡ last_of (ring_size_of (pos 2)) (entries calls)
recent-last_of_example = recent-last_of (pos 2) calls

hub_run-IsBounded_example : IsBounded (hub_run calls (new_log_hub (pos 2)))
hub_run-IsBounded_example = hub_run-IsBounded (pos 2) calls
