-- ===== src/Proxy/Examples.antt =====
-- The headers of a request, and a throttled warning.
use nineguard.Base.{◌≡◌, refl, List, [], ◌∷◌, none, true, not, filter, arith}
use nineguard.Base.Text.{codes, text_eq, to_lower, equal_fold}
use nineguard.Proxy.Headers.{Header, remove_hop_by_hop_headers, listed, value_options, kept}
use nineguard.Proxy.Headers.Removed.{is_removed, remove_hop_by_hop_headers-removes}
use nineguard.Proxy.Fallback.{new_fallback_alerter, alert_for, lookup, put, clean}
use nineguard.Proxy.Fallback.Throttle.{Call, warned_at, spaced, warnings_spaced}

abbrev request : Header
request =
    (codes "Connection", codes "close, X-Trace" ∷ [])
    ∷ (codes "X-Trace", codes "1" ∷ [])
    ∷ (codes "Accept", codes "*/*" ∷ [])
    ∷ (codes "TE", codes "gzip" ∷ [])
    ∷ []

forwarded : remove_hop_by_hop_headers request ≡ ((codes "Accept", codes "*/*" ∷ []) ∷ [])
unfolding remove_hop_by_hop_headers kept text_eq to_lower listed equal_fold value_options
forwarded = refl

remove_hop_by_hop_headers-removes_example :
    (remove_hop_by_hop_headers request ≡ filter (λ x. not (is_removed request x)) request)
    × (remove_hop_by_hop_headers (remove_hop_by_hop_headers request)
        ≡ remove_hop_by_hop_headers request)
remove_hop_by_hop_headers-removes_example = remove_hop_by_hop_headers-removes request

abbrev calls : List Call
calls =
    record { at = 1; key = codes "a|b|c" }
    ∷ record { at = 4; key = codes "a|b|c" }
    ∷ record { at = 6; key = codes "a|b|d" }
    ∷ record { at = 11; key = codes "a|b|c" }
    ∷ []

warned : warned_at (codes "a|b|c") (new_fallback_alerter 10) calls ≡ (1 ∷ 11 ∷ [])
unfolding warned_at alert_for new_fallback_alerter text_eq lookup clean put
warned = refl

warnings_spaced_example :
    spaced
      (new_fallback_alerter 10).interval
      none
      (warned_at (codes "a|b|c") (new_fallback_alerter 10) calls)
    ≡ true
warnings_spaced_example = warnings_spaced 10 0 (codes "a|b|c") calls (omega arith)
