-- ===== src/Proxy/Headers.antt =====
-- internal/proxy/hopbyhop.go. A header map is a list of names with their values, in any order.
pub mod Removed
use nineguard.Base.{
  ℕ, List, [], ◌∷◌, ◌++◌, Bool, true, false, not, ◌&&◌, ◌==◌, if◌then◌else◌, any, filter,
}
use nineguard.Base.Text.{Text, codes, text_eq, trim_space, equal_fold, to_lower, is_blank}
use nineguard.Base.Split.{split_byte, trim_byte}

abbrev pub Header : Type 0
Header = List (Text × List Text)

abbrev pub hop_by_hop_headers : List Text
hop_by_hop_headers =
    codes "connection"
    ∷ codes "proxy-connection"
    ∷ codes "keep-alive"
    ∷ codes "proxy-authenticate"
    ∷ codes "proxy-authorization"
    ∷ codes "te"
    ∷ codes "trailer"
    ∷ codes "transfer-encoding"
    ∷ codes "upgrade"
    ∷ []

unfoldable pub connection_options : List Text → List Text
unfolding trim_byte trim_space to_lower
connection_options [] = []
connection_options (token ∷ tokens) =
    let rest = connection_options tokens in
    let option = trim_byte b'"' (trim_space token) in
    if is_blank option then rest else to_lower option ∷ rest

unfoldable pub value_options : List Text → List Text
unfolding connection_options split_byte
value_options [] = []
value_options (v ∷ vs) = connection_options (split_byte b',' v) ++ value_options vs

-- The loop over the `Connection` headers.
unfoldable pub listed : Header → List Text
listed [] = []
listed ((k, values) ∷ h) =
    if equal_fold k (codes "connection") then value_options values ++ listed h else listed h

-- `toRemove`.
abbrev pub to_remove : Header → List Text
to_remove h = hop_by_hop_headers ++ listed h

unfoldable pub kept : List Text → Text × List Text → Bool
kept remove (k, values) = not (any (text_eq (to_lower k)) remove)

unfoldable pub remove_hop_by_hop_headers : Header → Header
remove_hop_by_hop_headers h = filter (kept (to_remove h)) h
