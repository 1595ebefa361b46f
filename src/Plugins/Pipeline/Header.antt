-- ===== src/Plugins/Pipeline/Header.antt =====
-- The header of applied plugins: `ComputeAppliedHeader` and `parseIncomingApplied`.
use nineguard.Base.{List, [], ◌∷◌, Bool, not, ◌&&◌, if◌then◌else◌, any}
use nineguard.Base.Text.{Text, codes, text_eq, trim_space, is_blank}
use nineguard.Base.Split.{split_byte, join}
use nineguard.Plugins.{text_lt}

abbrev pub valid_builtins : List Text
valid_builtins =
    codes "secretguard"
    ∷ codes "headroom"
    ∷ codes "billion-context"
    ∷ codes "caveman"
    ∷ codes "ponytail"
    ∷ []

abbrev pub holds_text : List Text → Text → Bool
holds_text xs x = any (λ y. text_eq x y) xs

unfoldable pub is_applied : Text → Text → Bool
unfolding split_byte trim_space text_eq
is_applied raw id = not (is_blank id) && any (λ s. text_eq id (trim_space s)) (split_byte b',' raw)

-- A set of texts, kept sorted: `list` after `sort.Strings`.
unfoldable pub add_sorted : Text → List Text → List Text
unfolding text_lt
add_sorted x [] = x ∷ []
add_sorted x (y ∷ ys) =
    let rest = add_sorted x ys in
    if text_eq x y then y ∷ ys else if text_lt x y then x ∷ y ∷ ys else y ∷ rest

unfoldable pub add_valid : List Text → List Text → List Text
unfolding trim_space text_eq
add_valid [] set = set
add_valid (s ∷ ss) set =
    let id = trim_space s in
    add_valid ss (if holds_text valid_builtins id then add_sorted id set else set)

unfoldable pub applied_ids : Text → List Text → List Text
unfolding split_byte
applied_ids incoming executed = add_valid executed (add_valid (split_byte b',' incoming) [])

unfoldable pub compute_applied_header : Text → List Text → Text
unfolding join
compute_applied_header incoming executed = join (codes ",") (applied_ids incoming executed)
