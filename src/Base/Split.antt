-- ===== src/Base/Split.antt =====
-- Go's `strings.Split`, `strings.Join` and `strings.Trim`, with a separator of one byte where noted.
pub mod Lines
use Prim.Native.Nat.{ℕ}
use mathlib.Core.List.{List, [], ◌∷◌, ◌++◌, reverse}
use nineguard.Base.Tests.{◌==◌, if◌then◌else◌}
use nineguard.Base.Text.{Text}

abbrev cons_part : ℕ → List Text → List Text
cons_part c [] = (c ∷ []) ∷ []
cons_part c (p ∷ ps) = (c ∷ p) ∷ ps

-- `strings.Split` by one byte.
unfoldable pub split_byte : ℕ → Text → List Text
split_byte b [] = [] ∷ []
split_byte b (c ∷ s) = let rest = split_byte b s in if c == b then [] ∷ rest else cons_part c rest

-- `strings.Join`.
unfoldable pub join : Text → List Text → Text
join sep [] = []
join sep (s ∷ []) = s
join sep (s ∷ t ∷ ts) = s ++ (sep ++ join sep (t ∷ ts))

drop_byte : ℕ → Text → Text
drop_byte b [] = []
drop_byte b (c ∷ s) = if c == b then drop_byte b s else c ∷ s

-- `strings.TrimRight` and `strings.Trim` of one byte.
unfoldable pub trim_right_byte : ℕ → Text → Text
unfolding drop_byte
trim_right_byte b s = reverse (drop_byte b (reverse s))

unfoldable pub trim_byte : ℕ → Text → Text
unfolding drop_byte
trim_byte b s = reverse (drop_byte b (reverse (drop_byte b s)))
