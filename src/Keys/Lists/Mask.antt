-- ===== src/Keys/Lists/Mask.antt =====
-- `MaskKey` of internal/keys/keys.go and `maskKey` of internal/providers/providers.go. A slice out
-- of range is a panic: `none`.
use nineguard.Base.{
  ◌-◌, ◌≤◌, ◌<◌, ◌≡◌, ◌≢◌, ◌↔◌, ◌++◌, Option, none, some, arith, leb, ltb, ◌==◌, if◌then◌else◌,
  length,
}
use native.Mathlib.Decide.{dec_lt}
use nineguard.Base.Text.{Text, codes, trim_space, to_lower, has_prefix, drop, take}

-- The key without a "Bearer " in front.
unfoldable pub bare_key : Text → Text
unfolding trim_space to_lower has_prefix drop
bare_key raw =
    let key = trim_space raw in
    if has_prefix (to_lower key) (codes "bearer ") then trim_space (drop 7 key) else key

-- `key[len(key)-2:]`.
unfoldable pub last_two : Text → Option Text
unfolding drop
last_two key = if ltb (length key) 2 then none else some (drop (length key - 2) key)

unfoldable pub middle_masked : Text → Text
middle_masked key = take 6 key ++ (codes "..." ++ drop (length key - 4) key)

abbrev pub dotted : Option Text → Option Text
dotted none = none
dotted (some tail) = some (codes "sk-..." ++ tail)

unfoldable pub mask_key : Text → Option Text
mask_key raw =
    let key = bare_key raw in
    if leb (length key) 10
    then (if length key == 0 then some (codes "none") else dotted (last_two key))
    else some (middle_masked key)

unfoldable pub mask_provider_key : Text → Option Text
mask_provider_key raw =
    let key = bare_key raw in
    if leb (length key) 10
    then (if length key == 0
        then some (codes "none")
        else if leb (length key) 4
        then some (codes "sk-...")
        else dotted (last_two key))
    else some (middle_masked key)

last_two_short : (key : Text) → length key < 2 → last_two key ≡ none
unfolding last_two
last_two_short key h = ground arith

last_two_long : (key : Text) → 2 ≤ length key → (text : Text) × (last_two key ≡ some text)
unfolding last_two
last_two_long key h = (drop (length key - 2) key, ground arith)

-- The mask of a client key panics exactly on a key of one byte; the mask of a provider key never
-- does, and the two agree on every key of more than four bytes.
pub masks_compared :
    (raw : Text)
    → ((mask_key raw ≡ none) ↔ (length (bare_key raw) ≡ 1))
      × (mask_provider_key raw ≢ none)
      × (4 < length (bare_key raw) → mask_key raw ≡ mask_provider_key raw)
unfolding mask_key mask_provider_key
masks_compared raw =
    let key = bare_key raw in
    elim (dec_lt (length key) 2) [
      | yes short ↦ (
        ground (arith, last_two_short key short),
        ground (arith, last_two_short key short),
        ground arith,
      )
      | no long ↦
          let (text, e) = last_two_long key (omega (arith, long)) in
          (ground (arith, e), ground (arith, e), ground (arith, e))
    ]
