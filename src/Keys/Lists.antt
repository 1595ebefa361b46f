-- ===== src/Keys/Lists.antt =====
-- `ParseAllowedModels`, `SerializeAllowedModels`, `MaskKey` and `DeriveAccessMode` of internal/keys,
-- and the masking of internal/providers. `ListCodec` stands for `encoding/json` on lists of strings:
-- `unmarshal` returns whether it succeeded with what it left in the list, `marshal` is none on an error.
pub mod Mask
pub mod Examples
use nineguard.Base.{
  ℕ, List, [], ◌∷◌, ◌++◌, Option, none, some, Bool, true, false, not, ◌&&◌, if◌then◌else◌,
}
use nineguard.Base.Text.{Text, codes, trim_space, to_lower, has_prefix, is_blank}
use nineguard.Base.Split.{split_byte, join}
use nineguard.Keys.Access.{no_entries}

pub record ListCodec : Type 0 where
  pub unmarshal : Text → Bool × List Text
  pub marshal : List Text → Option Text

-- The loop that appends the trimmed entries that are not blank.
unfoldable pub clean : List Text → List Text
unfolding trim_space
clean [] = []
clean (m ∷ ms) =
    let rest = clean ms in if is_blank (trim_space m) then rest else trim_space m ∷ rest

abbrev pub or_split : Text → Bool × List Text → List Text
or_split raw (true, list) = clean list
or_split raw (false, list) = list ++ clean (split_byte b',' raw)

unfoldable pub parse_trimmed : ListCodec → Text → List Text
unfolding clean split_byte has_prefix
parse_trimmed codec raw =
    if is_blank raw
    then []
    else if has_prefix raw (codes "[")
    then or_split raw (codec.unmarshal raw)
    else clean (split_byte b',' raw)

unfoldable pub parse_allowed_models : ListCodec → Text → List Text
unfolding trim_space parse_trimmed
parse_allowed_models codec raw = parse_trimmed codec (trim_space raw)

abbrev pub or_join : List Text → Option Text → Text
or_join ms none = join (codes ",") ms
or_join ms (some text) = text

unfoldable pub serialize_allowed_models : ListCodec → List Text → Text
unfolding clean join
serialize_allowed_models codec ms =
    let cleaned = clean ms in
    if no_entries cleaned then [] else or_join cleaned (codec.marshal cleaned)

-- `DeriveAccessMode`: an explicit mode wins.
unfoldable pub derive_access_mode : Text → List Text → List Text → Text
unfolding trim_space to_lower
derive_access_mode mode groups allowed =
    if not (is_blank (to_lower (trim_space mode)))
    then to_lower (trim_space mode)
    else if not (no_entries groups)
    then codes "group"
    else if not (no_entries allowed)
    then codes "custom"
    else codes "all"
