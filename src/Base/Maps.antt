-- ===== src/Base/Maps.antt =====
-- Go's maps with text keys, as functions: a missing key is `none`.
use mathlib.Core.Path.{◌≡◌}
use mathlib.Core.Option.{Option, none, some}
use nineguard.Base.Tests.{if◌then◌else◌}
use nineguard.Base.Text.{Text, text_eq, text_eq_refl}

module _ {ℓ} {V : Type ℓ} where
  abbrev pub empty : Text → Option V
  empty j = none

  -- `m[k] = v`.
  abbrev pub insert : Text → V → (Text → Option V) → Text → Option V
  insert k v m j = if text_eq j k then some v else m j

  -- `delete(m, k)`.
  abbrev pub delete : Text → (Text → Option V) → Text → Option V
  delete k m j = if text_eq j k then none else m j

  pub insert_self : (k : Text) (v : V) (m : Text → Option V) → insert k v m k ≡ some v
  insert_self k v m = rw (text_eq_refl k)

  pub delete_self : (k : Text) (m : Text → Option V) → delete k m k ≡ none
  delete_self k m = rw (text_eq_refl k)
