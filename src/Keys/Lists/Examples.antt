-- ===== src/Keys/Lists/Examples.antt =====
-- Lists of models and masked keys at concrete inputs.
use nineguard.Base.{
  ℕ, ◌<◌, ◌≡◌, ◌≢◌, ◌↔◌, refl, zero, suc, List, [], ◌∷◌, ◌++◌, none, some, Bool, true, false,
  length,
}
use nineguard.Base.Text.{Text, codes, take}
use nineguard.Keys.Lists.{ListCodec}
use nineguard.Keys.Lists.Mask.{
  bare_key, last_two, middle_masked, mask_key, mask_provider_key, masks_compared,
}

one_byte : mask_key (codes "Bearer x") ≡ none
unfolding mask_key bare_key last_two
one_byte = refl

usual : mask_key (codes "sk-ng-0123456789") ≡ some (codes "sk-ng-...6789")
unfolding mask_key bare_key middle_masked take
usual = refl

masks_compared_example :
    ((mask_key (codes "x") ≡ none) ↔ (length (bare_key (codes "x")) ≡ 1))
    × (mask_provider_key (codes "x") ≢ none)
    × (4 < length (bare_key (codes "x")) → mask_key (codes "x") ≡ mask_provider_key (codes "x"))
masks_compared_example = masks_compared (codes "x")

-- A codec of lists: the number of texts, then each one after its length, in brackets.
abbrev bracketed : Text → Text
bracketed s = b'[' ∷ (s ++ (b']' ∷ []))

abbrev split : ℕ → Text → Text × Text
split zero s = ([], s)
split (suc n) [] = ([], [])
split (suc n) (c ∷ s) = let (a, b) = split n s in (c ∷ a, b)

abbrev flat : List Text → Text
flat [] = []
flat (m ∷ ms) = length m ∷ (m ++ flat ms)

abbrev texts : ℕ → Text → List Text
texts zero s = []
texts (suc n) [] = []
texts (suc n) (k ∷ s) = let (m, rest) = split k s in m ∷ texts n rest

abbrev counted : Text → Bool × List Text
counted (_ ∷ n ∷ s) = (true, texts n s)
counted _ = (false, [])

abbrev pub lists : ListCodec
lists = record { unmarshal = counted; marshal = λ ms. some (bracketed (length ms ∷ flat ms)) }
