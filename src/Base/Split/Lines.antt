-- ===== src/Base/Split/Lines.antt =====
-- Lines joined and split again, and bytes trimmed from their ends.
use Prim.Native.Nat.{ℕ}
use mathlib.Core.Path.{◌≡◌, refl, sym, ap, ◌∙◌}
use mathlib.Core.Logic.{inl, inr}
use mathlib.Core.Bool.{Bool, true, false, not, ◌&&◌}
use mathlib.Core.List.{List, [], ◌∷◌, ◌++◌, reverse, reverse-append, reverse-reverse, append_assoc}
use native.Mathlib.Omega.{arith}
use nineguard.Base.Tests.{◌==◌, ==_iff, Bool-cases}
use nineguard.Base.Lists.{all}
use nineguard.Base.Text.{Text}
use nineguard.Base.Split.{cons_part, split_byte, join, drop_byte, trim_right_byte}

==_refl : (b : ℕ) → (b == b) ≡ true
==_refl b = (==_iff b b).1 refl

-- A text without a byte.
unfoldable pub lacks : ℕ → Text → Bool
lacks b [] = true
lacks b (c ∷ s) = not (c == b) && lacks b s

drop_byte-twice : (b : ℕ) (s : Text) → drop_byte b (drop_byte b s) ≡ drop_byte b s
unfolding drop_byte
drop_byte-twice b [] = refl
drop_byte-twice b (c ∷ s) = elim (Bool-cases (c == b)) [
  | inl e ↦ rw e (drop_byte-twice b s)
  | inr e ↦ rw (e, e)
]

pub trim_right_byte-twice :
    (b : ℕ) (s : Text) → trim_right_byte b (trim_right_byte b s) ≡ trim_right_byte b s
unfolding trim_right_byte
trim_right_byte-twice b s =
    rw (reverse-reverse (drop_byte b (reverse s))) (ap reverse (drop_byte-twice b (reverse s)))

pub trim_right_byte-append :
    (b : ℕ) (s : Text) → trim_right_byte b (s ++ (b ∷ [])) ≡ trim_right_byte b s
unfolding trim_right_byte drop_byte
trim_right_byte-append b s = rw (reverse-append s (b ∷ []), ==_refl b)

lacks-append : (b : ℕ) (s t : Text) → lacks b (s ++ t) ≡ lacks b s && lacks b t
unfolding lacks
lacks-append b [] t = refl
lacks-append b (c ∷ s) t = ground (arith, lacks-append b s t)

lacks-reverse : (b : ℕ) (s : Text) → lacks b (reverse s) ≡ lacks b s
unfolding lacks
lacks-reverse b [] = refl
lacks-reverse b (c ∷ s) =
    rw (reverse-append (c ∷ []) s, lacks-append b (reverse s) (c ∷ []), lacks-reverse b s)
      (ground arith)

drop_byte-lacks : (a b : ℕ) (s : Text) → lacks a s ≡ true → lacks a (drop_byte b s) ≡ true
unfolding lacks drop_byte
drop_byte-lacks a b [] h = refl
drop_byte-lacks a b (c ∷ s) h = elim (Bool-cases (c == b)) [
  | inl e ↦ rw e (drop_byte-lacks a b s (ground arith))
  | inr e ↦ rw e h
]

pub trim_right_byte-lacks :
    (a b : ℕ) (s : Text) → lacks a s ≡ true → lacks a (trim_right_byte b s) ≡ true
unfolding trim_right_byte
trim_right_byte-lacks a b s h =
    lacks-reverse a (drop_byte b (reverse s))
    ∙ drop_byte-lacks a b (reverse s) (lacks-reverse a s ∙ h)

drop_byte-none : (b : ℕ) (s : Text) → lacks b s ≡ true → drop_byte b s ≡ s
unfolding lacks drop_byte
drop_byte-none b [] h = refl
drop_byte-none b (c ∷ s) h = elim (Bool-cases (c == b)) [ inl e ↦ cc (rw e at h) | inr e ↦ rw e ]

pub trim_right_byte-none : (b : ℕ) (s : Text) → lacks b s ≡ true → trim_right_byte b s ≡ s
unfolding trim_right_byte
trim_right_byte-none b s h =
    ap reverse (drop_byte-none b (reverse s) (lacks-reverse b s ∙ h)) ∙ reverse-reverse s

-- No part of a split text has the separator.
pub split_byte-lacks : (b : ℕ) (s : Text) → all (lacks b) (split_byte b s) ≡ true
unfolding split_byte lacks
split_byte-lacks b [] = refl
split_byte-lacks b (c ∷ s) = elim (Bool-cases (c == b)) [
  | inl e ↦ rw e (split_byte-lacks b s)
  | inr e ↦ rw e (longer (split_byte b s) e (split_byte-lacks b s))
]
  where
    longer :
        (ps : List Text)
        → (c == b) ≡ false
        → all (lacks b) ps ≡ true
        → all (lacks b) (cons_part c ps) ≡ true
    longer [] e h = rw e
    longer (p ∷ ps) e h = rw e h

split_byte-none : (b : ℕ) (s : Text) → lacks b s ≡ true → split_byte b s ≡ s ∷ []
unfolding split_byte lacks
split_byte-none b [] h = refl
split_byte-none b (c ∷ s) h = elim (Bool-cases (c == b)) [
  | inl e ↦ cc (rw e at h)
  | inr e ↦ rw (e, split_byte-none b s (rw e at h))
]

split_byte-append :
    (b : ℕ) (s t : Text) → lacks b s ≡ true → split_byte b (s ++ (b ∷ t)) ≡ s ∷ split_byte b t
unfolding split_byte lacks
split_byte-append b [] t h = rw (==_refl b)
split_byte-append b (c ∷ s) t h = elim (Bool-cases (c == b)) [
  | inl e ↦ cc (rw e at h)
  | inr e ↦ rw (e, split_byte-append b s t (rw e at h))
]

-- Lines that all but the last end in further bytes.
unfoldable pub end_lines : Text → List Text → List Text
end_lines cr [] = []
end_lines cr (s ∷ []) = s ∷ []
end_lines cr (s ∷ t ∷ ts) = (s ++ cr) ∷ end_lines cr (t ∷ ts)

pub split_byte-join :
    (b : ℕ) (cr s : Text) (ss : List Text)
    → lacks b cr ≡ true
    → all (lacks b) (s ∷ ss) ≡ true
    → split_byte b (join (cr ++ (b ∷ [])) (s ∷ ss)) ≡ end_lines cr (s ∷ ss)
unfolding join end_lines
split_byte-join b cr s [] h clean = split_byte-none b s (ground arith)
split_byte-join b cr s (t ∷ ts) h clean =
    let rest = join (cr ++ (b ∷ [])) (t ∷ ts) in
    let regroup : s ++ ((cr ++ (b ∷ [])) ++ rest) ≡ (s ++ cr) ++ (b ∷ rest) =
      ap (λ x. s ++ x) (append_assoc cr (b ∷ []) rest) ∙ sym (append_assoc s cr (b ∷ rest)) in
    ap (split_byte b) regroup
    ∙ split_byte-append b (s ++ cr) rest (lacks-append b s cr ∙ ground arith)
    ∙ ap (λ x. (s ++ cr) ∷ x) (split_byte-join b cr t ts h (ground arith))
