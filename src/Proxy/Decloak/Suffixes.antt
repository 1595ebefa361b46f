-- ===== src/Proxy/Decloak/Suffixes.antt =====
-- What `strings.HasSuffix` and `strings.TrimSuffix` do to a text with a suffix.
use mathlib.Core.List.{reverse, reverse-append, reverse-reverse}
use nineguard.Base.{
  ◌≡◌, refl, sym, ap, subst, ◌∙◌, [], ◌∷◌, ◌++◌, true, arith, length, length-append,
}
use nineguard.Base.Text.{Text, has_suffix, has_prefix, trim_suffix, drop}

has_prefix-append : (p x : Text) → has_prefix (p ++ x) p ≡ true
unfolding has_prefix
has_prefix-append [] x = refl
has_prefix-append (c ∷ p) x = ground (arith, has_prefix-append p x)

drop-append : (p x : Text) → drop (length p) (p ++ x) ≡ x
unfolding drop
drop-append [] x = refl
drop-append (c ∷ p) x = drop-append p x

append-drop : (x p : Text) → has_prefix x p ≡ true → p ++ drop (length p) x ≡ x
unfolding has_prefix drop
append-drop x [] h = refl
append-drop [] (c ∷ p) h = cc
append-drop (d ∷ x) (c ∷ p) h = ground (arith, append-drop x p)

length-reverse : (s : Text) → length (reverse s) ≡ length s
length-reverse [] = refl
length-reverse (c ∷ s) =
    let split : length (reverse (c ∷ s)) ≡ length (reverse s ++ (c ∷ [])) =
      ap length (reverse-append (c ∷ []) s) in
    omega (arith, split, length-append (reverse s) (c ∷ []), length-reverse s)

pub trim_suffix-append : (s t : Text) → has_suffix s t ≡ true → trim_suffix s t ++ t ≡ s
unfolding trim_suffix has_suffix
trim_suffix-append s t h =
    let d = drop (length t) (reverse s) in
    let kept : reverse t ++ d ≡ reverse s =
      subst (λ n. reverse t ++ drop n (reverse s) ≡ reverse s) (length-reverse t)
        (append-drop (reverse s) (reverse t) h) in
    rw h (
      ap (λ x. reverse d ++ x) (sym (reverse-reverse t))
      ∙ sym (reverse-append (reverse t) d)
      ∙ ap reverse kept
      ∙ reverse-reverse s)

pub has_suffix-append : (s t : Text) → has_suffix (s ++ t) t ≡ true
unfolding has_suffix
has_suffix-append s t = rw (reverse-append s t) (has_prefix-append (reverse t) (reverse s))

pub trim_suffix-undo : (s t : Text) → trim_suffix (s ++ t) t ≡ s
unfolding trim_suffix
trim_suffix-undo s t =
    let dropped : drop (length t) (reverse (s ++ t)) ≡ reverse s =
      rw (reverse-append s t, ← length-reverse t) (drop-append (reverse t) (reverse s)) in
    rw (has_suffix-append s t) (ap reverse dropped ∙ reverse-reverse s)
