-- ===== src/Proxy/Headers/Removed.antt =====
-- Which headers are removed, and that nothing more is removed the second time.
use nineguard.Base.{
  ◌≡◌, refl, ap, ◌∙◌, inl, inr, List, [], ◌∷◌, ◌++◌, Bool, true, false, arith, any, filter,
  Bool-cases, if◌then◌else◌, not, ◌&&◌, ◌||◌,
}
use nineguard.Base.Text.{Text, codes, equal_fold, text_eq, to_lower, trim_space, is_blank}
use nineguard.Base.Split.{split_byte, trim_byte}
use nineguard.Proxy.Headers.{
  connection_options, value_options, Header, hop_by_hop_headers, listed, to_remove, kept,
  remove_hop_by_hop_headers,
}

connection_removed :
    (more : List Text) (k : Text) (values : List Text)
    → equal_fold k (codes "connection") ≡ true
    → kept (hop_by_hop_headers ++ more) (k, values) ≡ false
unfolding kept equal_fold
connection_removed more k values h = rw h refl

listed-filter :
    (more : List Text) (h : Header) → listed (filter (kept (hop_by_hop_headers ++ more)) h) ≡ []
unfolding listed
listed-filter more [] = refl
listed-filter more ((k, values) ∷ h) =
    elim (Bool-cases (kept (hop_by_hop_headers ++ more) (k, values))) [
      | inr e ↦ rw e (listed-filter more h)
      | inl e ↦ elim (Bool-cases (equal_fold k (codes "connection"))) [
        | inl c ↦ ground (arith, connection_removed more k values c)
        | inr c ↦ rw (e, c) (listed-filter more h)
      ]
    ]

filter-weaker :
    (p q : Text × List Text → Bool)
    → ((x : Text × List Text) → q x ≡ true → p x ≡ true)
    → (h : Header) → filter p (filter q h) ≡ filter q h
filter-weaker p q w [] = refl
filter-weaker p q w (x ∷ h) = elim (Bool-cases (q x)) [
  | inl e ↦ rw (e, w x e) (ap (λ t. x ∷ t) (filter-weaker p q w h))
  | inr e ↦ rw e (filter-weaker p q w h)
]

kept-fewer :
    (xs ys : List Text) (x : Text × List Text) → kept (xs ++ ys) x ≡ true → kept (xs ++ []) x ≡ true
unfolding kept
kept-fewer [] ys (k, values) h = refl
kept-fewer (x ∷ xs) ys (k, values) h = ground (arith, kept-fewer xs ys (k, values))

remove_twice :
    (h : Header)
    → remove_hop_by_hop_headers (remove_hop_by_hop_headers h) ≡ remove_hop_by_hop_headers h
unfolding remove_hop_by_hop_headers
remove_twice h =
    ap (λ more. filter (kept (hop_by_hop_headers ++ more)) (filter (kept (to_remove h)) h))
      (listed-filter (listed h) h)
    ∙ filter-weaker (kept (hop_by_hop_headers ++ [])) (kept (to_remove h))
        (kept-fewer hop_by_hop_headers (listed h)) h

-- The name of a header is one of the nine that concern one connection, in any case.
abbrev pub is_hop_by_hop : Text → Bool
is_hop_by_hop k = any (equal_fold k) (
    codes "Connection"
    ∷ codes "Proxy-Connection"
    ∷ codes "Keep-Alive"
    ∷ codes "Proxy-Authenticate"
    ∷ codes "Proxy-Authorization"
    ∷ codes "TE"
    ∷ codes "Trailer"
    ∷ codes "Transfer-Encoding"
    ∷ codes "Upgrade"
    ∷ [])

-- A value names a header: one of the parts between its commas is the name, in any case, without white
-- space and quotes around it.
abbrev pub names : Text → Text → Bool
names k value =
    any (λ part. equal_fold k (trim_byte b'"' (trim_space part))) (split_byte b',' value)

-- A `Connection` header of the request names it.
abbrev pub is_named : Header → Text → Bool
is_named [] k = false
is_named ((c, values) ∷ h) k =
    equal_fold c (codes "Connection") && any (names k) values || is_named h k

any-append : (p : Text → Bool) (xs ys : List Text) → any p (xs ++ ys) ≡ (any p xs || any p ys)
any-append p [] ys = refl
any-append p (x ∷ xs) ys = ground (arith, any-append p xs ys)

lower_blank : (k : Text) → is_blank (to_lower k) ≡ is_blank k
unfolding to_lower
lower_blank [] = refl
lower_blank (c ∷ k) = refl

fold_blank : (k t : Text) → is_blank k ≡ false → is_blank t ≡ true → equal_fold k t ≡ false
unfolding equal_fold to_lower text_eq
fold_blank [] t e b = cc
fold_blank (c ∷ k) [] e b = refl
fold_blank (c ∷ k) (d ∷ t) e b = cc

options-name :
    (k : Text) (parts : List Text)
    → is_blank k ≡ false
    → any (text_eq (to_lower k)) (connection_options parts)
      ≡ any (λ part. equal_fold k (trim_byte b'"' (trim_space part))) parts
unfolding connection_options equal_fold
options-name k [] e = refl
options-name k (part ∷ parts) e = elim (Bool-cases (is_blank (trim_byte b'"' (trim_space part)))) [
  | inl b ↦ rw (b, fold_blank k (trim_byte b'"' (trim_space part)) e b) (options-name k parts e)
  | inr b ↦ rw (b, options-name k parts e)
]

values-name :
    (k : Text) (values : List Text)
    → is_blank k ≡ false
    → any (text_eq (to_lower k)) (value_options values) ≡ any (names k) values
unfolding value_options
values-name k [] e = refl
values-name k (v ∷ vs) e = rw (
  any-append (text_eq (to_lower k)) (connection_options (split_byte b',' v)) (value_options vs),
  options-name k (split_byte b',' v) e,
  values-name k vs e,
)

listed-name :
    (k : Text) (h : Header)
    → is_blank k ≡ false
    → any (text_eq (to_lower k)) (listed h) ≡ is_named h k
unfolding listed equal_fold
listed-name k [] e = refl
listed-name k ((c, values) ∷ h) e = elim (Bool-cases (equal_fold c (codes "connection"))) [
  | inl f ↦ rw (
    f,
    any-append (text_eq (to_lower k)) (value_options values) (listed h),
    values-name k values e,
    listed-name k h e,
  )
  | inr f ↦ rw (f, listed-name k h e)
]

options-blank : (parts : List Text) → any (text_eq []) (connection_options parts) ≡ false
unfolding connection_options text_eq to_lower
options-blank [] = refl
options-blank (part ∷ parts) = by_option (trim_byte b'"' (trim_space part)) (options-blank parts)
  where
    by_option :
        (t : Text)
        → any (text_eq []) (connection_options parts) ≡ false
        → any
            (text_eq [])
            (if is_blank t then connection_options parts else to_lower t ∷ connection_options parts)
          ≡ false
    by_option [] h = h
    by_option (c ∷ t) h = h

values-blank : (values : List Text) → any (text_eq []) (value_options values) ≡ false
unfolding value_options
values-blank [] = refl
values-blank (v ∷ vs) = rw (
  any-append (text_eq []) (connection_options (split_byte b',' v)) (value_options vs),
  options-blank (split_byte b',' v),
  values-blank vs,
)

listed-blank : (h : Header) → any (text_eq []) (listed h) ≡ false
unfolding listed
listed-blank [] = refl
listed-blank ((c, values) ∷ h) = elim (Bool-cases (equal_fold c (codes "connection"))) [
  | inl f ↦
      rw (f, any-append (text_eq []) (value_options values) (listed h), values-blank values)
        (listed-blank h)
  | inr f ↦ rw (f, listed-blank h)
]

-- A header that is not forwarded.
abbrev pub is_removed : Header → Text × List Text → Bool
is_removed h (k, values) = is_hop_by_hop k || not (is_blank k) && is_named h k

kept-removed : (h : Header) (x : Text × List Text) → kept (to_remove h) x ≡ not (is_removed h x)
unfolding kept equal_fold
kept-removed h ([], values) = ap not (
    any-append (text_eq []) hop_by_hop_headers (listed h)
    ∙ ap (λ b. any (text_eq []) hop_by_hop_headers || b) (listed-blank h))
kept-removed h (c ∷ k, values) = ap not (
    any-append (text_eq (to_lower (c ∷ k))) hop_by_hop_headers (listed h)
    ∙ ap (λ b. any (text_eq (to_lower (c ∷ k))) hop_by_hop_headers || b)
        (listed-name (c ∷ k) h refl))

filter-same :
    (p q : Text × List Text → Bool)
    → ((x : Text × List Text) → p x ≡ q x)
    → (h : Header) → filter p h ≡ filter q h
filter-same p q same [] = refl
filter-same p q same (x ∷ h) = rw (same x, filter-same p q same h)

-- RemoveHopByHopHeaders removes exactly the headers whose name, in any case, is one of the nine that
-- concern one connection, or that a part of a Connection header of the request names; the others
-- stay. Done a second time it removes nothing more.
pub remove_hop_by_hop_headers-removes :
    (h : Header)
    → (remove_hop_by_hop_headers h ≡ filter (λ x. not (is_removed h x)) h)
      × (remove_hop_by_hop_headers (remove_hop_by_hop_headers h) ≡ remove_hop_by_hop_headers h)
unfolding remove_hop_by_hop_headers
remove_hop_by_hop_headers-removes h = (
  filter-same (kept (to_remove h)) (λ x. not (is_removed h x)) (kept-removed h) h,
  remove_twice h,
)
