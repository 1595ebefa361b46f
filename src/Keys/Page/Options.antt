-- ===== src/Keys/Page/Options.antt =====
-- What `Normalize` accepts, and what it makes of it.
use native.Mathlib.Decide.{dec_lt}
use nineguard.Base.{
  ◌≡◌, refl, sym, subst, inl, inr, ℕ, ℤ, pos, negsuc, zero, suc, ltz, ◌≤◌, ◌<◌, List, Option, none,
  some, true, false, All, ltb, ◌==◌, arith, if◌then◌else◌, any, Bool-cases,
}
use nineguard.Base.Text.{Text, codes, trim_space, to_lower, is_blank}
use nineguard.Keys.Page.{
  ListOptions, allowed_limits, sort_fields, sort_orders, status_filters, mode_filters, distance,
  nearest, clamp_limit, one_of, normal_field, sort_parameter, order_parameter, status_parameter,
  mode_parameter, Normal, invalid, normal, with_fields, normalize,
}

-- The size is allowed, no allowed one is nearer, and an equally near one is larger.
pub record IsNearest (asked size : ℕ) : Type 0 where
  pub listed : any (λ l. size == l) allowed_limits ≡ true
  pub near : All (λ l. distance asked size ≤ distance asked l) allowed_limits
  pub smallest : All (λ l. distance asked l ≡ distance asked size → size ≤ l) allowed_limits

abbrev pub AskedSize : ℤ → ℕ → Type 0
AskedSize (pos (suc n)) size = IsNearest (suc n) size
AskedSize _ size = size ≡ 25

-- The sizes by the number that is asked for.
nearest-bands :
    (n : ℕ)
    → (n < 18 → nearest n 10 allowed_limits ≡ 10)
      × ((18 ≤ n → n < 38 → nearest n 10 allowed_limits ≡ 25)
          × ((38 ≤ n → n < 76 → nearest n 10 allowed_limits ≡ 50)
              × (76 ≤ n → nearest n 10 allowed_limits ≡ 100)))
unfolding nearest
nearest-bands n = (
  λ a.
      rw
        (
          farther 10 10 (omega arith),
          farther 25 10 (omega (arith, a)),
          farther 50 10 (omega (arith, a)),
          farther 100 10 (omega (arith, a)),
        )
        refl,
  (
    λ a b.
        rw
          (
            farther 10 10 (omega arith),
            closer 25 10 (omega (arith, a, b)),
            farther 50 25 (omega (arith, a, b)),
            farther 100 25 (omega (arith, a, b)),
          )
          refl,
    (
      λ a b.
          rw
            (
              farther 10 10 (omega arith),
              closer 25 10 (omega (arith, a, b)),
              closer 50 25 (omega (arith, a, b)),
              farther 100 50 (omega (arith, a, b)),
            )
            refl,
      λ a.
          rw
            (
              farther 10 10 (omega arith),
              closer 25 10 (omega (arith, a)),
              closer 50 25 (omega (arith, a)),
              closer 100 50 (omega (arith, a)),
            )
            refl,
    ),
  ),
)
  where
    closer :
        (l best : ℕ) → distance n l < distance n best → ltb (distance n l) (distance n best) ≡ true
    closer l best h = ground (arith, h)

    farther :
        (l best : ℕ) → distance n best ≤ distance n l → ltb (distance n l) (distance n best) ≡ false
    farther l best h = ground (arith, h)

band :
    (n size : ℕ)
    → nearest n 10 allowed_limits ≡ size
    → IsNearest n size
    → IsNearest n (nearest n 10 allowed_limits)
band n size e near = rw e near

clamp_limit-AskedSize : (n : ℤ) → AskedSize n (clamp_limit n)
unfolding clamp_limit
clamp_limit-AskedSize (pos zero) = refl
clamp_limit-AskedSize (negsuc n) = refl
clamp_limit-AskedSize (pos (suc n)) = at (suc n)
  where
    at : (m : ℕ) → IsNearest m (nearest m 10 allowed_limits)
    at m =
        let (ten, (twenty_five, (fifty, hundred))) = nearest-bands m in
        elim (dec_lt m 18) [
          | yes a ↦ band m 10 (ten a) (record {
            listed = refl;
            near = (omega arith, (omega (arith, a), (omega (arith, a), (omega (arith, a), tt))));
            smallest =
                (λ e. omega arith, (λ e. omega arith, (λ e. omega arith, (λ e. omega arith, tt))));
          })
          | no a ↦ elim (dec_lt m 38) [
            | yes b ↦ band m 25 (twenty_five (omega (arith, a)) b) (record {
              listed = refl;
              near = (omega (arith, a), (omega arith, (omega (arith, b), (omega (arith, b), tt))));
              smallest = (
                λ e. omega (arith, a, e),
                (λ e. omega arith, (λ e. omega arith, (λ e. omega arith, tt))),
              );
            })
            | no b ↦ elim (dec_lt m 76) [
              | yes c ↦ band m 50 (fifty (omega (arith, b)) c) (record {
                listed = refl;
                near =
                    (omega (arith, b), (omega (arith, b), (omega arith, (omega (arith, c), tt))));
                smallest = (
                  λ e. omega (arith, b, e),
                  (λ e. omega (arith, b, e), (λ e. omega arith, (λ e. omega arith, tt))),
                );
              })
              | no c ↦ band m 100 (hundred (omega (arith, c))) (record {
                listed = refl;
                near =
                    (omega (arith, c), (omega (arith, c), (omega (arith, c), (omega arith, tt))));
                smallest = (
                  λ e. omega (arith, c, e),
                  (λ e. omega (arith, c, e), (λ e. omega (arith, c, e), (λ e. omega arith, tt))),
                );
              })
            ]
          ]
        ]

abbrev pub chosen : Text → Text → Text
chosen def raw = if is_blank (to_lower (trim_space raw)) then def else to_lower (trim_space raw)

-- A field's value, or that it is none of the allowed ones.
normal_field-chosen :
    (def : Text) (allowed : List Text) (raw : Text)
    → ((v : Text)
        → normal_field def allowed raw ≡ some v
        → (v ≡ chosen def raw) × (one_of v allowed ≡ true))
      × (normal_field def allowed raw ≡ none → one_of (chosen def raw) allowed ≡ false)
unfolding normal_field
normal_field-chosen def allowed raw = elim (Bool-cases (one_of (chosen def raw) allowed)) [
  | inl e ↦ (
    λ v h.
        let h' : some (chosen def raw) ≡ some v = rw e at h in
        let same : chosen def raw ≡ v = cc in
        (sym same, subst (λ x. one_of x allowed ≡ true) same e),
    λ h. let h' : some (chosen def raw) ≡ none = rw e at h in absurd cc,
  )
  | inr e ↦ (λ v h. let h' : none ≡ some v = rw e at h in absurd cc, λ h. e)
]

-- Options that a page can be read with.
pub record IsPage (asked o : ListOptions) : Type 0 where
  pub first_page : ltz o.page (pos 1) ≡ false
  pub sized : (size : ℕ) × (o.limit ≡ pos size) × AskedSize asked.limit size
  pub sorted :
      (o.sort ≡ chosen (codes "last_active") asked.sort) × (one_of o.sort sort_fields ≡ true)
  pub ordered : (o.order ≡ chosen (codes "desc") asked.order) × (one_of o.order sort_orders ≡ true)
  pub by_status :
      (o.status ≡ chosen (codes "all") asked.status) × (one_of o.status status_filters ≡ true)
  pub by_mode : (o.mode ≡ chosen (codes "any") asked.mode) × (one_of o.mode mode_filters ≡ true)
  pub searched : o.query ≡ trim_space asked.query

-- The value of the parameter that an error names is not allowed.
abbrev pub Checked : ListOptions → Normal → Type 0
Checked asked (invalid sort_parameter) =
    one_of (chosen (codes "last_active") asked.sort) sort_fields ≡ false
Checked asked (invalid order_parameter) =
    one_of (chosen (codes "desc") asked.order) sort_orders ≡ false
Checked asked (invalid status_parameter) =
    one_of (chosen (codes "all") asked.status) status_filters ≡ false
Checked asked (invalid mode_parameter) =
    one_of (chosen (codes "any") asked.mode) mode_filters ≡ false
Checked asked (normal o) = IsPage asked o

first_page-positive : (p : ℤ) → ltz (if ltz p (pos 1) then pos 1 else p) (pos 1) ≡ false
first_page-positive p = elim (Bool-cases (ltz p (pos 1))) [
  | inl e ↦ rw e (ground arith)
  | inr e ↦ rw e e
]

-- `Normalize` rejects options only for a parameter whose value, in lower case and without white space
-- around it, is not allowed. Otherwise the page is at least 1, the size is the allowed one nearest to
-- the size asked for (the smaller of two, 25 for one that is not positive), each field has its default
-- or the value asked for, which is allowed, and the search text is the one asked for, trimmed.
pub normalize-Checked : (asked : ListOptions) → Checked asked (normalize asked)
unfolding normalize
normalize-Checked asked =
    by_fields (normal_field (codes "last_active") sort_fields asked.sort)
      (normal_field (codes "desc") sort_orders asked.order)
      (normal_field (codes "all") status_filters asked.status)
      (normal_field (codes "any") mode_filters asked.mode) refl refl refl refl
  where
    by_fields :
        (s d t m : Option Text)
        → normal_field (codes "last_active") sort_fields asked.sort ≡ s
        → normal_field (codes "desc") sort_orders asked.order ≡ d
        → normal_field (codes "all") status_filters asked.status ≡ t
        → normal_field (codes "any") mode_filters asked.mode ≡ m
        → Checked asked (
            with_fields
              (record asked {
                page = if ltz asked.page (pos 1) then pos 1 else asked.page;
                limit = pos (clamp_limit asked.limit);
              })
              s
              d
              t
              m)
    by_fields none d t m p q r u =
        (normal_field-chosen (codes "last_active") sort_fields asked.sort).1 p
    by_fields (some s) none t m p q r u =
        (normal_field-chosen (codes "desc") sort_orders asked.order).1 q
    by_fields (some s) (some d) none m p q r u =
        (normal_field-chosen (codes "all") status_filters asked.status).1 r
    by_fields (some s) (some d) (some t) none p q r u =
        (normal_field-chosen (codes "any") mode_filters asked.mode).1 u
    by_fields (some s) (some d) (some t) (some m) p q r u = record {
      first_page = first_page-positive asked.page;
      sized = (clamp_limit asked.limit, refl, clamp_limit-AskedSize asked.limit);
      sorted = (normal_field-chosen (codes "last_active") sort_fields asked.sort).0 s p;
      ordered = (normal_field-chosen (codes "desc") sort_orders asked.order).0 d q;
      by_status = (normal_field-chosen (codes "all") status_filters asked.status).0 t r;
      by_mode = (normal_field-chosen (codes "any") mode_filters asked.mode).0 m u;
      searched = refl;
    }
