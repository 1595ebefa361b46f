-- ===== src/Proxy/Json/Edits.antt =====
-- Edits of JSON that have nothing to do a second time.
use nineguard.Base.{◌≡◌, refl, ap, ◌∙◌, inl, inr, Option, none, some, Bool, false, Bool-cases}
use nineguard.Base.Text.{Text, text_eq, text_eq→eq}
use nineguard.Proxy.Json.{
  Json, null, boolean, number, string, array, object, nil, cons, Fields, end, field, get_field,
  is_object, on_field, on_object, each_item, on_elements, then_edit, edit_if, no_edit,
}

-- A second edit writes nothing.
abbrev pub Settles : {A : Type 0} → (A → A × Bool) → Type 0
Settles {A} f = (x : A) → (f (f x).0).1 ≡ false

abbrev changed : (Json → Json × Bool) → Option Json → Bool
changed f none = false
changed f (some v) = (f v).1

abbrev edited : (Json → Json × Bool) → Option Json → Option Json
edited f none = none
edited f (some v) = some (f v).0

settled : (f : Json → Json × Bool) (o : Option Json) → Settles f → changed f (edited f o) ≡ false
settled f none s = refl
settled f (some v) s = s v

on_field-changed :
    (key : Text) (f : Json → Json × Bool) (fs : Fields)
    → (on_field key f fs).1 ≡ changed f (get_field key fs)
unfolding on_field get_field
on_field-changed key f end = refl
on_field-changed key f (field k v fs) = elim (Bool-cases (text_eq key k)) [
  | inl e ↦ rw e
  | inr e ↦ rw e (on_field-changed key f fs)
]

get-on_field_self :
    (key : Text) (f : Json → Json × Bool) (fs : Fields)
    → get_field key (on_field key f fs).0 ≡ edited f (get_field key fs)
unfolding on_field get_field
get-on_field_self key f end = refl
get-on_field_self key f (field k v fs) = elim (Bool-cases (text_eq key k)) [
  | inl e ↦ rw (e, e)
  | inr e ↦ rw (e, e) (get-on_field_self key f fs)
]

pub get-on_field :
    (j key : Text) (f : Json → Json × Bool) (fs : Fields)
    → text_eq j key ≡ false
    → get_field j (on_field key f fs).0 ≡ get_field j fs
unfolding on_field get_field
get-on_field j key f end ne = refl
get-on_field j key f (field k v fs) ne = elim (Bool-cases (text_eq key k)) [
  | inl e ↦ rw (e, ← text_eq→eq key k e, ne)
  | inr e ↦ elim (Bool-cases (text_eq j k)) [
    | inl d ↦ rw (e, d)
    | inr d ↦ rw (e, d) (get-on_field j key f fs ne)
  ]
]

pub on_field-Settles : (key : Text) (f : Json → Json × Bool) → Settles f → Settles (on_field key f)
on_field-Settles key f s fs =
    on_field-changed key f (on_field key f fs).0
    ∙ ap (changed f) (get-on_field_self key f fs)
    ∙ settled f (get_field key fs) s

pub on_object-Settles : (f : Fields → Fields × Bool) → Settles f → Settles (on_object f)
unfolding on_object
on_object-Settles f s (object fs) = s fs
on_object-Settles f s null = refl
on_object-Settles f s (boolean b) = refl
on_object-Settles f s (number n) = refl
on_object-Settles f s (string t) = refl
on_object-Settles f s (array xs) = refl

each_item-Settles : (f : Json → Json × Bool) → Settles f → Settles (each_item f)
unfolding each_item
each_item-Settles f s nil = refl
each_item-Settles f s (cons v xs) = rw (s v) (each_item-Settles f s xs)

pub on_elements-Settles : (f : Json → Json × Bool) → Settles f → Settles (on_elements f)
unfolding on_elements
on_elements-Settles f s (array xs) = each_item-Settles f s xs
on_elements-Settles f s null = refl
on_elements-Settles f s (boolean b) = refl
on_elements-Settles f s (number n) = refl
on_elements-Settles f s (string t) = refl
on_elements-Settles f s (object fs) = refl

pub get-then_edit :
    (i j k : Text) (f g : Json → Json × Bool) (fs : Fields)
    → text_eq i j ≡ false
    → text_eq i k ≡ false
    → get_field i (then_edit (on_field j f) (on_field k g) fs).0 ≡ get_field i fs
unfolding then_edit
get-then_edit i j k f g fs a b = get-on_field i k g (on_field j f fs).0 b ∙ get-on_field i j f fs a

pub then_edit-Settles :
    (j k : Text) (f g : Json → Json × Bool)
    → text_eq j k ≡ false
    → text_eq k j ≡ false
    → Settles f
    → Settles g
    → Settles (then_edit (on_field j f) (on_field k g))
unfolding then_edit
then_edit-Settles j k f g ne ne' s t fs =
    let first = (on_field j f fs).0 in
    let both = (on_field k g first).0 in
    let a : (on_field j f both).1 ≡ false =
      on_field-changed j f both
      ∙ ap (changed f) (get-on_field j k g first ne ∙ get-on_field_self j f fs)
      ∙ settled f (get_field j fs) s in
    let b : (on_field k g (on_field j f both).0).1 ≡ false =
      on_field-changed k g (on_field j f both).0
      ∙ ap (changed g) (get-on_field k j f both ne' ∙ get-on_field_self k g first)
      ∙ settled g (get_field k first) t in
    rw (a, b)

pub edit_if-Settles :
    (test : Fields → Bool) (f g : Fields → Fields × Bool)
    → ((fs : Fields) → test (f fs).0 ≡ test fs)
    → ((fs : Fields) → test (g fs).0 ≡ test fs)
    → Settles f
    → Settles g
    → Settles (edit_if test f g)
unfolding edit_if
edit_if-Settles test f g tf tg s t fs = elim (Bool-cases (test fs)) [
  | inl e ↦ rw (e, tf fs ∙ e) (s fs)
  | inr e ↦ rw (e, tg fs ∙ e) (t fs)
]

pub no_edit-Settles : Settles no_edit
no_edit-Settles fs = refl

pub is_object-on_field_self :
    (key : Text) (f : Fields → Fields × Bool) (fs : Fields)
    → is_object (get_field key (on_field key (on_object f) fs).0) ≡ is_object (get_field key fs)
unfolding on_object
is_object-on_field_self key f fs =
    ap is_object (get-on_field_self key (on_object f) fs) ∙ kind (get_field key fs)
  where
    kind : (o : Option Json) → is_object (edited (on_object f) o) ≡ is_object o
    kind none = refl
    kind (some (object fs)) = refl
    kind (some null) = refl
    kind (some (boolean b)) = refl
    kind (some (number n)) = refl
    kind (some (string t)) = refl
    kind (some (array xs)) = refl
