-- ===== src/Proxy/Json.antt =====
-- JSON as `encoding/json` decodes it into a Go map, and edits of it in place. Such an edit is a function to
-- the new value and whether it wrote anything.
pub mod Edits
use nineguard.Base.{ℕ, List, [], ◌∷◌, Option, none, some, Bool, true, false, ◌||◌, if◌then◌else◌}
use nineguard.Base.Text.{Text, text_eq}

-- A number is its text (`UseNumber`). The keys of an object differ, as in a map.
mutual
  pub data Json : Type 0 where
    null : Json
    boolean : Bool → Json
    number : Text → Json
    string : Text → Json
    array : Items → Json
    object : Fields → Json

  pub data Items : Type 0 where
    nil : Items
    cons : Json → Items → Items

  pub data Fields : Type 0 where
    end : Fields
    field : Text → Json → Fields → Fields

-- `json.Decoder.Decode` into a map, and `json.Marshal`.
pub record JsonCodec : Type 0 where
  pub decode : Text → Option Fields
  pub encode : Fields → Option Text

-- `m[key]`.
unfoldable pub get_field : Text → Fields → Option Json
get_field key end = none
get_field key (field k v fs) = if text_eq key k then some v else get_field key fs

-- `v.(string)`, with "" where it is no string.
abbrev pub string_of : Option Json → Text
string_of (some (string s)) = s
string_of _ = []

abbrev pub is_object : Option Json → Bool
is_object (some (object fs)) = true
is_object _ = false

-- An edit of the value of a key, if the key is there.
abbrev pub put_head : Text → Fields → Json × Bool → Fields × Bool
put_head k fs (v, b) = (field k v fs, b)

abbrev pub put_tail : Text → Json → Fields × Bool → Fields × Bool
put_tail k v (fs, b) = (field k v fs, b)

unfoldable pub on_field : Text → (Json → Json × Bool) → Fields → Fields × Bool
on_field key f end = (end, false)
on_field key f (field k v fs) =
    if text_eq key k then put_head k fs (f v) else put_tail k v (on_field key f fs)

-- An edit of an object, of each element of an array; other values stay.
abbrev pub as_object : Fields × Bool → Json × Bool
as_object (fs, b) = (object fs, b)

unfoldable pub on_object : (Fields → Fields × Bool) → Json → Json × Bool
on_object f (object fs) = as_object (f fs)
on_object f null = (null, false)
on_object f (boolean b) = (boolean b, false)
on_object f (number n) = (number n, false)
on_object f (string s) = (string s, false)
on_object f (array xs) = (array xs, false)

abbrev pub put_item : Json × Bool → Items × Bool → Items × Bool
put_item (v, b) (xs, c) = (cons v xs, b || c)

unfoldable pub each_item : (Json → Json × Bool) → Items → Items × Bool
each_item f nil = (nil, false)
each_item f (cons v xs) = put_item (f v) (each_item f xs)

abbrev pub as_array : Items × Bool → Json × Bool
as_array (xs, b) = (array xs, b)

unfoldable pub on_elements : (Json → Json × Bool) → Json → Json × Bool
unfolding each_item
on_elements f (array xs) = as_array (each_item f xs)
on_elements f null = (null, false)
on_elements f (boolean b) = (boolean b, false)
on_elements f (number n) = (number n, false)
on_elements f (string s) = (string s, false)
on_elements f (object fs) = (object fs, false)

-- One edit after another.
unfoldable pub then_edit :
    (Fields → Fields × Bool) → (Fields → Fields × Bool) → Fields → Fields × Bool
then_edit f g fs = let (fs', b) = f fs in let (fs'', c) = g fs' in (fs'', b || c)

-- An edit by a test of the object itself.
unfoldable pub edit_if :
    (Fields → Bool) → (Fields → Fields × Bool) → (Fields → Fields × Bool) → Fields → Fields × Bool
edit_if test f g fs = if test fs then f fs else g fs

abbrev pub no_edit : Fields → Fields × Bool
no_edit fs = (fs, false)
