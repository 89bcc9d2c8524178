-- ===== src/Session/Values.antt =====
-- Values of JSON, as src/storage/sessionmanager.cpp and src/identity/device_pairing.cpp read and make
-- them. `Reader` is `value` of nlohmann::json, which gives the default for a missing key and throws,
-- `none`, on a value of another type; IsReader is what it does with a value of the type asked for.
--   A number that is no integer is `fraction`, with its integer part. Integers are those of int64_t.
use naleystogramm_core.Prelude.{ℕ, ◌-◌, ◌<◌, ◌≡◌, ◌%◌, ◌^◌, Bool, Option, none, some, if◌then◌else◌}
use naleystogramm_core.Prelude.Text.{Text, text_eq}
use naleystogramm_core.Prelude.Int.{ℤ, pos, negsuc}

mutual
  pub data Json : Type 0 where
    null : Json
    flag : Bool → Json
    number fraction : ℤ → Json
    text : Text → Json
    array : Items → Json
    object : Fields → Json

  pub data Items : Type 0 where
    no_items : Items
    item : Json → Items → Items

  pub data Fields : Type 0 where
    no_fields : Fields
    field : Text → Json → Fields → Fields

unfoldable pub find_field : (key : Text) → Fields → Option Json
find_field key no_fields = none
find_field key (field k j f) = let rest = find_field key f in if text_eq k key then some j else rest

-- In the range of an int.
abbrev pub IsInt : ℤ → Type 0
IsInt (pos n) = n < 2 ^ 31
IsInt (negsuc n) = n < 2 ^ 31

-- static_cast to uint16_t
unfoldable pub to_uint16 : ℤ → ℕ
to_uint16 (pos n) = n % 2 ^ 16
to_uint16 (negsuc n) = 2 ^ 16 - 1 - n % 2 ^ 16

pub record Reader : Type 0 where
  pub value_text : (key default : Text) → Fields → Option Text
  pub value_flag : (key : Text) → (default : Bool) → Fields → Option Bool
  pub value_int : (key : Text) → (default : ℤ) → Fields → Option ℤ
  pub value_long : (key : Text) → (default : ℤ) → Fields → Option ℤ

pub record IsReader (r : Reader) : Type 0 where
  pub of_text :
      (key d t : Text) (f : Fields)
      → find_field key f ≡ some (text t)
      → r.value_text key d f ≡ some t
  pub of_flag :
      (key : Text) (d b : Bool) (f : Fields)
      → find_field key f ≡ some (flag b)
      → r.value_flag key d f ≡ some b
  pub of_int :
      (key : Text) (d z : ℤ) (f : Fields)
      → IsInt z
      → find_field key f ≡ some (number z)
      → r.value_int key d f ≡ some z
  pub of_long :
      (key : Text) (d z : ℤ) (f : Fields)
      → find_field key f ≡ some (number z)
      → r.value_long key d f ≡ some z

-- The object at a key, where there is one.
object_of : Option Json → Option Fields
object_of (some (object f)) = some f
object_of o = none

unfoldable pub section : (key : Text) → Fields → Option Fields
unfolding object_of
section key f = object_of (find_field key f)

array_of : Option Json → Items
array_of (some (array xs)) = xs
array_of o = no_items

-- The array at a key; where there is none, no items.
unfoldable pub items : (key : Text) → Fields → Items
unfolding array_of
items key f = array_of (find_field key f)
