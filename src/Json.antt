-- ===== src/Json.antt =====
-- The part of `serde_json::Value` that the program uses, as data: the library's own type, which
-- src/ builds by `json!` and reads by `get` and the `as_…` accessors.
use mcp_web_search.Base.{
  ℕ, Text, text_eq, Bool, Option, none, some, List, [], ◌∷◌, ◌≡◌, refl, arith, if◌then◌else◌,
  text_eq_iff,
}

-- A number is a `u64`, a negative `i64` (`negative n` is -(n + 1)) or an `f64` by its bit pattern.
mutual
  pub data Value : Type 0 where
    null : Value
    bool : Bool → Value
    number negative float : ℕ → Value
    str : Text → Value
    arr : Items → Value
    obj : Fields → Value

  pub data Items : Type 0 where
    nil : Items
    cons : Value → Items → Items

  pub data Fields : Type 0 where
    end : Fields
    field : Text → Value → Fields → Fields

abbrev pub items : Items → List Value
items nil = []
items (cons v vs) = v ∷ items vs

abbrev pub to_items : List Value → Items
to_items [] = nil
to_items (v ∷ vs) = cons v (to_items vs)

abbrev pub to_fields : List (Text × Value) → Fields
to_fields [] = end
to_fields ((k, v) ∷ kvs) = field k v (to_fields kvs)

abbrev pub object : List (Text × Value) → Value
object kvs = obj (to_fields kvs)

abbrev pub array : List Value → Value
array vs = arr (to_items vs)

unfoldable pub get_field : Text → Fields → Option Value
get_field k end = none
get_field k (field j v fs) = if text_eq j k then some v else get_field k fs

-- `Value::get` with a string: none at what is no object.
unfoldable pub get : Value → Text → Option Value
unfolding get_field
get (obj fs) k = get_field k fs
get _ k = none

unfoldable pub as_str : Value → Option Text
as_str (str s) = some s
as_str _ = none

unfoldable pub as_u64 : Value → Option ℕ
as_u64 (number n) = some n
as_u64 _ = none

unfoldable pub as_bool : Value → Option Bool
as_bool (bool b) = some b
as_bool _ = none

unfoldable pub as_array : Value → Option (List Value)
as_array (arr vs) = some (items vs)
as_array _ = none

unfoldable pub set_field : Text → Value → Fields → Fields
set_field k v end = field k v end
set_field k v (field j w fs) = if text_eq j k then field j v fs else field j w (set_field k v fs)

-- `value[k] = v` at an object, the only value at which the program assigns.
unfoldable pub assign : Value → Text → Value → Value
unfolding set_field
assign (obj fs) k v = obj (set_field k v fs)
assign w k v = w

pub get_field-set_field :
    (j k : Text) (v : Value) (fs : Fields)
    → get_field j (set_field k v fs) ≡ (if text_eq k j then some v else get_field j fs)
unfolding get_field set_field
get_field-set_field j k v end = refl
get_field-set_field j k v (field i w fs) =
    ground (arith, get_field-set_field j k v fs, text_eq_iff i k, text_eq_iff i j, text_eq_iff k j)

pub items-to_items : (vs : List Value) → items (to_items vs) ≡ vs
items-to_items [] = refl
items-to_items (v ∷ vs) = λ i. v ∷ items-to_items vs i
