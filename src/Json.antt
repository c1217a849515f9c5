-- ===== src/Json.antt =====
-- The JSON values that the verifier walks: `serde_json::Value`, over an abstract type of numbers.
-- An object is the list of its entries in the order of `Map::iter`; a key is looked up at its first
-- entry, and a map of the library has one entry to a key.
use vertrule_verifier.Prelude.{
  String, Bool, Option, none, some, List, [], ◌∷◌, str_eq, if◌then◌else◌,
}

mutual
  pub data Value (N : Type 0) : Type 0 where
    null : Value N
    boolean : Bool → Value N
    number : N → Value N
    string : String → Value N
    array : Items N → Value N
    object : Fields N → Value N

  pub data Items (N : Type 0) : Type 0 where
    nil : Items N
    cons : Value N → Items N → Items N

  pub data Fields (N : Type 0) : Type 0 where
    end : Fields N
    field : String → Value N → Fields N → Fields N

module _ {N : Type 0} where
  abbrev pub items : Items N → List (Value N)
  items nil = []
  items (cons v vs) = v ∷ items vs

  abbrev pub entries : Fields N → List (String × Value N)
  entries end = []
  entries (field k v fs) = (k, v) ∷ entries fs

  -- `map.keys()`
  abbrev pub keys : Fields N → List String
  keys end = []
  keys (field k v fs) = k ∷ keys fs

  -- `map.get(key)`
  unfoldable pub get_field : Fields N → String → Option (Value N)
  get_field end k = none
  get_field (field j v fs) k = if str_eq j k then some v else get_field fs k

  -- `map.remove(key)`: what is left
  unfoldable pub remove_field : Fields N → String → Fields N
  remove_field end k = end
  remove_field (field j v fs) k =
      let rest = remove_field fs k in if str_eq j k then rest else field j v rest

  abbrev pub as_object : Value N → Option (Fields N)
  as_object (object fs) = some fs
  as_object _ = none

  abbrev pub as_array : Value N → Option (List (Value N))
  as_array (array xs) = some (items xs)
  as_array _ = none

  abbrev pub as_str : Value N → Option String
  as_str (string t) = some t
  as_str _ = none

  abbrev pub as_number : Value N → Option N
  as_number (number n) = some n
  as_number _ = none

  -- `value.get(key)`
  abbrev pub get : Value N → String → Option (Value N)
  get (object fs) k = get_field fs k
  get _ k = none

-- `Option::and_then`
infixl 5 ◌>>=◌
abbrev pub ◌>>=◌ {ℓ κ} : {A : Type ℓ} {B : Type κ} → Option A → (A → Option B) → Option B
none >>= k = none
some a >>= k = k a

-- `Option::unwrap_or_default` on a string
abbrev pub unwrap_or_default : Option String → String
unwrap_or_default none = ""
unwrap_or_default (some s) = s
