-- ===== src/Json.antt =====
-- serde_json::Value, which requests, configurations and results travel in.
use repl_mcp.Base.{
  ℕ, String, Bool, true, false, Option, none, some, ◌==◌, string_eq, if◌then◌else◌, List, [], ◌∷◌,
  map, ◌≡◌, arith, refl, ◌≢◌, ◌∙◌, ap,
}

-- An object's keys are distinct. `unsigned` is a number that fits u64; any other number is `number`,
-- with a code for what it is.
mutual
  pub data Value : Type 0 where
    null : Value
    bool : Bool → Value
    unsigned : ℕ → Value
    number : ℕ → Value
    str : String → Value
    array : Items → Value
    object : Fields → Value

  pub data Items : Type 0 where
    nil : Items
    cons : Value → Items → Items

  pub data Fields : Type 0 where
    end : Fields
    field : String → Value → Fields → Fields

abbrev pub lookup : String → Fields → Option Value
lookup k end = none
lookup k (field j v rest) = if j == k then some v else lookup k rest

-- Value::get
abbrev pub get : String → Value → Option Value
get k (object fields) = lookup k fields
get k _ = none

abbrev pub as_str : Value → Option String
as_str (str s) = some s
as_str _ = none

abbrev pub as_u64 : Value → Option ℕ
as_u64 (unsigned n) = some n
as_u64 _ = none

abbrev pub as_bool : Value → Option Bool
as_bool (bool b) = some b
as_bool _ = none

abbrev pub is_object : Value → Bool
is_object (object fields) = true
is_object _ = false

abbrev pub and_then : {A B : Type 0} → Option A → (A → Option B) → Option B
and_then none f = none
and_then (some a) f = f a

abbrev pub get_str : String → Value → Option String
get_str k v = and_then (get k v) as_str

-- json!({..}) and json!([..]), of distinct keys.
abbrev pub fields_of : List (String × Value) → Fields
fields_of [] = end
fields_of ((k, v) ∷ rest) = field k v (fields_of rest)

abbrev pub obj : List (String × Value) → Value
obj fields = object (fields_of fields)

abbrev pub items_of : List Value → Items
items_of [] = nil
items_of (v ∷ vs) = cons v (items_of vs)

abbrev pub arr : List Value → Value
arr vs = array (items_of vs)

abbrev pub strs : List String → Value
strs words = arr (map str words)

-- Map::insert, which keeps a key's place
abbrev pub put_field : String → Value → Fields → Fields
put_field key v end = field key v end
put_field key v (field k w rest) =
    if k == key then field k v rest else field k w (put_field key v rest)

-- value[k] = v, which panics where value is neither an object nor null.
abbrev pub set_field : String → Value → Value → Option Value
set_field k v (object fields) = some (object (put_field k v fields))
set_field k v null = some (object (field k v end))
set_field k v _ = none

-- What a key has after an insertion.
pub get-put_field :
    (key j : String) (v : Value) (fs : Fields)
    → lookup j (put_field key v fs) ≡ (if key == j then some v else lookup j fs)
get-put_field key j v end = refl
get-put_field key j v (field k w rest) = ground (
  arith,
  get-put_field key j v rest,
  string_eq.test_iff k key,
  string_eq.test_iff k j,
  string_eq.test_iff key j,
)

pub get-put_other :
    (key j : String) (v : Value) (fs : Fields)
    → key ≢ j
    → lookup j (put_field key v fs) ≡ lookup j fs
get-put_other key j v fs other =
    let different : (key == j) ≡ false = ground (arith, other, string_eq.test_iff key j) in
    get-put_field key j v fs ∙ ap (λ (b : Bool). if b then some v else lookup j fs) different
