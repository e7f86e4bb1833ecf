-- ===== src/Json.antt =====
-- src/core/json.cpp and include/localsend/json.hpp: JSON values, their accessors, and what the source takes
-- from the C++ library for numbers. The type of numbers, `double`, is a parameter.
pub mod Escape
pub mod Parser
pub mod Dump
pub mod Digits
pub mod Exact
pub mod Left
pub mod Total
pub mod RoundTrip
pub mod Whole
pub mod Members
use localsend_handheld.Prelude.{
  Bool, true, false, List, [], ◌∷◌, ◌++◌, Option, none, some, Bytes, codes,
}
use localsend_handheld.Prelude.Int.{ℤ}
use localsend_handheld.Prelude.Map.{Map, find, insert, has_key}
use localsend_handheld.Prelude.Result.{Result, ok, err, ◌>>=◌}

-- `double`, with `std::stod` on a text (nothing if it throws), the casts from and to `std::int64_t`, the test
-- `std::isfinite(value) && std::floor(value) == value`, and `std::setprecision(15)`.
pub record Numbers : Type 1 where
  pub Number : Type 0
  pub stod : Bytes → Option Number
  pub of_int64 : ℤ → Number
  pub to_int64 : Number → ℤ
  pub is_integral : Number → Bool
  pub print15 : Number → Bytes

-- The two containers hold values, so they are declared with them: an array's items and an object's
-- fields.
mutual
  pub data Json (A : Type 0) : Type 0 where
    null : Json A
    boolean : Bool → Json A
    number : A → Json A
    string : Bytes → Json A
    object : Fields A → Json A
    array : Items A → Json A

  pub data Fields (A : Type 0) : Type 0 where
    no_fields : Fields A
    field : Bytes → Json A → Fields A → Fields A

  pub data Items (A : Type 0) : Type 0 where
    no_items : Items A
    item : Json A → Items A → Items A

-- `Json::Object` is a map and `Json::Array` a vector.
abbrev pub to_map : {A : Type 0} → Fields A → Map (Json A)
to_map no_fields = []
to_map (field key value fields) = (key, value) ∷ to_map fields

abbrev pub of_map : {A : Type 0} → Map (Json A) → Fields A
of_map [] = no_fields
of_map ((key, value) ∷ m) = field key value (of_map m)

abbrev pub to_list : {A : Type 0} → Items A → List (Json A)
to_list no_items = []
to_list (item value items) = value ∷ to_list items

abbrev pub of_list : {A : Type 0} → List (Json A) → Items A
of_list [] = no_items
of_list (value ∷ values) = item value (of_list values)

abbrev pub is_null : {A : Type 0} → Json A → Bool
is_null null = true
is_null (boolean b) = false
is_null (number x) = false
is_null (string s) = false
is_null (object entries) = false
is_null (array entries) = false

abbrev pub is_object : {A : Type 0} → Json A → Bool
is_object null = false
is_object (boolean b) = false
is_object (number x) = false
is_object (string s) = false
is_object (object entries) = true
is_object (array entries) = false

abbrev pub is_array : {A : Type 0} → Json A → Bool
is_array null = false
is_array (boolean b) = false
is_array (number x) = false
is_array (string s) = false
is_array (object entries) = false
is_array (array entries) = true

abbrev pub as_bool : {A : Type 0} → Json A → Result Bool
as_bool (boolean b) = ok b
as_bool null = err (codes "JSON value is not bool")
as_bool (number x) = err (codes "JSON value is not bool")
as_bool (string s) = err (codes "JSON value is not bool")
as_bool (object entries) = err (codes "JSON value is not bool")
as_bool (array entries) = err (codes "JSON value is not bool")

abbrev pub as_number : {A : Type 0} → Json A → Result A
as_number (number x) = ok x
as_number null = err (codes "JSON value is not number")
as_number (boolean b) = err (codes "JSON value is not number")
as_number (string s) = err (codes "JSON value is not number")
as_number (object entries) = err (codes "JSON value is not number")
as_number (array entries) = err (codes "JSON value is not number")

abbrev pub as_string : {A : Type 0} → Json A → Result Bytes
as_string (string s) = ok s
as_string null = err (codes "JSON value is not string")
as_string (boolean b) = err (codes "JSON value is not string")
as_string (number x) = err (codes "JSON value is not string")
as_string (object entries) = err (codes "JSON value is not string")
as_string (array entries) = err (codes "JSON value is not string")

abbrev pub as_object : {A : Type 0} → Json A → Result (Map (Json A))
as_object (object fields) = ok (to_map fields)
as_object null = err (codes "JSON value is not object")
as_object (boolean b) = err (codes "JSON value is not object")
as_object (number x) = err (codes "JSON value is not object")
as_object (string s) = err (codes "JSON value is not object")
as_object (array entries) = err (codes "JSON value is not object")

abbrev pub as_array : {A : Type 0} → Json A → Result (List (Json A))
as_array (array items) = ok (to_list items)
as_array null = err (codes "JSON value is not array")
as_array (boolean b) = err (codes "JSON value is not array")
as_array (number x) = err (codes "JSON value is not array")
as_array (string s) = err (codes "JSON value is not array")
as_array (object entries) = err (codes "JSON value is not array")

unfoldable pub as_int64 : (n : Numbers) → Json n.Number → Result ℤ
as_int64 n json = do x ← as_number json; ok (n.to_int64 x)

abbrev pub contains : {A : Type 0} → Json A → Bytes → Bool
contains (object fields) key = has_key key (to_map fields)
contains null key = false
contains (boolean b) key = false
contains (number x) key = false
contains (string s) key = false
contains (array items) key = false

abbrev found_at : {A : Type 0} → Bytes → Option (Json A) → Result (Json A)
found_at key none = err (codes "missing JSON key: " ++ key)
found_at key (some value) = ok value

unfoldable pub at : {A : Type 0} → Json A → Bytes → Result (Json A)
at json key = do m ← as_object json; found_at key (find key m)

-- `json[key] = value`, which makes an object of null.
unfoldable pub set_member : {A : Type 0} → Bytes → Json A → Json A → Result (Json A)
set_member key value null = ok (object (of_map (insert key value [])))
set_member key value (object entries) = ok (object (of_map (insert key value (to_map entries))))
set_member key value (boolean b) = err (codes "JSON value is not object")
set_member key value (number x) = err (codes "JSON value is not object")
set_member key value (string s) = err (codes "JSON value is not object")
set_member key value (array entries) = err (codes "JSON value is not object")

-- `push_back`, which makes an array of null.
unfoldable pub push_back : {A : Type 0} → Json A → Json A → Result (Json A)
push_back value null = ok (array (of_list (value ∷ [])))
push_back value (array entries) = ok (array (of_list (to_list entries ++ value ∷ [])))
push_back value (boolean b) = err (codes "JSON value is not array")
push_back value (number x) = err (codes "JSON value is not array")
push_back value (string s) = err (codes "JSON value is not array")
push_back value (object entries) = err (codes "JSON value is not array")
