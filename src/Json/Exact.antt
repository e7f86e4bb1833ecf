-- ===== src/Json/Exact.antt =====
-- JSON values that can be written and read back without loss, and one step of the parser of json.cpp at a
-- time on what `dump` writes.
use mathlib.Core.List.{append_assoc}
use localsend_handheld.Prelude.{
  ℕ, suc, ◌+◌, ◌≡◌, refl, ap, ◌∙◌, true, false, List, [], ◌∷◌, ◌++◌, some, arith, Bytes, codes,
}
use localsend_handheld.Prelude.Decimal.{int_to_string}
use localsend_handheld.Prelude.Map.{Map, emplace, IsOrdered}
use localsend_handheld.Prelude.Result.{ok}
use localsend_handheld.Json.{
  Numbers, Json, null, boolean, number, string, object, array, Fields, no_fields, field, Items,
  no_items, item, to_map,
}
use localsend_handheld.Json.Escape.{json_escape, parse_chars, parse_chars-json_escape}
use localsend_handheld.Json.Parser.{
  is_ws, skip_ws, starts, consume, parse_string, parse_number, parse_value, parse_members,
  next_member, parse_items, next_item,
}
use localsend_handheld.Json.Dump.{dump, dump_fields, dump_items, dump_number, dump_string}
use localsend_handheld.Json.Digits.{closes, begins_number, begins_number-int_to_string}

-- Numbers that are written as integers, and whose numeral `std::stod` reads as the same number.
abbrev pub IsExact : (n : Numbers) → n.Number → Type 0
IsExact n x = (n.is_integral x ≡ true) × (n.stod (int_to_string (n.to_int64 x)) ≡ some x)

module _ (n : Numbers) where
  -- Values of which all numbers are so and all objects are in the order of their keys, as every `std::map` is.
  unfoldable mutual
    pub IsExactJson : Json n.Number → Type 0
    IsExactJson null = Unit
    IsExactJson (boolean b) = Unit
    IsExactJson (number x) = IsExact n x
    IsExactJson (string s) = Unit
    IsExactJson (object entries) = IsOrdered (to_map entries) × AreExactFields entries
    IsExactJson (array entries) = AreExactItems entries

    pub AreExactFields : Fields n.Number → Type 0
    AreExactFields no_fields = Unit
    AreExactFields (field key value rest) = IsExactJson value × AreExactFields rest

    pub AreExactItems : Items n.Number → Type 0
    AreExactItems no_items = Unit
    AreExactItems (item value rest) = IsExactJson value × AreExactItems rest

-- The fuel that reading a value back takes.
unfoldable mutual
  pub weight : {A : Type 0} → Json A → ℕ
  weight null = 1
  weight (boolean b) = 1
  weight (number x) = 1
  weight (string s) = 1
  weight (object entries) = 3 + weight_fields entries
  weight (array entries) = 3 + weight_items entries

  pub weight_fields : {A : Type 0} → Fields A → ℕ
  weight_fields no_fields = 1
  weight_fields (field key value rest) = 2 + (weight value + weight_fields rest)

  pub weight_items : {A : Type 0} → Items A → ℕ
  weight_items no_items = 1
  weight_items (item value rest) = 2 + (weight value + weight_items rest)

pub skip_ws_none : (c : ℕ) (s : Bytes) → is_ws c ≡ false → skip_ws (c ∷ s) ≡ c ∷ s
unfolding skip_ws
skip_ws_none c s h = ground arith

pub skip_ws_number : (s : Bytes) → begins_number s ≡ true → skip_ws s ≡ s
skip_ws_number [] h = cc
skip_ws_number (c ∷ s) h = skip_ws_none c s (ground arith)

pub begins_number-starts : (s : Bytes) → begins_number s ≡ true → starts b']' s ≡ false
begins_number-starts [] h = cc
begins_number-starts (c ∷ s) h = ground arith

pub parse_value_number :
    (n : Numbers) (fuel : ℕ) (s : Bytes)
    → begins_number s ≡ true
    → parse_value n (suc fuel) s ≡ parse_number n s
unfolding parse_value
parse_value_number n fuel [] h = cc
parse_value_number n fuel (c ∷ s) h = ground arith

pub parse_string-dump_string :
    (s rest : Bytes) → parse_string (dump_string s ++ rest) ≡ ok (s, rest)
unfolding parse_string consume
parse_string-dump_string s rest =
    ap parse_chars (append_assoc (json_escape s) (codes "\"") rest) ∙ parse_chars-json_escape s rest

-- No space stands before a value.
pub skip_ws-dump :
    (n : Numbers) (j : Json n.Number) (rest : Bytes)
    → IsExactJson n j
    → skip_ws (dump n j ++ rest) ≡ dump n j ++ rest
unfolding skip_ws dump dump_number IsExactJson
skip_ws-dump n null rest h = refl
skip_ws-dump n (boolean true) rest h = refl
skip_ws-dump n (boolean false) rest h = refl
skip_ws-dump n (number x) rest h = rw (h.0) (
    skip_ws_number (int_to_string (n.to_int64 x) ++ rest)
      (begins_number-int_to_string (n.to_int64 x) rest))
skip_ws-dump n (string s) rest h = refl
skip_ws-dump n (object entries) rest h = refl
skip_ws-dump n (array entries) rest h = refl

-- One round of the loop of an object, and of an array.
pub parse_members_step :
    (n : Numbers) (fuel : ℕ) (key t u : Bytes) (v : Json n.Number) (m : Map (Json n.Number))
    → skip_ws t ≡ t
    → parse_value n fuel t ≡ ok (v, u)
    → skip_ws u ≡ u
    → parse_members n (suc fuel) (dump_string key ++ b':' ∷ t) m
      ≡ next_member n fuel u (emplace key v m)
unfolding parse_members skip_ws consume
parse_members_step n fuel key t u v m e f g =
    let read = parse_string-dump_string key (b':' ∷ t) in rw read (rw e (rw f (rw g refl)))

pub parse_items_step :
    (n : Numbers) (fuel : ℕ) (t u : Bytes) (v : Json n.Number) (values : List (Json n.Number))
    → skip_ws t ≡ t
    → parse_value n fuel t ≡ ok (v, u)
    → skip_ws u ≡ u
    → parse_items n (suc fuel) t values ≡ next_item n fuel u (values ++ v ∷ [])
unfolding parse_items
parse_items_step n fuel t u v values e f g = rw e (rw f (rw g refl))

-- What is behind a value: no space, and no more of a number.
pub tail_object :
    (n : Numbers) (entries : Fields n.Number) (rest : Bytes)
    → (skip_ws (dump_fields n false entries ++ b'}' ∷ rest)
        ≡ dump_fields n false entries ++ b'}' ∷ rest)
      × (closes (dump_fields n false entries ++ b'}' ∷ rest) ≡ true)
unfolding skip_ws dump
tail_object n no_fields rest = (refl, refl)
tail_object n (field key value entries) rest = (refl, refl)

pub tail_array :
    (n : Numbers) (entries : Items n.Number) (rest : Bytes)
    → (skip_ws (dump_items n false entries ++ b']' ∷ rest)
        ≡ dump_items n false entries ++ b']' ∷ rest)
      × (closes (dump_items n false entries ++ b']' ∷ rest) ≡ true)
unfolding skip_ws dump
tail_array n no_items rest = (refl, refl)
tail_array n (item value entries) rest = (refl, refl)

-- The text of fields and items, grouped as the parser meets it.
pub members_text :
    (n : Numbers) (key : Bytes) (value : Json n.Number) (entries : Fields n.Number) (rest : Bytes)
    → dump_fields n true (field key value entries) ++ b'}' ∷ rest
      ≡ dump_string key ++ b':' ∷ (dump n value ++ (dump_fields n false entries ++ b'}' ∷ rest))
unfolding dump
members_text n key value entries rest = simp append_assoc

pub items_text :
    (n : Numbers) (value : Json n.Number) (entries : Items n.Number) (rest : Bytes)
    → dump_items n true (item value entries) ++ b']' ∷ rest
      ≡ dump n value ++ (dump_items n false entries ++ b']' ∷ rest)
unfolding dump
items_text n value entries rest =
    append_assoc (dump n value) (dump_items n false entries) (b']' ∷ rest)
