-- ===== src/Json/Parser.antt =====
-- The class `Parser` of json.cpp. The text from `pos_` on is the argument; fuel stands for the depth of the
-- recursion and the rounds of the loops.
use localsend_handheld.Prelude.{
  ℕ, zero, suc, ◌-◌, ◌*◌, Bool, true, false, ◌&&◌, ◌||◌, List, [], ◌∷◌, ◌++◌, Option, none, some,
  leb, ◌==◌, if◌then◌else◌, Bytes, codes, length, take, is_empty,
}
use localsend_handheld.Prelude.Map.{Map, emplace}
use localsend_handheld.Prelude.Result.{Result, ok, err, out_of_fuel, ◌>>=◌}
use localsend_handheld.Json.{
  Numbers, Json, null, boolean, number, string, object, array, of_map, of_list,
}
use localsend_handheld.Json.Escape.{parse_chars}

abbrev pub is_ws : ℕ → Bool
is_ws c = c == b' ' || c == 9 || c == 10 || c == 13

unfoldable pub skip_ws : Bytes → Bytes
skip_ws [] = []
skip_ws (c ∷ s) = let rest = skip_ws s in if is_ws c then rest else c ∷ s

-- `peek() == c`, for a `c` other than zero.
abbrev pub starts : ℕ → Bytes → Bool
starts c [] = false
starts c (x ∷ s) = x == c

abbrev pub expected : ℕ → Bytes
expected c = codes "expected '" ++ c ∷ codes "'"

-- `consume`
unfoldable pub consume : ℕ → Bytes → Result Bytes
consume c [] = err (expected c)
consume c (x ∷ s) = if x == c then ok s else err (expected c)

-- `expect`
unfoldable pub expect : Bytes → Bytes → Result Bytes
expect [] s = ok s
expect (c ∷ literal) s = do rest ← consume c s; expect literal rest

abbrev pub digit : ℕ → Bool
digit c = leb b'0' c && leb c b'9'

abbrev pub starts_digit : Bytes → Bool
starts_digit [] = false
starts_digit (c ∷ s) = digit c

unfoldable pub skip_digits : Bytes → Bytes
skip_digits [] = []
skip_digits (c ∷ s) = let rest = skip_digits s in if digit c then rest else c ∷ s

unfoldable pub consume_digits : Bytes → Result Bytes
consume_digits s =
    if starts_digit s then ok (skip_digits s) else err (codes "expected JSON number digit")

-- `++pos_`
abbrev pub behind_one : Bytes → Bytes
behind_one [] = []
behind_one (c ∷ s) = s

-- The parts of `parse_number`, each from where it starts.
abbrev pub skip_sign : Bytes → Bytes
skip_sign s = if starts b'-' s then behind_one s else s

unfoldable pub integer_part : Bytes → Result Bytes
integer_part s = if starts b'0' s then ok (behind_one s) else consume_digits s

unfoldable pub fraction_part : Bytes → Result Bytes
fraction_part s = if starts b'.' s then consume_digits (behind_one s) else ok s

abbrev pub skip_exponent_sign : Bytes → Bytes
skip_exponent_sign s = if starts b'+' s || starts b'-' s then behind_one s else s

unfoldable pub exponent_part : Bytes → Result Bytes
exponent_part s =
    if starts b'e' s || starts b'E' s
    then consume_digits (skip_exponent_sign (behind_one s))
    else ok s

-- Where the number at the start of `s` ends.
unfoldable pub number_end : Bytes → Result Bytes
number_end s = do s1 ← integer_part (skip_sign s); s2 ← fraction_part s1; exponent_part s2

unfoldable pub parse_string : Bytes → Result (Bytes × Bytes)
parse_string s = do rest ← consume b'"' s; parse_chars rest

module _ (n : Numbers) where
  abbrev pub stod_result : Option n.Number → Bytes → Result (Json n.Number × Bytes)
  stod_result none rest = err (codes "invalid JSON number")
  stod_result (some x) rest = ok (number x, rest)

  unfoldable pub parse_number : Bytes → Result (Json n.Number × Bytes)
  parse_number s = do
    rest ← number_end s
    stod_result (n.stod (take (length s - length rest) s)) rest

  abbrev pub literal : Bytes → Json n.Number → Bytes → Result (Json n.Number × Bytes)
  literal word value s = do rest ← expect word s; ok (value, rest)

  unfoldable mutual
    pub parse_value : ℕ → Bytes → Result (Json n.Number × Bytes)
    parse_value zero s = out_of_fuel
    parse_value (suc fuel) [] = err (codes "unexpected end of JSON")
    parse_value (suc fuel) (c ∷ s) =
        let members = parse_object fuel s in
        let items = parse_array fuel s in
        if c == b'n'
        then literal (codes "null") null (c ∷ s)
        else if c == b't'
        then literal (codes "true") (boolean true) (c ∷ s)
        else if c == b'f'
        then literal (codes "false") (boolean false) (c ∷ s)
        else if c == b'"'
        then (do p ← parse_string (c ∷ s); ok (string p.0, p.1))
        else if c == b'{'
        then members
        else if c == b'['
        then items
        else if c == b'-' || digit c
        then parse_number (c ∷ s)
        else err (codes "invalid JSON value")

    -- Behind the opening brace.
    pub parse_object : ℕ → Bytes → Result (Json n.Number × Bytes)
    parse_object zero s = out_of_fuel
    parse_object (suc fuel) s =
        let members = parse_members fuel (skip_ws s) [] in
        if starts b'}' (skip_ws s) then ok (object (of_map []), behind_one (skip_ws s)) else members

    -- The loop of `parse_object`, with the fields that are there.
    pub parse_members : ℕ → Bytes → Map (Json n.Number) → Result (Json n.Number × Bytes)
    parse_members zero s m = out_of_fuel
    parse_members (suc fuel) s m = elim (starts b'"' (skip_ws s)) [
      | false ↦ err (codes "expected object key")
      | true ↦ do
        key ← parse_string (skip_ws s)
        colon ← consume b':' (skip_ws key.1)
        value ← parse_value fuel (skip_ws colon)
        next_member fuel (skip_ws value.1) (emplace key.0 value.0 m)
    ]

    -- Behind a field: the closing brace, or a comma and the next round.
    pub next_member : ℕ → Bytes → Map (Json n.Number) → Result (Json n.Number × Bytes)
    next_member zero s m = out_of_fuel
    next_member (suc fuel) s m = elim (starts b'}' s) [
      | true ↦ ok (object (of_map m), behind_one s)
      | false ↦ do rest ← consume b',' s; parse_members fuel rest m
    ]

    pub parse_array : ℕ → Bytes → Result (Json n.Number × Bytes)
    parse_array zero s = out_of_fuel
    parse_array (suc fuel) s =
        let items = parse_items fuel (skip_ws s) [] in
        if starts b']' (skip_ws s) then ok (array (of_list []), behind_one (skip_ws s)) else items

    pub parse_items : ℕ → Bytes → List (Json n.Number) → Result (Json n.Number × Bytes)
    parse_items zero s values = out_of_fuel
    parse_items (suc fuel) s values = do
      value ← parse_value fuel (skip_ws s)
      next_item fuel (skip_ws value.1) (values ++ value.0 ∷ [])

    pub next_item : ℕ → Bytes → List (Json n.Number) → Result (Json n.Number × Bytes)
    next_item zero s values = out_of_fuel
    next_item (suc fuel) s values = elim (starts b']' s) [
      | true ↦ ok (array (of_list values), behind_one s)
      | false ↦ do rest ← consume b',' s; parse_items fuel rest values
    ]

  -- Trailing space only.
  unfoldable pub finish : Json n.Number × Bytes → Result (Json n.Number)
  finish (value, rest) =
      if is_empty (skip_ws rest) then ok value else err (codes "unexpected trailing JSON data")

  -- `Json::parse`. Each step of the recursion but one in three takes a byte.
  unfoldable pub parse : Bytes → Result (Json n.Number)
  parse text = do p ← parse_value (suc (3 * length text)) (skip_ws text); finish p
