-- ===== src/Http/Url.antt =====
-- `url_decode`, `parse_query`, `with_query` of http.cpp, and the split of the request target in
-- `parse_request_headers`.
pub mod RoundTrip
use mathlib.Core.Option
use localsend_handheld.Prelude.{
  ℕ, ◌+◌, ◌-◌, ◌*◌, ◌%◌, Bool, true, false, ◌&&◌, ◌||◌, List, [], ◌∷◌, ◌++◌, Option, none, some,
  leb, ◌==◌, if◌then◌else◌, Bytes, codes, is_empty, cut, split_on,
}
use localsend_handheld.Prelude.Map.{Map, insert}
use localsend_handheld.Prelude.Hex.{hex_value}

-- `std::isspace` in the "C" locale.
abbrev pub is_space : ℕ → Bool
is_space c = c == b' ' || (leb 9 c && leb c 13)

-- `strtol(hex.c_str(), &end, 16)` with the test `*end == '\0'`, on a text of two bytes: the value as a
-- byte, or nothing. The C string ends at a zero byte; `strtol` skips a space and takes a sign.
unfoldable pub strtol_pair : ℕ → ℕ → Option ℕ
strtol_pair a b =
    if a == 0
    then some 0
    else if is_space a || a == b'+'
    then hex_value b
    else if a == b'-'
    then Option.map (λ v. (256 - v) % 256) (hex_value b)
    else elim (hex_value a) [
      | none ↦ none
      | some high ↦ if b == 0 then some high else Option.map (λ low. high * 16 + low) (hex_value b)
    ]

abbrev pub plus_to_space : ℕ → ℕ
plus_to_space c = if c == b'+' then b' ' else c

unfoldable pub url_decode : Bytes → Bytes
url_decode [] = []
url_decode (c ∷ []) = plus_to_space c ∷ []
url_decode (c ∷ a ∷ []) = plus_to_space c ∷ url_decode (a ∷ [])
url_decode (c ∷ a ∷ b ∷ s) = elim (if c == b'%' then strtol_pair a b else none) [
  | some value ↦ value ∷ url_decode s
  | none ↦ plus_to_space c ∷ url_decode (a ∷ b ∷ s)
]

-- One round of the loop of `parse_query`, on the part up to the next `&`.
unfoldable pub parse_part : Bytes → Map Bytes → Map Bytes
parse_part part out = if is_empty part then out else elim (cut b'=' part) [
  | none ↦ insert (url_decode part) [] out
  | some (key, value) ↦ insert (url_decode key) (url_decode value) out
]

unfoldable pub parse_parts : List Bytes → Map Bytes → Map Bytes
parse_parts [] out = out
parse_parts (part ∷ parts) out = parse_parts parts (parse_part part out)

unfoldable pub parse_query : Bytes → Map Bytes
parse_query query = parse_parts (split_on b'&' query) []

-- The loop of `with_query`.
unfoldable pub render_entries : Bool → Map Bytes → Bytes
render_entries first [] = []
render_entries first ((key, value) ∷ query) =
    (if first then [] else codes "&")
    ++ (key ++ (codes "=" ++ (value ++ render_entries false query)))

unfoldable pub with_query : Bytes → Map Bytes → Bytes
with_query path query =
    if is_empty query then path else path ++ (codes "?" ++ render_entries true query)

-- The path and the query of a request target.
unfoldable pub parse_target : Bytes → Bytes × Map Bytes
parse_target target = elim (cut b'?' target) [
  | none ↦ (target, [])
  | some (path, query) ↦ (path, parse_query query)
]
