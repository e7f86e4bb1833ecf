-- ===== src/Json/Whole.antt =====
-- `Json::parse` on the text of `Json::dump`.
use mathlib.Core.List.{append-nil}
use localsend_handheld.Prelude.{
  ℕ, suc, ◌+◌, ◌*◌, ◌≤◌, ◌≡◌, refl, sym, ap, ◌∙◌, Bool, true, false, [], ◌++◌, arith, Bytes, codes,
  length, length-append,
}
use localsend_handheld.Prelude.Decimal.{int_to_string, to_string-ne-nil}
use localsend_handheld.Prelude.Int.{ℤ, pos, negsuc}
use localsend_handheld.Prelude.Result.{ok}
use localsend_handheld.Json.{
  Numbers, Json, null, boolean, number, string, object, array, Fields, no_fields, field, Items,
  no_items, item,
}
use localsend_handheld.Json.Digits.{closes}
use localsend_handheld.Json.Escape.{json_escape}
use localsend_handheld.Json.Parser.{skip_ws, finish, parse}
use localsend_handheld.Json.Dump.{
  dump, dump_fields, dump_items, dump_number, dump_string, separator,
}
use localsend_handheld.Json.Exact.{
  IsExact, IsExactJson, AreExactFields, AreExactItems, weight, weight_fields, weight_items,
  skip_ws-dump,
}
use localsend_handheld.Json.RoundTrip.{parse_value-dump}

length-int_to_string : (k : ℤ) → 1 ≤ length (int_to_string k)
unfolding int_to_string
length-int_to_string (pos k) = let some_digit = to_string-ne-nil k in ground arith
length-int_to_string (negsuc k) = omega arith

-- How far the fuel of the fields behind a separator, or without one, may pass their length.
abbrev slack : Bool → ℕ
slack true = 3
slack false = 1

module _ (n : Numbers) where
  length-dump_number : (x : n.Number) → IsExact n x → 1 ≤ length (dump_number n x)
  unfolding dump_number
  length-dump_number x h = rw (h.0) (length-int_to_string (n.to_int64 x))

  length-dump_fields :
      (first : Bool) (key : Bytes) (value : Json n.Number) (entries : Fields n.Number)
      → 3 + length (separator first) + length (dump n value) + length (dump_fields n false entries)
        ≤ length (dump_fields n first (field key value entries))
  unfolding dump
  length-dump_fields first key value entries = omega (
    arith,
    length-append (separator first)
        (dump_string key ++ (codes ":" ++ (dump n value ++ dump_fields n false entries))),
    length-append (dump_string key) (codes ":" ++ (dump n value ++ dump_fields n false entries)),
    length-append (json_escape key) (codes "\""),
    length-append (dump n value) (dump_fields n false entries),
  )

  length-dump_items :
      (first : Bool) (value : Json n.Number) (entries : Items n.Number)
      → length (separator first) + length (dump n value) + length (dump_items n false entries)
        ≤ length (dump_items n first (item value entries))
  unfolding dump
  length-dump_items first value entries = omega (
    arith,
    length-append (separator first) (dump n value ++ dump_items n false entries),
    length-append (dump n value) (dump_items n false entries),
  )

  length-object :
      (entries : Fields n.Number)
      → length (dump n (object entries)) ≡ 2 + length (dump_fields n true entries)
  unfolding dump
  length-object entries = omega (arith, length-append (dump_fields n true entries) (codes "}"))

  length-array :
      (entries : Items n.Number)
      → length (dump n (array entries)) ≡ 2 + length (dump_items n true entries)
  unfolding dump
  length-array entries = omega (arith, length-append (dump_items n true entries) (codes "]"))

  slack-separator : (first : Bool) → 3 + 1 ≤ 3 * length (separator first) + slack first + 1
  slack-separator true = omega arith
  slack-separator false = omega arith

  null_le : 1 ≤ 3 * length (dump n null)
  unfolding dump
  null_le = omega arith

  bool_le : (b : Bool) → 1 ≤ 3 * length (dump n (boolean b))
  unfolding dump
  bool_le true = omega arith
  bool_le false = omega arith

  number_le : (x : n.Number) → IsExact n x → 1 ≤ 3 * length (dump n (number x))
  unfolding dump
  number_le x h = omega (arith, length-dump_number x h)

  string_le : (s : Bytes) → 1 ≤ 3 * length (dump n (string s))
  unfolding dump
  string_le s = omega arith

  mutual
    unfolding weight IsExactJson

    weight-le : (j : Json n.Number) → IsExactJson n j → weight j ≤ 3 * length (dump n j)
    weight-le null h = null_le
    weight-le (boolean b) h = bool_le b
    weight-le (number x) h = number_le x h
    weight-le (string s) h = string_le s
    weight-le (object entries) h =
        omega (arith, length-object entries, weight_fields-le true entries h.1)
    weight-le (array entries) h =
        omega (arith, length-array entries, weight_items-le true entries h)

    weight_fields-le :
        (first : Bool) (entries : Fields n.Number)
        → AreExactFields n entries
        → weight_fields entries ≤ 3 * length (dump_fields n first entries) + slack first
    weight_fields-le true no_fields h = omega arith
    weight_fields-le false no_fields h = omega arith
    weight_fields-le first (field key value entries) h = omega (
      arith,
      length-dump_fields first key value entries,
      slack-separator first,
      weight-le value h.0,
      weight_fields-le false entries h.1,
    )

    weight_items-le :
        (first : Bool) (entries : Items n.Number)
        → AreExactItems n entries
        → weight_items entries ≤ 3 * length (dump_items n first entries) + slack first
    weight_items-le true no_items h = omega arith
    weight_items-le false no_items h = omega arith
    weight_items-le first (item value entries) h = omega (
      arith,
      length-dump_items first value entries,
      slack-separator first,
      weight-le value h.0,
      weight_items-le false entries h.1,
    )

  -- The text of a value with something behind it that is only space.
  pub parse-dump_padded :
      (j : Json n.Number) (rest : Bytes)
      → IsExactJson n j
      → closes rest ≡ true
      → skip_ws rest ≡ []
      → parse n (dump n j ++ rest) ≡ ok j
  unfolding parse finish
  parse-dump_padded j rest h c blank =
      let begun = skip_ws-dump n j rest h in
      let fuel : weight j ≤ suc (3 * length (dump n j ++ rest)) =
        omega (arith, weight-le j h, length-append (dump n j) rest) in
      let read = parse_value-dump n j (suc (3 * length (dump n j ++ rest))) rest h fuel c in
      rw begun (rw read (rw blank refl))

  -- Every JSON value whose numbers are written as integers that `std::stod` reads back, and whose objects are in
  -- the order of their keys, is what `parse` gives for its `dump`: names and strings of any bytes
  -- included.
  pub parse-dump : (j : Json n.Number) → IsExactJson n j → parse n (dump n j) ≡ ok j
  parse-dump j h =
      let alone = append-nil (dump n j) in
      ap (parse n) (sym alone) ∙ parse-dump_padded j [] h refl (unfold skip_ws in refl)
