-- ===== src/Json/RoundTrip.antt =====
-- What `dump` of json.cpp writes, `parse` reads back.
use mathlib.Core.List.{append_assoc, append-nil}
use localsend_handheld.Prelude.{
  ℕ, zero, suc, ◌≤◌, ◌≡◌, refl, sym, ap, ◌∙◌, subst, true, false, List, [], ◌∷◌, ◌++◌, arith, Bytes,
  codes,
}
use localsend_handheld.Prelude.Decimal.{int_to_string}
use localsend_handheld.Prelude.Map.{Map, IsOrdered}
use localsend_handheld.Prelude.Map.Order.{emplace_ordered}
use localsend_handheld.Prelude.Result.{Result, ok}
use localsend_handheld.Json.{
  Numbers, Json, null, boolean, number, string, object, array, Fields, no_fields, field, Items,
  no_items, item, to_map, of_map, to_list, of_list,
}
use localsend_handheld.Json.Parser.{
  skip_ws, starts, consume, expect, parse_value, parse_members, next_member, parse_array,
  parse_items, next_item,
}
use localsend_handheld.Json.Dump.{dump, dump_fields, dump_items, dump_number, dump_string}
use localsend_handheld.Json.Digits.{closes, parse_number-int_to_string, begins_number-int_to_string}
use localsend_handheld.Json.Exact.{
  IsExact, begins_number-starts, parse_value_number, parse_string-dump_string, skip_ws-dump,
  parse_members_step, parse_items_step, tail_object, tail_array, members_text, items_text,
  IsExactJson, AreExactFields, AreExactItems, weight, weight_fields, weight_items,
}

module _ (n : Numbers) where
  -- A field that is read, with the fields behind it.
  members_from :
      (fuel : ℕ) (key : Bytes) (value : Json n.Number) (entries : Fields n.Number)
      (m : Map (Json n.Number)) (rest : Bytes) (r : Result (Json n.Number × Bytes))
      → IsExactJson n value
      → IsOrdered (m ++ (key, value) ∷ to_map entries)
      → parse_value n fuel (dump n value ++ (dump_fields n false entries ++ b'}' ∷ rest))
        ≡ ok (value, dump_fields n false entries ++ b'}' ∷ rest)
      → next_member n fuel (dump_fields n false entries ++ b'}' ∷ rest) (m ++ (key, value) ∷ []) ≡ r
      → parse_members n (suc fuel) (dump_fields n true (field key value entries) ++ b'}' ∷ rest) m
        ≡ r
  members_from fuel key value entries m rest r exact ordered read next =
      let behind = dump_fields n false entries ++ b'}' ∷ rest in
      ap (λ s. parse_members n (suc fuel) s m) (members_text n key value entries rest)
      ∙ parse_members_step n fuel key (dump n value ++ behind) behind value m
          (skip_ws-dump n value behind exact) read (tail_object n entries rest).0
      ∙ ap (next_member n fuel behind) (emplace_ordered m key value (to_map entries) ordered)
      ∙ next

  items_from :
      (fuel : ℕ) (value : Json n.Number) (entries : Items n.Number) (values : List (Json n.Number))
      (rest : Bytes) (r : Result (Json n.Number × Bytes))
      → IsExactJson n value
      → parse_value n fuel (dump n value ++ (dump_items n false entries ++ b']' ∷ rest))
        ≡ ok (value, dump_items n false entries ++ b']' ∷ rest)
      → next_item n fuel (dump_items n false entries ++ b']' ∷ rest) (values ++ value ∷ []) ≡ r
      → parse_items n (suc fuel) (dump_items n true (item value entries) ++ b']' ∷ rest) values ≡ r
  items_from fuel value entries values rest r exact read next =
      let behind = dump_items n false entries ++ b']' ∷ rest in
      ap (λ s. parse_items n (suc fuel) s values) (items_text n value entries rest)
      ∙ parse_items_step n fuel (dump n value ++ behind) behind value values
          (skip_ws-dump n value behind exact) read (tail_array n entries rest).0
      ∙ next

  of_map-to_map : (entries : Fields n.Number) → of_map (to_map entries) ≡ entries
  of_map-to_map no_fields = refl
  of_map-to_map (field key value entries) = ap (field key value) (of_map-to_map entries)

  of_list-to_list : (entries : Items n.Number) → of_list (to_list entries) ≡ entries
  of_list-to_list no_items = refl
  of_list-to_list (item value entries) = ap (item value) (of_list-to_list entries)

  -- What the parser is at behind the brace, and the bracket, of a container that is not empty.
  object_begin :
      (fuel : ℕ) (key : Bytes) (value : Json n.Number) (entries : Fields n.Number) (rest : Bytes)
      → parse_value n (suc (suc fuel)) (dump n (object (field key value entries)) ++ rest)
        ≡ parse_members n fuel (dump_fields n true (field key value entries) ++ b'}' ∷ rest) []
  unfolding parse_value dump skip_ws
  object_begin fuel key value entries rest =
      let text = dump_fields n true (field key value entries) in
      ap (λ s. parse_members n fuel s []) (append_assoc text (codes "}") rest)

  starts-dump :
      (j : Json n.Number) (rest : Bytes) → IsExactJson n j → starts b']' (dump n j ++ rest) ≡ false
  unfolding dump dump_number IsExactJson
  starts-dump null rest h = refl
  starts-dump (boolean true) rest h = refl
  starts-dump (boolean false) rest h = refl
  starts-dump (number x) rest h = rw (h.0) (
      begins_number-starts (int_to_string (n.to_int64 x) ++ rest)
        (begins_number-int_to_string (n.to_int64 x) rest))
  starts-dump (string s) rest h = refl
  starts-dump (object entries) rest h = refl
  starts-dump (array entries) rest h = refl

  parse_array_items :
      (fuel : ℕ) (text : Bytes)
      → skip_ws text ≡ text
      → starts b']' text ≡ false
      → parse_array n (suc fuel) text ≡ parse_items n fuel text []
  unfolding parse_value
  parse_array_items fuel text e f = rw e (rw f refl)

  number_back :
      (x : n.Number) (fuel : ℕ) (rest : Bytes)
      → IsExact n x
      → closes rest ≡ true
      → parse_value n (suc fuel) (dump_number n x ++ rest) ≡ ok (number x, rest)
  unfolding dump_number
  number_back x fuel rest h c = rw (h.0) (
      parse_value_number n fuel (int_to_string (n.to_int64 x) ++ rest)
        (begins_number-int_to_string (n.to_int64 x) rest)
      ∙ parse_number-int_to_string n (n.to_int64 x) x rest h.1 c)

  string_back :
      (s : Bytes) (fuel : ℕ) (rest : Bytes)
      → parse_value n (suc fuel) (dump_string s ++ rest) ≡ ok (string s, rest)
  unfolding parse_value
  string_back s fuel rest = let read = parse_string-dump_string s rest in rw read refl

  array_begin :
      (fuel : ℕ) (value : Json n.Number) (entries : Items n.Number) (rest : Bytes)
      → IsExactJson n value
      → parse_value n (suc (suc fuel)) (dump n (array (item value entries)) ++ rest)
        ≡ parse_items n fuel (dump_items n true (item value entries) ++ b']' ∷ rest) []
  unfolding parse_value dump
  array_begin fuel value entries rest exact =
      let behind = dump_items n false entries ++ b']' ∷ rest in
      ap (parse_array n (suc fuel)) (
        append_assoc (dump_items n true (item value entries)) (codes "]") rest
        ∙ items_text n value entries rest)
      ∙ parse_array_items fuel (dump n value ++ behind) (skip_ws-dump n value behind exact)
          (starts-dump value behind exact)
      ∙ ap (λ s. parse_items n fuel s []) (sym (items_text n value entries rest))

  -- Reading back what was written, with the fuel that it takes and anything that ends a value behind it.
  mutual
    unfolding weight dump parse_value IsExactJson expect consume skip_ws

    pub parse_value-dump :
        (j : Json n.Number) (fuel : ℕ) (rest : Bytes)
        → IsExactJson n j
        → weight j ≤ fuel
        → closes rest ≡ true
        → parse_value n fuel (dump n j ++ rest) ≡ ok (j, rest)
    parse_value-dump null zero rest h w c = absurd (omega arith)
    parse_value-dump null (suc fuel) rest h w c = refl
    parse_value-dump (boolean b) zero rest h w c = absurd (omega arith)
    parse_value-dump (boolean true) (suc fuel) rest h w c = refl
    parse_value-dump (boolean false) (suc fuel) rest h w c = refl
    parse_value-dump (number x) zero rest h w c = absurd (omega arith)
    parse_value-dump (number x) (suc fuel) rest h w c = number_back x fuel rest h c
    parse_value-dump (string s) zero rest h w c = absurd (omega arith)
    parse_value-dump (string s) (suc fuel) rest h w c = string_back s fuel rest
    parse_value-dump (object entries) zero rest h w c = absurd (omega arith)
    parse_value-dump (object entries) (suc zero) rest h w c = absurd (omega arith)
    parse_value-dump (object entries) (suc (suc zero)) rest h w c = absurd (omega arith)
    parse_value-dump (object no_fields) (suc (suc (suc fuel))) rest h w c = refl
    parse_value-dump (object (field key value entries)) (suc (suc (suc fuel))) rest h w c =
        let exact = h.1 in
        let read =
          parse_value-dump value fuel (dump_fields n false entries ++ b'}' ∷ rest) exact.0
            (omega arith) (tail_object n entries rest).1 in
        let next =
          next_member-dump entries fuel ((key, value) ∷ []) rest exact.1 h.0 (omega arith) in
        object_begin (suc fuel) key value entries rest
        ∙ members_from fuel key value entries [] rest _ exact.0 h.0 read next
        ∙ ap (λ e. ok (object (field key value e), rest)) (of_map-to_map entries)
    parse_value-dump (array entries) zero rest h w c = absurd (omega arith)
    parse_value-dump (array entries) (suc zero) rest h w c = absurd (omega arith)
    parse_value-dump (array entries) (suc (suc zero)) rest h w c = absurd (omega arith)
    parse_value-dump (array no_items) (suc (suc (suc fuel))) rest h w c = refl
    parse_value-dump (array (item value entries)) (suc (suc (suc fuel))) rest h w c =
        let read =
          parse_value-dump value fuel (dump_items n false entries ++ b']' ∷ rest) h.0 (omega arith)
            (tail_array n entries rest).1 in
        let next = next_item-dump entries fuel (value ∷ []) rest h.1 (omega arith) in
        array_begin (suc fuel) value entries rest h.0
        ∙ items_from fuel value entries [] rest _ h.0 read next
        ∙ ap (λ e. ok (array (item value e), rest)) (of_list-to_list entries)

    next_member-dump :
        (entries : Fields n.Number) (fuel : ℕ) (m : Map (Json n.Number)) (rest : Bytes)
        → AreExactFields n entries
        → IsOrdered (m ++ to_map entries)
        → weight_fields entries ≤ fuel
        → next_member n fuel (dump_fields n false entries ++ b'}' ∷ rest) m
          ≡ ok (object (of_map (m ++ to_map entries)), rest)
    next_member-dump no_fields zero m rest h o w = absurd (omega arith)
    next_member-dump no_fields (suc fuel) m rest h o w =
        ap (λ e. ok (object (of_map e), rest)) (sym (append-nil m))
    next_member-dump (field key value entries) zero m rest h o w = absurd (omega arith)
    next_member-dump (field key value entries) (suc zero) m rest h o w = absurd (omega arith)
    next_member-dump (field key value entries) (suc (suc fuel)) m rest h o w =
        let read =
          parse_value-dump value fuel (dump_fields n false entries ++ b'}' ∷ rest) h.0 (omega arith)
            (tail_object n entries rest).1 in
        let together = append_assoc m ((key, value) ∷ []) (to_map entries) in
        let next =
          next_member-dump entries fuel (m ++ (key, value) ∷ []) rest h.1
            (subst IsOrdered (sym together) o) (omega arith) in
        members_from fuel key value entries m rest _ h.0 o read next
        ∙ ap (λ e. ok (object (of_map e), rest)) together

    next_item-dump :
        (entries : Items n.Number) (fuel : ℕ) (values : List (Json n.Number)) (rest : Bytes)
        → AreExactItems n entries
        → weight_items entries ≤ fuel
        → next_item n fuel (dump_items n false entries ++ b']' ∷ rest) values
          ≡ ok (array (of_list (values ++ to_list entries)), rest)
    next_item-dump no_items zero values rest h w = absurd (omega arith)
    next_item-dump no_items (suc fuel) values rest h w =
        ap (λ e. ok (array (of_list e), rest)) (sym (append-nil values))
    next_item-dump (item value entries) zero values rest h w = absurd (omega arith)
    next_item-dump (item value entries) (suc zero) values rest h w = absurd (omega arith)
    next_item-dump (item value entries) (suc (suc fuel)) values rest h w =
        let read =
          parse_value-dump value fuel (dump_items n false entries ++ b']' ∷ rest) h.0 (omega arith)
            (tail_array n entries rest).1 in
        let next = next_item-dump entries fuel (values ++ value ∷ []) rest h.1 (omega arith) in
        items_from fuel value entries values rest _ h.0 read next
        ∙ ap (λ e. ok (array (of_list e), rest))
            (append_assoc values (value ∷ []) (to_list entries))
