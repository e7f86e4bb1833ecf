-- ===== src/Json/Dump.antt =====
-- `dump_json` of json.cpp. The output stream is the text that is written to it.
use localsend_handheld.Prelude.{Bool, true, false, [], ◌∷◌, ◌++◌, if◌then◌else◌, Bytes, codes}
use localsend_handheld.Prelude.Decimal.{int_to_string}
use localsend_handheld.Json.{
  Numbers, Json, null, boolean, number, string, object, array, Fields, no_fields, field, Items,
  no_items, item,
}
use localsend_handheld.Json.Escape.{json_escape}

abbrev pub dump_bool : Bool → Bytes
dump_bool true = codes "true"
dump_bool false = codes "false"

abbrev pub dump_string : Bytes → Bytes
dump_string s = b'"' ∷ (json_escape s ++ codes "\"")

-- What stands before an entry: a comma, unless it is the first.
abbrev pub separator : Bool → Bytes
separator true = []
separator false = codes ","

module _ (n : Numbers) where
  unfoldable pub dump_number : n.Number → Bytes
  dump_number value =
      if n.is_integral value then int_to_string (n.to_int64 value) else n.print15 value

  unfoldable mutual
    pub dump : Json n.Number → Bytes
    dump null = codes "null"
    dump (boolean b) = dump_bool b
    dump (number x) = dump_number x
    dump (string s) = dump_string s
    dump (object entries) = b'{' ∷ (dump_fields true entries ++ codes "}")
    dump (array entries) = b'[' ∷ (dump_items true entries ++ codes "]")

    pub dump_fields : Bool → Fields n.Number → Bytes
    dump_fields first no_fields = []
    dump_fields first (field key value rest) =
        separator first
        ++ (dump_string key ++ (codes ":" ++ (dump value ++ dump_fields false rest)))

    pub dump_items : Bool → Items n.Number → Bytes
    dump_items first no_items = []
    dump_items first (item value rest) = separator first ++ (dump value ++ dump_items false rest)
