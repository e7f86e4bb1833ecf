-- ===== src/Json/Members.antt =====
-- Objects and arrays of json.cpp that are built from maps and lists, and when their text can be read back.
use localsend_handheld.Prelude.{◌≡◌, refl, ap, sym, subst, Bool, List, [], ◌∷◌, Bytes, map, All}
use localsend_handheld.Prelude.Int.{ℤ}
use localsend_handheld.Prelude.Map.{Map, insert, IsOrdered, AllValues, AllValues-insert}
use localsend_handheld.Prelude.Map.Order.{IsOrdered-insert}
use localsend_handheld.Json.{
  Numbers, Json, boolean, number, string, object, of_map, to_map, of_list, to_list,
}
use localsend_handheld.Json.Exact.{IsExact, IsExactJson, AreExactFields, AreExactItems}

pub to_map-of_map : {A : Type 0} (m : Map (Json A)) → to_map (of_map m) ≡ m
to_map-of_map [] = refl
to_map-of_map ((k, v) ∷ m) = ap (λ rest. (k, v) ∷ rest) (to_map-of_map m)

pub to_list-of_list : {A : Type 0} (items : List (Json A)) → to_list (of_list items) ≡ items
to_list-of_list [] = refl
to_list-of_list (v ∷ items) = ap (λ rest. v ∷ rest) (to_list-of_list items)

module _ (n : Numbers) where
  -- Members that can be written: in order, with values that can.
  abbrev pub Writable : Map (Json n.Number) → Type 0
  Writable m = IsOrdered m × AllValues (IsExactJson n) m

  pub Writable-insert :
      (k : Bytes) (v : Json n.Number) (m : Map (Json n.Number))
      → IsExactJson n v
      → Writable m
      → Writable (insert k v m)
  Writable-insert k v m p h =
      (IsOrdered-insert k v m h.0, AllValues-insert (IsExactJson n) k v m p h.1)

  Writable-fields :
      (m : Map (Json n.Number)) → AllValues (IsExactJson n) m → AreExactFields n (of_map m)
  unfolding IsExactJson
  Writable-fields [] h = tt
  Writable-fields ((k, v) ∷ m) h = (h.0, Writable-fields m h.1)

  pub Writable-object : (m : Map (Json n.Number)) → Writable m → IsExactJson n (object (of_map m))
  unfolding IsExactJson
  Writable-object m h = (subst IsOrdered (sym (to_map-of_map m)) h.0, Writable-fields m h.1)

  pub put_string :
      (k s : Bytes) (m : Map (Json n.Number)) → Writable m → Writable (insert k (string s) m)
  unfolding IsExactJson
  put_string k s m h = Writable-insert k (string s) m tt h

  pub put_bool :
      (k : Bytes) (b : Bool) (m : Map (Json n.Number))
      → Writable m
      → Writable (insert k (boolean b) m)
  unfolding IsExactJson
  put_bool k b m h = Writable-insert k (boolean b) m tt h

  pub put_number :
      (k : Bytes) (x : ℤ) (m : Map (Json n.Number))
      → IsExact n (n.of_int64 x)
      → Writable m
      → Writable (insert k (number (n.of_int64 x)) m)
  unfolding IsExactJson
  put_number k x m e h = Writable-insert k (number (n.of_int64 x)) m e h

  pub AreExactItems-map :
      {A : Type 0} (P : A → Type 0) (f : A → Json n.Number) (items : List A)
      → ((x : A) → P x → IsExactJson n (f x))
      → All P items
      → AreExactItems n (of_list (map f items))
  unfolding IsExactJson
  AreExactItems-map P f [] k h = tt
  AreExactItems-map P f (x ∷ items) k h = (k x h.0, AreExactItems-map P f items k h.1)
