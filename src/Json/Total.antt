-- ===== src/Json/Total.antt =====
-- The parser of json.cpp ends: its fuel always suffices.
use localsend_handheld.Prelude.{
  ℕ, zero, suc, ◌+◌, ◌*◌, ◌≤◌, ◌<◌, ◌≢◌, Bool, true, false, ◌||◌, List, [], ◌∷◌, ◌++◌, arith, ◌==◌,
  Bytes, codes, length, is_empty,
}
use localsend_handheld.Prelude.Map.{Map, emplace}
use localsend_handheld.Prelude.Result.{
  Result, out_of_fuel, Ensures, holds, rejected, Ensures-bind, Ensures-if, Ensures-weaken,
  Ensures-ne-out_of_fuel,
}
use localsend_handheld.Json.{Numbers, Json, null, boolean}
use localsend_handheld.Json.Parser.{
  skip_ws, starts, digit, parse_value, parse_object, parse_members, next_member, parse_array,
  parse_items, next_item, finish, parse,
}
use localsend_handheld.Json.Left.{
  Left, skip_ws-le, behind_one-le, consume-Shorter, parse_string-Left, parse_number-Left,
  literal-Left,
}

either :
    {A : Type 0} {P : A → Type 0} {x y : Result A} (b : Bool)
    → Ensures P x
    → Ensures P y
    → Ensures P (elim b as (λ q. Result A) [ true ↦ x | false ↦ y ])
either true h k = h
either false h k = k

module _ (n : Numbers) where
  mutual
    unfolding parse_value

    parse_value-Left :
        (fuel : ℕ) (s : Bytes)
        → 3 * length s < fuel
        → Ensures (Left (length s)) (parse_value n fuel s)
    parse_value-Left zero s h = let no : ⊥ = omega arith in elim no [ ]
    parse_value-Left (suc fuel) [] h = rejected
    parse_value-Left (suc fuel) (c ∷ s) h =
        Ensures-if (c == b'n') (literal-Left n b'n' (codes "ull") null (c ∷ s)) (
          Ensures-if (c == b't') (literal-Left n b't' (codes "rue") (boolean true) (c ∷ s)) (
            Ensures-if (c == b'f') (literal-Left n b'f' (codes "alse") (boolean false) (c ∷ s)) (
              Ensures-if (c == b'"') (Ensures-bind (parse_string-Left (c ∷ s)) λ p k. holds k) (
                Ensures-if (c == b'{')
                  (Ensures-weaken (λ p k. omega arith) (parse_object-Left fuel s (omega arith)))
                  (Ensures-if (c == b'[')
                    (Ensures-weaken (λ p k. omega arith) (parse_array-Left fuel s (omega arith)))
                    (Ensures-if (c == b'-' || digit c) (parse_number-Left n (c ∷ s)) rejected))))))

    parse_object-Left :
        (fuel : ℕ) (s : Bytes)
        → 3 * length s + 3 ≤ fuel
        → Ensures (Left (suc (length s))) (parse_object n fuel s)
    parse_object-Left zero s h = let no : ⊥ = omega arith in elim no [ ]
    parse_object-Left (suc fuel) s h =
        Ensures-if (starts b'}' (skip_ws s))
          (holds (omega (arith, skip_ws-le s, behind_one-le (skip_ws s))))
          (Ensures-weaken (λ p k. omega (arith, skip_ws-le s))
            (parse_members-Left fuel (skip_ws s) [] (omega (arith, skip_ws-le s))))

    parse_members-Left :
        (fuel : ℕ) (s : Bytes) (m : Map (Json n.Number))
        → 3 * length s + 2 ≤ fuel
        → Ensures (Left (suc (length s))) (parse_members n fuel s m)
    parse_members-Left zero s m h = let no : ⊥ = omega arith in elim no [ ]
    parse_members-Left (suc fuel) s m h =
        either (starts b'"' (skip_ws s))
          (Ensures-bind (parse_string-Left (skip_ws s)) λ key k.
            Ensures-bind (consume-Shorter b':' (skip_ws key.1)) λ colon c.
              Ensures-bind
                (parse_value-Left fuel (skip_ws colon)
                  (omega (arith, skip_ws-le s, skip_ws-le key.1, skip_ws-le colon)))
                λ value v.
                  Ensures-weaken
                    (λ p q.
                      omega (
                        arith,
                        skip_ws-le s,
                        skip_ws-le key.1,
                        skip_ws-le colon,
                        skip_ws-le value.1,
                      ))
                    (next_member-Left fuel (skip_ws value.1) (emplace key.0 value.0 m) (
                      omega (
                        arith,
                        skip_ws-le s,
                        skip_ws-le key.1,
                        skip_ws-le colon,
                        skip_ws-le value.1,
                      ))))
          rejected

    next_member-Left :
        (fuel : ℕ) (s : Bytes) (m : Map (Json n.Number))
        → 3 * length s + 1 ≤ fuel
        → Ensures (Left (suc (length s))) (next_member n fuel s m)
    next_member-Left zero s m h = let no : ⊥ = omega arith in elim no [ ]
    next_member-Left (suc fuel) s m h =
        either (starts b'}' s) (holds (omega (arith, behind_one-le s))) (
          Ensures-bind (consume-Shorter b',' s) λ rest k.
            Ensures-weaken (λ p q. omega arith) (parse_members-Left fuel rest m (omega arith)))

    parse_array-Left :
        (fuel : ℕ) (s : Bytes)
        → 3 * length s + 3 ≤ fuel
        → Ensures (Left (suc (length s))) (parse_array n fuel s)
    parse_array-Left zero s h = let no : ⊥ = omega arith in elim no [ ]
    parse_array-Left (suc fuel) s h =
        Ensures-if (starts b']' (skip_ws s))
          (holds (omega (arith, skip_ws-le s, behind_one-le (skip_ws s))))
          (Ensures-weaken (λ p k. omega (arith, skip_ws-le s))
            (parse_items-Left fuel (skip_ws s) [] (omega (arith, skip_ws-le s))))

    parse_items-Left :
        (fuel : ℕ) (s : Bytes) (values : List (Json n.Number))
        → 3 * length s + 2 ≤ fuel
        → Ensures (Left (suc (length s))) (parse_items n fuel s values)
    parse_items-Left zero s values h = let no : ⊥ = omega arith in elim no [ ]
    parse_items-Left (suc fuel) s values h =
        Ensures-bind (parse_value-Left fuel (skip_ws s) (omega (arith, skip_ws-le s))) λ value v.
          Ensures-weaken (λ p k. omega (arith, skip_ws-le s, skip_ws-le value.1))
            (next_item-Left fuel (skip_ws value.1) (values ++ value.0 ∷ [])
              (omega (arith, skip_ws-le s, skip_ws-le value.1)))

    next_item-Left :
        (fuel : ℕ) (s : Bytes) (values : List (Json n.Number))
        → 3 * length s + 1 ≤ fuel
        → Ensures (Left (suc (length s))) (next_item n fuel s values)
    next_item-Left zero s values h = let no : ⊥ = omega arith in elim no [ ]
    next_item-Left (suc fuel) s values h =
        either (starts b']' s) (holds (omega (arith, behind_one-le s))) (
          Ensures-bind (consume-Shorter b',' s) λ rest k.
            Ensures-weaken (λ p q. omega arith) (parse_items-Left fuel rest values (omega arith)))

  finish-Ensures : (p : Json n.Number × Bytes) → Ensures (λ j. Unit) (finish n p)
  unfolding finish
  finish-Ensures (value, rest) = Ensures-if (is_empty (skip_ws rest)) (holds tt) rejected

  -- `Json::parse` returns or throws on every text: the fuel of the model, one more than three times the
  -- text's length, never runs out.
  pub parse-ne-out_of_fuel : (text : Bytes) → parse n text ≢ out_of_fuel
  unfolding parse
  parse-ne-out_of_fuel text = Ensures-ne-out_of_fuel _ (
      Ensures-bind
        (parse_value-Left (suc (3 * length text)) (skip_ws text) (omega (arith, skip_ws-le text)))
        λ p h. finish-Ensures p)
