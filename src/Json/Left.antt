-- ===== src/Json/Left.antt =====
-- What the parts of the parser of json.cpp leave: each that reads a token takes a byte at least.
use localsend_handheld.Prelude.{
  ℕ, suc, ◌+◌, ◌-◌, ◌*◌, ◌≤◌, ◌<◌, ◌≡◌, Bool, true, false, ◌||◌, [], ◌∷◌, Option, none, some, arith,
  ltb, ◌==◌, Bytes, codes, length, take, Bool-cases, inl, inr,
}
use localsend_handheld.Prelude.Hex.{hex_value}
use localsend_handheld.Prelude.Result.{
  Result, ok, err, out_of_fuel, ◌>>=◌, map_ok, Ensures, holds, rejected, Ensures-bind, Ensures-if,
  Ensures-weaken,
}
use localsend_handheld.Json.{Numbers, Json}
use localsend_handheld.Json.Escape.{
  parse_chars, parse_escape, parse_unicode, behind, simple_escape, code_of, digit_of, utf8,
}
use localsend_handheld.Json.Parser.{
  skip_ws, starts, behind_one, consume, expect, starts_digit, skip_digits, consume_digits,
  skip_sign, integer_part, fraction_part, skip_exponent_sign, exponent_part, number_end,
  stod_result, parse_string, parse_number, literal,
}

-- At least one byte less than `l`, or no more than `l` bytes, are left.
abbrev pub Shorter : ℕ → Bytes → Type 0
Shorter l s = length s < l

abbrev pub Left {κ} : {A : Type κ} → ℕ → A × Bytes → Type 0
Left l p = length p.1 < l

pub skip_ws-le : (s : Bytes) → length (skip_ws s) ≤ length s
unfolding skip_ws
skip_ws-le [] = omega arith
skip_ws-le (c ∷ s) = ground (arith, skip_ws-le s)

pub consume-Shorter : (c : ℕ) (s : Bytes) → Ensures (Shorter (length s)) (consume c s)
unfolding consume
consume-Shorter c [] = rejected
consume-Shorter c (x ∷ s) = Ensures-if (x == c) (holds (omega arith)) rejected

expect-le : (word s : Bytes) → Ensures (λ rest. length rest ≤ length s) (expect word s)
unfolding expect
expect-le [] s = holds (omega arith)
expect-le (c ∷ word) s =
    Ensures-bind (consume-Shorter c s)
      λ rest h. Ensures-weaken (λ t k. omega arith) (expect-le word rest)

expect-Shorter : (c : ℕ) (word s : Bytes) → Ensures (Shorter (length s)) (expect (c ∷ word) s)
unfolding expect
expect-Shorter c word s =
    Ensures-bind (consume-Shorter c s)
      λ rest h. Ensures-weaken (λ t k. omega arith) (expect-le word rest)

skip_digits-le : (s : Bytes) → length (skip_digits s) ≤ length s
unfolding skip_digits
skip_digits-le [] = omega arith
skip_digits-le (c ∷ s) = ground (arith, skip_digits-le s)

skip_digits-lt : (s : Bytes) → starts_digit s ≡ true → length (skip_digits s) < length s
unfolding skip_digits
skip_digits-lt [] h = cc
skip_digits-lt (c ∷ s) h = ground (arith, skip_digits-le s)

consume_digits-Shorter : (s : Bytes) → Ensures (Shorter (length s)) (consume_digits s)
unfolding consume_digits
consume_digits-Shorter s = elim (Bool-cases (starts_digit s)) [
  | inl e ↦ rw e (holds (skip_digits-lt s e))
  | inr e ↦ rw e rejected
]

pub behind_one-le : (s : Bytes) → length (behind_one s) ≤ length s
behind_one-le [] = omega arith
behind_one-le (c ∷ s) = omega arith

pub behind_one-lt : (c : ℕ) (s : Bytes) → starts c s ≡ true → length (behind_one s) < length s
behind_one-lt c [] h = cc
behind_one-lt c (x ∷ s) h = omega arith

skip_sign-le : (s : Bytes) → length (skip_sign s) ≤ length s
skip_sign-le s = ground (arith, behind_one-le s)

skip_exponent_sign-le : (s : Bytes) → length (skip_exponent_sign s) ≤ length s
skip_exponent_sign-le s = ground (arith, behind_one-le s)

integer_part-Shorter : (s : Bytes) → Ensures (Shorter (length s)) (integer_part s)
unfolding integer_part
integer_part-Shorter s = elim (Bool-cases (starts b'0' s)) [
  | inl e ↦ rw e (holds (behind_one-lt b'0' s e))
  | inr e ↦ rw e (consume_digits-Shorter s)
]

fraction_part-le : (s : Bytes) → Ensures (λ rest. length rest ≤ length s) (fraction_part s)
unfolding fraction_part
fraction_part-le s =
    Ensures-if (starts b'.' s)
      (Ensures-weaken (λ rest h. omega (arith, behind_one-le s))
        (consume_digits-Shorter (behind_one s)))
      (holds (omega arith))

exponent_part-le : (s : Bytes) → Ensures (λ rest. length rest ≤ length s) (exponent_part s)
unfolding exponent_part
exponent_part-le s =
    Ensures-if (starts b'e' s || starts b'E' s)
      (Ensures-weaken
        (λ rest h. omega (arith, behind_one-le s, skip_exponent_sign-le (behind_one s)))
        (consume_digits-Shorter (skip_exponent_sign (behind_one s))))
      (holds (omega arith))

number_end-Shorter : (s : Bytes) → Ensures (Shorter (length s)) (number_end s)
unfolding number_end
number_end-Shorter s = Ensures-bind (integer_part-Shorter (skip_sign s)) λ s1 h.
    Ensures-bind (fraction_part-le s1)
      λ s2 k. Ensures-weaken (λ rest m. omega (arith, skip_sign-le s)) (exponent_part-le s2)

behind-Left :
    (l : ℕ) (out : Result Bytes) (r : Result (Bytes × Bytes))
    → Ensures (λ s. Unit) out
    → Ensures (Left l) r
    → Ensures (Left l) (behind out r)
behind-Left l (ok out) (ok p) h (holds k) = holds k
behind-Left l (ok out) (err what) h k = rejected
behind-Left l (ok out) out_of_fuel h k = elim k [ ]
behind-Left l (err what) r h k = rejected
behind-Left l out_of_fuel r h k = elim h [ ]

simple_escape-Ensures : (e : ℕ) → Ensures (λ s. Unit) (simple_escape e)
unfolding simple_escape
simple_escape-Ensures e = Ensures-if (e == b'"' || e == b'\\' || e == b'/') (holds tt) (
    Ensures-if (e == b'b') (holds tt) (
      Ensures-if (e == b'f') (holds tt) (
        Ensures-if (e == b'n') (holds tt)
          (Ensures-if (e == b'r') (holds tt) (Ensures-if (e == b't') (holds tt) rejected)))))

code_of-Ensures : (a b c d : ℕ) → Ensures (λ s. Unit) (map_ok utf8 (code_of a b c d))
unfolding code_of
code_of-Ensures a b c d = digits (hex_value a) (hex_value b) (hex_value c) (hex_value d)
  where
    digits :
        (w x y z : Option ℕ)
        → Ensures
            (λ s. Unit)
            (map_ok utf8 (
              digit_of w >>= λ w. digit_of x >>= λ x.
              digit_of y >>= λ y. digit_of z >>= λ z. ok (((w * 16 + x) * 16 + y) * 16 + z)))
    digits none x y z = rejected
    digits (some w) none y z = rejected
    digits (some w) (some x) none z = rejected
    digits (some w) (some x) (some y) none = rejected
    digits (some w) (some x) (some y) (some z) = holds tt

chars_case :
    (quote control slash : Bool) (c : ℕ) (s : Bytes)
    → Ensures (Left (length s)) (parse_chars s)
    → Ensures (Left (suc (length s))) (parse_escape s)
    → Ensures (Left (suc (length s))) (elim quote as (λ q. Result (Bytes × Bytes)) [
      | true ↦ ok ([], s)
      | false ↦ elim control as (λ q. Result (Bytes × Bytes)) [
        | true ↦ err (codes "control character in JSON string")
        | false ↦ elim slash as (λ q. Result (Bytes × Bytes)) [
          | false ↦ behind (ok (c ∷ [])) (parse_chars s)
          | true ↦ parse_escape s
        ]
      ]
    ])
chars_case true control slash c s h k = holds (omega arith)
chars_case false true slash c s h k = rejected
chars_case false false true c s h k = k
chars_case false false false c s h k =
    behind-Left _ (ok (c ∷ [])) (parse_chars s) (holds tt) (Ensures-weaken (λ p m. omega arith) h)

escape_case :
    (unicode : Bool) (e : ℕ) (s : Bytes)
    → Ensures (Left (length s)) (parse_chars s)
    → Ensures (Left (suc (suc (length s)))) (parse_unicode s)
    → Ensures (Left (suc (suc (length s)))) (elim unicode as (λ q. Result (Bytes × Bytes)) [
      | false ↦ behind (simple_escape e) (parse_chars s)
      | true ↦ parse_unicode s
    ])
escape_case true e s h k = k
escape_case false e s h k =
    behind-Left _ (simple_escape e) (parse_chars s) (simple_escape-Ensures e)
      (Ensures-weaken (λ p m. omega arith) h)

mutual
  unfolding parse_chars

  parse_chars-Left : (s : Bytes) → Ensures (Left (length s)) (parse_chars s)
  parse_chars-Left [] = rejected
  parse_chars-Left (c ∷ s) =
      chars_case (c == b'"') (ltb c 0x20) (c == b'\\') c s (parse_chars-Left s)
        (parse_escape-Left s)

  parse_escape-Left : (s : Bytes) → Ensures (Left (suc (length s))) (parse_escape s)
  parse_escape-Left [] = rejected
  parse_escape-Left (e ∷ s) =
      escape_case (e == b'u') e s (parse_chars-Left s) (parse_unicode-Left s)

  parse_unicode-Left : (s : Bytes) → Ensures (Left (suc (suc (length s)))) (parse_unicode s)
  parse_unicode-Left [] = rejected
  parse_unicode-Left (a ∷ []) = rejected
  parse_unicode-Left (a ∷ b ∷ []) = rejected
  parse_unicode-Left (a ∷ b ∷ c ∷ []) = rejected
  parse_unicode-Left (a ∷ b ∷ c ∷ d ∷ s) =
      behind-Left _ (map_ok utf8 (code_of a b c d)) (parse_chars s) (code_of-Ensures a b c d)
        (Ensures-weaken (λ p h. omega arith) (parse_chars-Left s))

pub parse_string-Left : (s : Bytes) → Ensures (Left (length s)) (parse_string s)
unfolding parse_string
parse_string-Left s =
    Ensures-bind (consume-Shorter b'"' s)
      λ rest h. Ensures-weaken (λ p k. omega arith) (parse_chars-Left rest)

module _ (n : Numbers) where
  stod_result-Left :
      (l : ℕ) (x : Option n.Number) (s : Bytes)
      → length s < l
      → Ensures (Left l) (stod_result n x s)
  stod_result-Left l none s h = rejected
  stod_result-Left l (some x) s h = holds h

  pub parse_number-Left : (s : Bytes) → Ensures (Left (length s)) (parse_number n s)
  unfolding parse_number
  parse_number-Left s =
      Ensures-bind (number_end-Shorter s)
        λ rest h. stod_result-Left (length s) (n.stod (take (length s - length rest) s)) rest h

  pub literal-Left :
      (c : ℕ) (word : Bytes) (value : Json n.Number) (s : Bytes)
      → Ensures (Left (length s)) (literal n (c ∷ word) value s)
  literal-Left c word value s = Ensures-bind (expect-Shorter c word s) λ rest h. holds h
