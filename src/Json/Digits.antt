-- ===== src/Json/Digits.antt =====
-- Decimal numerals as `Parser::parse_number` of json.cpp takes them apart.
use localsend_handheld.Prelude.{
  ℕ, zero, suc, ◌-◌, ◌≡◌, ◌≢◌, refl, ap, Bool, true, false, ◌||◌, [], ◌∷◌, ◌++◌, some, arith, ◌==◌,
  Bytes, all, length, take, length-append,
}
use localsend_handheld.Prelude.Int.{ℤ, pos, negsuc}
use localsend_handheld.Prelude.Decimal.{
  to_string, int_to_string, is_digit, to_string-is_digit, to_string-begins, to_string-ne-nil,
  to_string_zero, begins,
}
use localsend_handheld.Prelude.Result.{ok}
use localsend_handheld.Json.{Numbers, number}
use localsend_handheld.Json.Parser.{
  starts, digit, skip_digits, consume_digits, integer_part, fraction_part, exponent_part,
  number_end, parse_number, skip_sign,
}

-- What may stand behind a value: nothing, a mark that ends it, or the end of the line.
abbrev pub closes : Bytes → Bool
closes [] = true
closes (c ∷ s) = c == b',' || c == b'}' || c == b']' || c == 10

skip_digits-all :
    (s rest : Bytes) → all is_digit s ≡ true → closes rest ≡ true → skip_digits (s ++ rest) ≡ rest
unfolding skip_digits
skip_digits-all [] [] h k = refl
skip_digits-all [] (c ∷ rest) h k = ground arith
skip_digits-all (c ∷ s) rest h k = ground (arith, skip_digits-all s rest)

consume_digits-all :
    (s rest : Bytes)
    → all is_digit s ≡ true
    → length s ≢ 0
    → closes rest ≡ true
    → consume_digits (s ++ rest) ≡ ok rest
unfolding consume_digits
consume_digits-all [] rest h e k = absurd (e refl)
consume_digits-all (c ∷ s) rest h e k = ground (arith, skip_digits-all (c ∷ s) rest)

begins-starts : (s : Bytes) → starts b'0' s ≡ begins b'0' s
begins-starts [] = refl
begins-starts (c ∷ s) = refl

integer_part-to_string :
    (k : ℕ) (rest : Bytes) → closes rest ≡ true → integer_part (to_string k ++ rest) ≡ ok rest
unfolding integer_part
integer_part-to_string zero rest h = rw to_string_zero refl
integer_part-to_string (suc k) rest h =
    let front = to_string-begins (suc k) rest (omega arith) in
    let same = begins-starts (to_string (suc k) ++ rest) in
    let digits =
      consume_digits-all (to_string (suc k)) rest (to_string-is_digit (suc k))
        (to_string-ne-nil (suc k)) h in
    rw (same, front) digits

no_fraction : (rest : Bytes) → closes rest ≡ true → fraction_part rest ≡ ok rest
unfolding fraction_part
no_fraction [] h = refl
no_fraction (c ∷ s) h = ground arith

no_exponent : (rest : Bytes) → closes rest ≡ true → exponent_part rest ≡ ok rest
unfolding exponent_part
no_exponent [] h = refl
no_exponent (c ∷ s) h = ground arith

no_sign :
    (s rest : Bytes)
    → all is_digit s ≡ true
    → closes rest ≡ true
    → skip_sign (s ++ rest) ≡ s ++ rest
no_sign [] [] h k = refl
no_sign [] (c ∷ rest) h k = ground arith
no_sign (c ∷ s) rest h k = ground arith

number_end_unsigned :
    (text : Bytes) (k : ℕ) (rest : Bytes)
    → skip_sign text ≡ to_string k ++ rest
    → closes rest ≡ true
    → number_end text ≡ ok rest
unfolding number_end
number_end_unsigned text k rest e h =
    rw (e, integer_part-to_string k rest h) (rw (no_fraction rest h) (no_exponent rest h))

pub number_end-int_to_string :
    (k : ℤ) (rest : Bytes) → closes rest ≡ true → number_end (int_to_string k ++ rest) ≡ ok rest
unfolding int_to_string
number_end-int_to_string (pos k) rest h =
    number_end_unsigned (to_string k ++ rest) k rest
      (no_sign (to_string k) rest (to_string-is_digit k) h) h
number_end-int_to_string (negsuc k) rest h =
    number_end_unsigned (b'-' ∷ (to_string (suc k) ++ rest)) (suc k) rest refl h

take_front : (s rest : Bytes) → take (length (s ++ rest) - length rest) (s ++ rest) ≡ s
take_front s rest =
    let same : length (s ++ rest) - length rest ≡ length s = omega (arith, length-append s rest) in
    rw same (take_all s rest)
  where
    take_all : (s rest : Bytes) → take (length s) (s ++ rest) ≡ s
    take_all [] rest = refl
    take_all (c ∷ s) rest = ap (◌∷◌ c) (take_all s rest)

-- A numeral that `std::stod` reads as `x` is parsed as `x`.
pub parse_number-int_to_string :
    (n : Numbers) (k : ℤ) (x : n.Number) (rest : Bytes)
    → n.stod (int_to_string k) ≡ some x
    → closes rest ≡ true
    → parse_number n (int_to_string k ++ rest) ≡ ok (number x, rest)
unfolding parse_number
parse_number-int_to_string n k x rest e h =
    rw (number_end-int_to_string k rest h) (rw (take_front (int_to_string k) rest, e) refl)

-- A numeral begins with a digit or a minus sign.
abbrev pub begins_number : Bytes → Bool
begins_number [] = false
begins_number (c ∷ s) = c == b'-' || digit c

begins_number_digits :
    (s rest : Bytes) → all is_digit s ≡ true → length s ≢ 0 → begins_number (s ++ rest) ≡ true
begins_number_digits [] rest h e = absurd (e refl)
begins_number_digits (c ∷ s) rest h e = ground arith

pub begins_number-int_to_string :
    (k : ℤ) (rest : Bytes) → begins_number (int_to_string k ++ rest) ≡ true
unfolding int_to_string
begins_number-int_to_string (pos k) rest =
    begins_number_digits (to_string k) rest (to_string-is_digit k) (to_string-ne-nil k)
begins_number-int_to_string (negsuc k) rest = refl
