-- ===== src/Prelude/Decimal.antt =====
-- `std::to_string` of integers.
use Prim.Native.Nat.{ℕ, zero, suc, ◌+◌, ◌-◌, ◌*◌, ◌/◌, ◌%◌, ◌<◌}
use mathlib.Core.Path.{◌≡◌, refl, sym, ap, ◌∙◌}
use mathlib.Core.Bool.{Bool, true, false, ◌&&◌, not}
use mathlib.Core.List.{[], ◌∷◌, ◌++◌, append_assoc}
use mathlib.Core.Logic.{inl, inr, ◌≢◌}
use native.Mathlib.Omega.{arith}
use localsend_handheld.Prelude.Tests.{ltb, leb, ◌==◌, if◌then◌else◌, Bool-cases}
use localsend_handheld.Prelude.Lists.{all, all-append, length, length-append}
use localsend_handheld.Prelude.Text.{Bytes}
use localsend_handheld.Prelude.Int.{ℤ, pos, negsuc}

digits : ℕ → ℕ → Bytes
digits zero n = []
digits (suc f) n =
    let rest = digits f (n / 10) ++ (b'0' + n % 10) ∷ [] in
    if ltb n 10 then (b'0' + n) ∷ [] else rest

-- The fuel is enough: each step divides by ten, and `n < suc n`.
unfoldable pub to_string : ℕ → Bytes
unfolding digits
to_string n = digits (suc n) n

unfoldable pub int_to_string : ℤ → Bytes
int_to_string (pos n) = to_string n
int_to_string (negsuc n) = b'-' ∷ to_string (suc n)

-- The number that a text of digits stands for, behind those read before.
unfoldable pub value_from : ℕ → Bytes → ℕ
value_from acc [] = acc
value_from acc (c ∷ s) = value_from (acc * 10 + (c - b'0')) s

abbrev pub is_digit : ℕ → Bool
is_digit c = leb b'0' c && leb c b'9'

value_from-append_one :
    (acc : ℕ) (s : Bytes) (c : ℕ)
    → value_from acc (s ++ c ∷ []) ≡ value_from acc s * 10 + (c - b'0')
unfolding value_from
value_from-append_one acc [] c = refl
value_from-append_one acc (x ∷ s) c = value_from-append_one (acc * 10 + (x - b'0')) s c

value_from-digits : (f n : ℕ) → n < f → value_from 0 (digits f n) ≡ n
unfolding digits
value_from-digits zero n h = elim h [ ]
value_from-digits (suc f) n h = elim (Bool-cases (ltb n 10)) [
  | inl e ↦ rw e (unfold value_from in omega arith)
  | inr e ↦ rw e (
      omega (
        arith,
        value_from-append_one 0 (digits f (n / 10)) (48 + n % 10),
        value_from-digits f (n / 10) (ground arith),
      ))
]

-- Reading the digits back gives the number.
pub value_from-to_string : (n : ℕ) → value_from 0 (to_string n) ≡ n
unfolding to_string
value_from-to_string n = value_from-digits (suc n) n (omega arith)

digits-is_digit : (f n : ℕ) → all is_digit (digits f n) ≡ true
unfolding digits
digits-is_digit zero n = refl
digits-is_digit (suc f) n = ground (
  arith,
  digits-is_digit f (n / 10),
  all-append is_digit (digits f (n / 10)) ((b'0' + n % 10) ∷ []),
)

pub to_string-is_digit : (n : ℕ) → all is_digit (to_string n) ≡ true
unfolding to_string
to_string-is_digit n = digits-is_digit (suc n) n

pub to_string-injective : (m n : ℕ) → to_string m ≡ to_string n → m ≡ n
to_string-injective m n h =
    sym (value_from-to_string m) ∙ ap (value_from 0) h ∙ value_from-to_string n

-- No digit and no sign is `c`.
abbrev pub lacks : ℕ → Bytes → Bool
lacks c = all (λ x. not (x == c))

digits-lacks : (c : ℕ) (s : Bytes) → all is_digit s ≡ true → is_digit c ≡ false → lacks c s ≡ true
digits-lacks c [] h k = refl
digits-lacks c (x ∷ s) h k = ground (arith, digits-lacks c s)

pub int_to_string-lacks :
    (c : ℕ) (x : ℤ) → is_digit c ≡ false → (c == b'-') ≡ false → lacks c (int_to_string x) ≡ true
unfolding int_to_string
int_to_string-lacks c (pos n) h k = digits-lacks c (to_string n) (to_string-is_digit n) h
int_to_string-lacks c (negsuc n) h k =
    ground (arith, digits-lacks c (to_string (suc n)) (to_string-is_digit (suc n)) h)

-- A text of digits does not begin with a sign.
minus-not-digits : (s t : Bytes) → all is_digit s ≡ true → s ≡ b'-' ∷ t → ⊥
minus-not-digits [] t h e = cc
minus-not-digits (x ∷ s) t h e = ground arith

pub int_to_string-injective : (x y : ℤ) → int_to_string x ≡ int_to_string y → x ≡ y
unfolding int_to_string
int_to_string-injective (pos m) (pos n) h = ap pos (to_string-injective m n h)
int_to_string-injective (pos m) (negsuc n) h =
    absurd (minus-not-digits (to_string m) (to_string (suc n)) (to_string-is_digit m) h)
int_to_string-injective (negsuc m) (pos n) h =
    absurd (minus-not-digits (to_string n) (to_string (suc m)) (to_string-is_digit n) (sym h))
int_to_string-injective (negsuc m) (negsuc n) h =
    let e : to_string (suc m) ≡ to_string (suc n) = cc in
    let e' = to_string-injective (suc m) (suc n) e in ap negsuc (omega arith)

-- Only zero is written with a zero in front.
abbrev pub begins : ℕ → Bytes → Bool
begins c [] = false
begins c (x ∷ s) = x == c

digits-begins : (f n : ℕ) (rest : Bytes) → 0 < n → n < f → begins b'0' (digits f n ++ rest) ≡ false
unfolding digits
digits-begins zero n rest p h = elim h [ ]
digits-begins (suc f) n rest p h = elim (Bool-cases (ltb n 10)) [
  | inl e ↦ rw e (ground arith)
  | inr e ↦ rw e (
      ap (begins b'0') (append_assoc (digits f (n / 10)) ((b'0' + n % 10) ∷ []) rest)
      ∙ digits-begins f (n / 10) (((b'0' + n % 10) ∷ []) ++ rest) (ground arith) (ground arith))
]

pub to_string-begins : (n : ℕ) (rest : Bytes) → 0 < n → begins b'0' (to_string n ++ rest) ≡ false
unfolding to_string
to_string-begins n rest p = digits-begins (suc n) n rest p (omega arith)

pub to_string_zero : to_string 0 ≡ b'0' ∷ []
unfolding to_string digits
to_string_zero = refl

digits-ne-nil : (f n : ℕ) → n < f → length (digits f n) ≢ 0
unfolding digits
digits-ne-nil zero n h e = elim h [ ]
digits-ne-nil (suc f) n h e = elim (Bool-cases (ltb n 10)) [
  | inl l ↦ let one : length ((b'0' + n) ∷ []) ≡ 0 = rw l at e in omega arith
  | inr l ↦
      let more : length (digits f (n / 10) ++ (b'0' + n % 10) ∷ []) ≡ 0 = rw l at e in
      omega (arith, length-append (digits f (n / 10)) ((b'0' + n % 10) ∷ []))
]

pub to_string-ne-nil : (n : ℕ) → length (to_string n) ≢ 0
unfolding to_string
to_string-ne-nil n = digits-ne-nil (suc n) n (omega arith)
