-- ===== src/Security/Base64/Reference.antt =====
-- Base64 without an accumulator: the digits of a text by the alphabet of RFC 4648, and four digits of six bits as
-- three bytes. Unlike the RFC, the number of digits and of `=` behind them is not looked at, as in security.cpp.
use localsend_handheld.Prelude.{
  ℕ, ◌+◌, ◌-◌, ◌*◌, ◌/◌, ◌%◌, ◌^◌, ◌<◌, ◌≡◌, refl, sym, ap, ◌∙◌, Bool, true, false, not, List, [],
  ◌∷◌, none, some, Option, suc, zero, leb, ltb, ◌==◌, if◌then◌else◌, Bool-cases, Option-cases,
  Bytes, codes, all, drop, keep_if, ◌&&◌, inl, inr, arith,
}
use localsend_handheld.Prelude.Result.{Result, ok, err, out_of_fuel, map_ok}
use localsend_handheld.Http.Url.{is_space}
use localsend_handheld.Security.Base64.{base64_value, accumulate, decode_from, base64_decode}

abbrev pub is_visible : ℕ → Bool
is_visible c = not (is_space c)

-- The bytes of the digits; bits that do not fill a byte are dropped.
unfoldable pub octets : List ℕ → Bytes
octets [] = []
octets (a ∷ []) = []
octets (a ∷ b ∷ []) = (a * 4 + b / 16) ∷ []
octets (a ∷ b ∷ c ∷ []) = (a * 4 + b / 16) ∷ (b % 16 * 16 + c / 4) ∷ []
octets (a ∷ b ∷ c ∷ d ∷ digits) =
    (a * 4 + b / 16) ∷ (b % 16 * 16 + c / 4) ∷ (c % 4 * 64 + d) ∷ octets digits

-- Behind the first `=` only `=` may follow.
abbrev padding : Bytes → Result (List ℕ)
padding text = if all (λ c. c == b'=') text then ok [] else err (codes "invalid base64 padding")

abbrev pub alphabet : Bytes
alphabet = codes "ABCDEFGHIJKLMNOPQRSTUVWXYZabcdefghijklmnopqrstuvwxyz0123456789+/"

-- The place of a byte in a text, counted from `i`.
unfoldable pub place_from : ℕ → ℕ → Bytes → Option ℕ
place_from i c [] = none
place_from i c (d ∷ s) = if c == d then some i else place_from (i + 1) c s

abbrev pub digit_value : ℕ → Option ℕ
digit_value c = place_from 0 c alphabet

-- Bytes one after the other.
abbrev counted : ℕ → ℕ → Bytes → Bytes
counted zero first rest = rest
counted (suc n) first rest = first ∷ counted n (first + 1) rest

place_from-counted :
    (n i first c : ℕ) (rest : Bytes)
    → place_from i c (counted n first rest) ≡ (
        if leb first c && ltb c (first + n)
        then some (c - first + i)
        else place_from (i + n) c rest)
unfolding place_from
place_from-counted zero i first c rest = ground arith
place_from-counted (suc n) i first c rest =
    ground (arith, place_from-counted n (i + 1) (first + 1) c rest)

-- The ranges of the alphabet, and its last two digits.
abbrev ranges : ℕ → Option ℕ
ranges c =
    if leb 65 c && ltb c (65 + 26)
    then some (c - 65 + 0)
    else if leb 97 c && ltb c (97 + 26)
    then some (c - 97 + 26)
    else if leb 48 c && ltb c (48 + 10)
    then some (c - 48 + 52)
    else if c == 43
    then some 62
    else if c == 47
    then some 63
    else none

digit_value-ranges : (c : ℕ) → digit_value c ≡ ranges c
unfolding place_from
digit_value-ranges c =
    place_from-counted 26 0 65 c (counted 26 97 (counted 10 48 (codes "+/")))
    ∙ ap (λ r. if leb 65 c && ltb c (65 + 26) then some (c - 65 + 0) else r)
        (place_from-counted 26 26 97 c (counted 10 48 (codes "+/"))
          ∙ ap (λ r. if leb 97 c && ltb c (97 + 26) then some (c - 97 + 26) else r)
              (place_from-counted 10 52 48 c (codes "+/")))

base64_value-ranges : (c : ℕ) → base64_value c ≡ ranges c
unfolding base64_value
base64_value-ranges c = ground arith

pub base64_value-digit_value : (c : ℕ) → base64_value c ≡ digit_value c
base64_value-digit_value c = base64_value-ranges c ∙ sym (digit_value-ranges c)

-- The digits of a text without white space.
unfoldable pub digits_of : Bytes → Result (List ℕ)
digits_of [] = ok []
digits_of (c ∷ text) = elim (c == b'=') [
  | true ↦ padding text
  | false ↦ elim (digit_value c) [
    | none ↦ err (codes "invalid base64 data")
    | some value ↦ map_ok (◌∷◌ value) (digits_of text)
  ]
]

unfoldable pub decode_digits : Bytes → Result Bytes
decode_digits input = map_ok octets (digits_of (keep_if is_visible input))

-- The rest of the text matters only for how it is decoded.
decode_from-cons :
    (accumulator held : ℕ) (padded : Bool) (c : ℕ) (s t : Bytes)
    → ((a h : ℕ) (p : Bool) → decode_from a h p s ≡ decode_from a h p t)
    → decode_from accumulator held padded (c ∷ s) ≡ decode_from accumulator held padded (c ∷ t)
unfolding decode_from
decode_from-cons accumulator held padded c s t same = grind (arith, same)

-- White space makes no difference.
decode_from-keep_if :
    (accumulator held : ℕ) (padded : Bool) (input : Bytes)
    → decode_from accumulator held padded input
      ≡ decode_from accumulator held padded (keep_if is_visible input)
unfolding decode_from
decode_from-keep_if accumulator held padded [] = refl
decode_from-keep_if accumulator held padded (c ∷ input) = elim (Bool-cases (is_space c)) [
  | inl e ↦ rw (e, decode_from) (decode_from-keep_if accumulator held padded input)
  | inr e ↦
      decode_from-cons accumulator held padded c input (keep_if is_visible input)
        (λ a h p. decode_from-keep_if a h p input)
      ∙ rw (e, is_visible) refl
]

all-keep_if : (input : Bytes) → all is_visible (keep_if is_visible input) ≡ true
all-keep_if [] = refl
all-keep_if (c ∷ input) = ground (arith, all-keep_if input)

decode_padding :
    (accumulator held : ℕ) (input : Bytes)
    → all is_visible input ≡ true
    → decode_from accumulator held true input ≡ map_ok (λ digits. []) (padding input)
unfolding decode_from
decode_padding accumulator held [] h = refl
decode_padding accumulator held (c ∷ input) h =
    ground (arith, decode_padding accumulator held input)

base64_value-lt : (c value : ℕ) → base64_value c ≡ some value → value < 64
unfolding base64_value
base64_value-lt c value h = ground arith

padding_end :
    (f : List ℕ → Bytes) (input : Bytes)
    → f [] ≡ []
    → map_ok (λ digits. []) (padding input) ≡ map_ok f (padding input)
padding_end f input e = elim (Bool-cases (all (λ c. c == b'=') input)) [
  | inl h ↦ rw (h, e) refl
  | inr h ↦ rw h refl
]

map_ok-map_ok :
    {A B C : Type 0} (f : B → C) (g : A → B) (r : Result A)
    → map_ok f (map_ok g r) ≡ map_ok (λ a. f (g a)) r
map_ok-map_ok f g (ok a) = refl
map_ok-map_ok f g (err what) = refl
map_ok-map_ok f g out_of_fuel = refl

-- The digits found, with what is made of the rest of them.
decode_from_step :
    (accumulator held c : ℕ) (input : Bytes) (f : List ℕ → Bytes)
    → all is_visible (c ∷ input) ≡ true
    → f [] ≡ []
    → ((value : ℕ)
        → value < 64
        → (elim (ltb (held + 6) 8) as (λ x. Result Bytes) [
          | true ↦ decode_from (accumulate accumulator value) (held + 6) false input
          | false ↦
              map_ok
                (◌∷◌ (accumulate accumulator value / 2 ^ (held - 2) % 256))
                (decode_from (accumulate accumulator value) (held - 2) false input)
        ])
          ≡ map_ok (λ digits. f (value ∷ digits)) (digits_of input))
    → decode_from accumulator held false (c ∷ input) ≡ map_ok f (digits_of (c ∷ input))
unfolding decode_from digits_of
decode_from_step accumulator held c input f h e k =
    let visible : (is_space c ≡ false) × (all is_visible input ≡ true) = ground arith in
    elim (Bool-cases (c == b'=')) [
      | inl p ↦
          rw (decode_from, digits_of, visible.0, p)
            (decode_padding accumulator held input visible.1 ∙ padding_end f input e)
      | inr p ↦ elim (Option-cases (base64_value c)) [
        | inl none_found ↦
            let none_there = sym (base64_value-digit_value c) ∙ none_found in
            rw (decode_from, digits_of, visible.0, p, none_found, none_there) refl
        | inr (value, found) ↦
            let there = sym (base64_value-digit_value c) ∙ found in
            rw (decode_from, digits_of, visible.0, p, found, there, map_ok-map_ok)
              (k value (base64_value-lt c value found))
      ]
    ]

-- The byte pushed, and what is made of the digits behind it.
pushed :
    (byte expected : ℕ) (f g : List ℕ → Bytes) (r : Result Bytes) (digits : Result (List ℕ))
    → byte ≡ expected
    → r ≡ map_ok f digits
    → ((more : List ℕ) → expected ∷ f more ≡ g more)
    → map_ok (◌∷◌ byte) r ≡ map_ok g digits
pushed byte expected f g r (ok more) e k h = rw (e, k) (ap ok (h more))
pushed byte expected f g r (err what) e k h = rw k refl
pushed byte expected f g r out_of_fuel e k h = rw k refl

first_octet :
    (a b : ℕ) (digits : List ℕ)
    → (a * 4 + b / 16) ∷ drop 1 (octets (a ∷ b ∷ digits)) ≡ octets (a ∷ b ∷ digits)
unfolding octets
first_octet a b [] = refl
first_octet a b (c ∷ []) = refl
first_octet a b (c ∷ d ∷ digits) = refl

second_octet :
    (a b c : ℕ) (digits : List ℕ)
    → (b % 16 * 16 + c / 4) ∷ drop 2 (octets (a ∷ b ∷ c ∷ digits))
      ≡ drop 1 (octets (a ∷ b ∷ c ∷ digits))
unfolding octets
second_octet a b c [] = refl
second_octet a b c (d ∷ digits) = refl

-- No digit, one, two or three digits have been read since the last full byte.
mutual
  unfolding octets decode_from digits_of

  none_read :
      (accumulator : ℕ) (input : Bytes)
      → all is_visible input ≡ true
      → decode_from accumulator 0 false input ≡ map_ok octets (digits_of input)
  none_read accumulator [] h = refl
  none_read accumulator (c ∷ input) h =
      decode_from_step accumulator 0 c input octets h refl
        λ a lt. one_read (accumulate accumulator a) a input (omega arith) (ground arith)

  one_read :
      (accumulator a : ℕ) (input : Bytes)
      → accumulator % 64 ≡ a
      → all is_visible input ≡ true
      → decode_from accumulator 6 false input
        ≡ map_ok (λ digits. octets (a ∷ digits)) (digits_of input)
  one_read accumulator a [] e h = refl
  one_read accumulator a (c ∷ input) e h =
      decode_from_step accumulator 6 c input (λ digits. octets (a ∷ digits)) h refl
        λ b lt.
          pushed _ (a * 4 + b / 16) (λ digits. drop 1 (octets (a ∷ b ∷ digits))) _ _
            (digits_of input) (omega arith)
            (two_read (accumulate accumulator b) a b input (omega arith) (ground arith))
            (first_octet a b)

  two_read :
      (accumulator a b : ℕ) (input : Bytes)
      → accumulator % 16 ≡ b % 16
      → all is_visible input ≡ true
      → decode_from accumulator 4 false input
        ≡ map_ok (λ digits. drop 1 (octets (a ∷ b ∷ digits))) (digits_of input)
  two_read accumulator a b [] e h = refl
  two_read accumulator a b (x ∷ input) e h =
      decode_from_step accumulator 4 x input (λ digits. drop 1 (octets (a ∷ b ∷ digits))) h refl
        λ c lt.
          pushed _ (b % 16 * 16 + c / 4) (λ digits. drop 2 (octets (a ∷ b ∷ c ∷ digits))) _ _
            (digits_of input) (omega arith)
            (three_read (accumulate accumulator c) a b c input (omega arith) (ground arith))
            (second_octet a b c)

  three_read :
      (accumulator a b c : ℕ) (input : Bytes)
      → accumulator % 4 ≡ c % 4
      → all is_visible input ≡ true
      → decode_from accumulator 2 false input
        ≡ map_ok (λ digits. drop 2 (octets (a ∷ b ∷ c ∷ digits))) (digits_of input)
  three_read accumulator a b c [] e h = refl
  three_read accumulator a b c (x ∷ input) e h =
      decode_from_step accumulator 2 x input (λ digits. drop 2 (octets (a ∷ b ∷ c ∷ digits))) h refl
        λ d lt.
          pushed _ (c % 4 * 64 + d) octets _ _ (digits_of input) (omega arith)
            (none_read (accumulate accumulator d) input (ground arith)) (λ more. refl)

-- On every text, `base64_decode` gives the bytes of the digits that stand in front of the first `=`, each by its place
-- in the alphabet of RFC 4648, four digits of six bits as three bytes, with white space left out and bits that do not
-- fill a byte dropped, however many digits and `=` there are; the error is that of the first byte that is no digit,
-- or that of anything else than `=` behind an `=`.
pub base64_decode_lem : (input : Bytes) → base64_decode input ≡ decode_digits input
unfolding base64_decode decode_digits
base64_decode_lem input =
    decode_from-keep_if 0 0 false input ∙ none_read 0 (keep_if is_visible input) (all-keep_if input)
