-- ===== src/Security/Base64/Encoded.antt =====
-- Text in base64, written as RFC 4648 describes it, and broken by white space anywhere.
use localsend_handheld.Prelude.{
  ℕ, ◌+◌, ◌-◌, ◌*◌, ◌/◌, ◌%◌, ◌<◌, ◌≡◌, refl, sym, ap, ◌∙◌, false, List, [], ◌∷◌, ◌++◌, some, ltb,
  ◌==◌, if◌then◌else◌, Bytes, All, map, keep_if, arith,
}
use localsend_handheld.Prelude.Result.{ok}
use localsend_handheld.Security.Base64.{base64_value, base64_decode}
use localsend_handheld.Security.Base64.Reference.{
  base64_value-digit_value, is_visible, octets, digits_of, decode_digits, base64_decode_lem,
}

abbrev pub IsByte : ℕ → Type 0
IsByte b = b < 256

unfoldable pub base64_digit : ℕ → ℕ
base64_digit d =
    if ltb d 26
    then b'A' + d
    else if ltb d 52
    then b'a' + (d - 26)
    else if ltb d 62
    then b'0' + (d - 52)
    else if d == 62
    then b'+'
    else b'/'

unfoldable pub sextets : Bytes → List ℕ
sextets [] = []
sextets (a ∷ []) = (a / 4) ∷ (a % 4 * 16) ∷ []
sextets (a ∷ b ∷ []) = (a / 4) ∷ (a % 4 * 16 + b / 16) ∷ (b % 16 * 4) ∷ []
sextets (a ∷ b ∷ c ∷ bytes) =
    (a / 4) ∷ (a % 4 * 16 + b / 16) ∷ (b % 16 * 4 + c / 64) ∷ (c % 64) ∷ sextets bytes

unfoldable pub pads : Bytes → Bytes
pads [] = []
pads (a ∷ []) = b'=' ∷ b'=' ∷ []
pads (a ∷ b ∷ []) = b'=' ∷ []
pads (a ∷ b ∷ c ∷ bytes) = pads bytes

unfoldable pub base64_encode : Bytes → Bytes
base64_encode bytes = map base64_digit (sextets bytes) ++ pads bytes

abbrev IsSextet : ℕ → Type 0
IsSextet d = d < 64

base64_value-base64_digit : (d : ℕ) → d < 64 → base64_value (base64_digit d) ≡ some d
unfolding base64_value base64_digit
base64_value-base64_digit d h = ground arith

base64_digit-eq : (d : ℕ) → d < 64 → (base64_digit d == b'=') ≡ false
unfolding base64_digit
base64_digit-eq d h = ground arith

sextets-IsSextet : (bytes : Bytes) → All IsByte bytes → All IsSextet (sextets bytes)
unfolding sextets
sextets-IsSextet [] h = tt
sextets-IsSextet (a ∷ []) h = omega arith
sextets-IsSextet (a ∷ b ∷ []) h = omega arith
sextets-IsSextet (a ∷ b ∷ c ∷ bytes) h =
    (omega arith, (omega arith, (omega arith, (omega arith, sextets-IsSextet bytes h.1.1.1))))

octets-sextets : (bytes : Bytes) → All IsByte bytes → octets (sextets bytes) ≡ bytes
unfolding octets sextets
octets-sextets [] h = refl
octets-sextets (a ∷ []) h = ground arith
octets-sextets (a ∷ b ∷ []) h = ground arith
octets-sextets (a ∷ b ∷ c ∷ bytes) h = ground (arith, octets-sextets bytes)

digits_of-pads : (bytes : Bytes) → digits_of (pads bytes) ≡ ok []
unfolding digits_of pads
digits_of-pads [] = refl
digits_of-pads (a ∷ []) = refl
digits_of-pads (a ∷ b ∷ []) = refl
digits_of-pads (a ∷ b ∷ c ∷ bytes) = digits_of-pads bytes

digits_of-append :
    (digits : List ℕ) (rest : Bytes)
    → All IsSextet digits
    → digits_of rest ≡ ok []
    → digits_of (map base64_digit digits ++ rest) ≡ ok digits
unfolding digits_of
digits_of-append [] rest h e = e
digits_of-append (d ∷ digits) rest h e =
    rw
      (
        digits_of,
        base64_digit-eq d h.0,
        sym (base64_value-digit_value (base64_digit d)) ∙ base64_value-base64_digit d h.0,
        digits_of-append digits rest h.1 e,
      )
      refl

-- What is encoded, with white space anywhere, is decoded.
pub base64_decode-base64_encode :
    (bytes text : Bytes)
    → All IsByte bytes
    → keep_if is_visible text ≡ base64_encode bytes
    → base64_decode text ≡ ok bytes
unfolding decode_digits base64_encode
base64_decode-base64_encode bytes text h e =
    base64_decode_lem text
    ∙ rw
        (
          e,
          digits_of-append (sextets bytes) (pads bytes) (sextets-IsSextet bytes h)
              (digits_of-pads bytes),
        )
        (ap ok (octets-sextets bytes h))
