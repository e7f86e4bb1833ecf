-- ===== src/Security/Pem/Certificate.antt =====
-- What is read from a PEM text: the bytes that were encoded between its markers.
use localsend_handheld.Prelude.{
  ℕ, ◌+◌, ◌^◌, ◌<◌, ◌≡◌, refl, ap, true, false, List, [], ◌∷◌, ◌++◌, some, ◌==◌, Bytes, All, map,
  has_no, take-append, keep_if, leb, length, arith,
}
use localsend_handheld.Prelude.Result.{ok}
use localsend_handheld.Security.Base64.Reference.{is_visible}
use localsend_handheld.Security.Base64.Encoded.{
  IsByte, base64_digit, sextets, pads, base64_encode, base64_decode-base64_encode,
}
use localsend_handheld.Security.Pem.{
  has_prefix, find_text, begin_marker, end_marker, pem_body, certificate_der_from_pem,
}

find_text-append :
    (body rest : Bytes)
    → has_no b'-' body ≡ true
    → find_text end_marker (body ++ (end_marker ++ rest)) ≡ some (length body)
unfolding find_text has_prefix
find_text-append [] rest h = refl
find_text-append (c ∷ body) rest h =
    let other : ((b'-' == c) ≡ false) × (has_no b'-' body ≡ true) = ground arith in
    rw (other.0, find_text-append body rest other.1) refl

-- A certificate's text: the body starts on a new line, as the encoders of PEM write it.
abbrev pub pem_text : Bytes → Bytes → Bytes
pem_text body rest = begin_marker ++ ((10 ∷ body) ++ (end_marker ++ rest))

find_end :
    (body rest : Bytes)
    → has_no b'-' body ≡ true
    → find_text end_marker (pem_text body rest) ≡ some (28 + length body)
unfolding find_text has_prefix
find_end body rest h = rw (find_text-append body rest h) (ap some (omega arith))

find_begin : (body rest : Bytes) → find_text begin_marker (pem_text body rest) ≡ some 0
unfolding find_text has_prefix
find_begin body rest = refl

pem_body-pem_text :
    (body rest : Bytes)
    → has_no b'-' body ≡ true
    → length body < 2 ^ 63
    → pem_body (pem_text body rest) ≡ ok (10 ∷ body)
unfolding pem_body
pem_body-pem_text body rest h lt =
    let behind : leb (28 + length body) 0 ≡ false = ground arith in
    rw (find_begin body rest, find_end body rest h, behind)
      (ap ok (take-append (10 ∷ body) (end_marker ++ rest) _ (omega arith)))

has_no-digits :
    (digits : List ℕ) (rest : Bytes)
    → has_no b'-' rest ≡ true
    → has_no b'-' (map base64_digit digits ++ rest) ≡ true
unfolding base64_digit
has_no-digits [] rest h = h
has_no-digits (d ∷ digits) rest h = ground (arith, has_no-digits digits rest h)

has_no-pads : (bytes : Bytes) → has_no b'-' (pads bytes) ≡ true
unfolding pads
has_no-pads [] = refl
has_no-pads (a ∷ []) = refl
has_no-pads (a ∷ b ∷ []) = refl
has_no-pads (a ∷ b ∷ c ∷ bytes) = has_no-pads bytes

has_no-keep_if :
    (body : Bytes) → has_no b'-' (keep_if is_visible body) ≡ true → has_no b'-' body ≡ true
has_no-keep_if [] h = refl
has_no-keep_if (c ∷ body) h = ground (arith, has_no-keep_if body)

-- The bytes of a certificate come back from its text, wherever the lines of the body end and whatever follows
-- the end marker.
pub certificate_der_from_pem-pem_text :
    (bytes body rest : Bytes)
    → All IsByte bytes
    → keep_if is_visible body ≡ base64_encode bytes
    → length body < 2 ^ 63
    → certificate_der_from_pem (pem_text body rest) ≡ ok bytes
unfolding certificate_der_from_pem base64_encode
certificate_der_from_pem-pem_text bytes body rest h e lt =
    let dashless : has_no b'-' body ≡ true =
      has_no-keep_if body (rw e (has_no-digits (sextets bytes) (pads bytes) (has_no-pads bytes))) in
    rw (pem_body-pem_text body rest dashless lt) (base64_decode-base64_encode bytes (10 ∷ body) h e)
