-- ===== src/Security/Pem.antt =====
-- The certificate in a PEM text and its fingerprint: `pem_body`, `certificate_der_from_pem` and
-- `certificate_fingerprint_from_pem` of src/core/security.cpp.
pub mod Certificate
use localsend_handheld.Prelude.{
  ℕ, zero, suc, ◌+◌, ◌-◌, ◌*◌, ◌/◌, ◌%◌, ◌^◌, Bool, true, false, ◌&&◌, List, [], ◌∷◌, Option, none,
  some, leb, ◌==◌, if◌then◌else◌, Bytes, codes, take, drop, length,
}
use mathlib.Core.Option
use localsend_handheld.Prelude.Result.{Result, ok, err, map_ok, ◌>>=◌}
use localsend_handheld.Security.Base64.{base64_decode}
use localsend_handheld.Security.Sha256.{sha256_hex}

unfoldable pub has_prefix : Bytes → Bytes → Bool
has_prefix [] text = true
has_prefix (p ∷ prefix) [] = false
has_prefix (p ∷ prefix) (c ∷ text) = p == c && has_prefix prefix text

-- `std::string::find` of a text that is not empty; `none` stands for `npos`.
unfoldable pub find_text : Bytes → Bytes → Option ℕ
find_text needle [] = none
find_text needle (c ∷ text) =
    let rest = Option.map suc (find_text needle text) in
    if has_prefix needle (c ∷ text) then some 0 else rest

abbrev pub begin_marker : Bytes
begin_marker = codes "-----BEGIN CERTIFICATE-----"

abbrev pub end_marker : Bytes
end_marker = codes "-----END CERTIFICATE-----"

-- The count of `substr` is a `std::size_t`, which wraps where the markers overlap.
abbrev pub body_count : ℕ → ℕ → ℕ
body_count body_pos end_pos = (end_pos + 2 ^ 64 - body_pos) % 2 ^ 64

abbrev pub missing_markers : Result Bytes
missing_markers = err (codes "missing certificate PEM markers")

abbrev pub body_between : Bytes → Option ℕ → Option ℕ → Result Bytes
body_between pem none end_pos = missing_markers
body_between pem (some begin_pos) none = missing_markers
body_between pem (some begin_pos) (some end_pos) =
    let body_pos = begin_pos + length begin_marker in
    if leb end_pos begin_pos
    then missing_markers
    else ok (take (body_count body_pos end_pos) (drop body_pos pem))

unfoldable pub pem_body : Bytes → Result Bytes
pem_body pem = body_between pem (find_text begin_marker pem) (find_text end_marker pem)

unfoldable pub certificate_der_from_pem : Bytes → Result Bytes
certificate_der_from_pem pem = do body ← pem_body pem; base64_decode body

unfoldable pub certificate_fingerprint_from_pem : Bytes → Result Bytes
certificate_fingerprint_from_pem pem = map_ok sha256_hex (certificate_der_from_pem pem)
