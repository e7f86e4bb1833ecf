-- ===== src/Security/Sha256/Hex.antt =====
-- The text that `sha256_hex` returns.
use localsend_handheld.Prelude.{
  ℕ, ◌*◌, ◌/◌, ◌%◌, ◌<◌, ◌≡◌, refl, true, [], ◌∷◌, Bytes, length, all, All, arith,
}
use localsend_handheld.Prelude.Hex.{is_hex_digit, is_hex_digit-hex_digit}
use localsend_handheld.Security.Sha256.{
  Digest, initial_hash, hash_bytes, hash_blocks, hex_encode, pad_message, sha256_hex,
}

abbrev IsByte : ℕ → Type 0
IsByte b = b < 256

hex_encode-digits : (bytes : Bytes) → All IsByte bytes → all is_hex_digit (hex_encode bytes) ≡ true
unfolding hex_encode
hex_encode-digits [] h = refl
hex_encode-digits (byte ∷ bytes) h =
    rw
      (
        is_hex_digit-hex_digit (byte / 16) (omega arith),
        is_hex_digit-hex_digit (byte % 16) (omega arith),
      )
      (hex_encode-digits bytes h.1)

length-hex_encode : (bytes : Bytes) → length (hex_encode bytes) ≡ 2 * length bytes
unfolding hex_encode
length-hex_encode [] = omega arith
length-hex_encode (byte ∷ bytes) = omega (arith, length-hex_encode bytes)

hash_bytes-IsByte : (hash : Digest) → All IsByte (hash_bytes hash)
unfolding hash_bytes
hash_bytes-IsByte hash = omega arith

length-hash_bytes : (hash : Digest) → length (hash_bytes hash) ≡ 32
unfolding hash_bytes
length-hash_bytes hash = refl

-- The hash of any message is written as 64 lowercase hexadecimal digits.
pub sha256_hex-digits :
    (message : Bytes)
    → (length (sha256_hex message) ≡ 64) × (all is_hex_digit (sha256_hex message) ≡ true)
unfolding sha256_hex
sha256_hex-digits message =
    let hash = hash_blocks (length (pad_message message)) (pad_message message) initial_hash in
    (
      omega (arith, length-hex_encode (hash_bytes hash), length-hash_bytes hash),
      hex_encode-digits (hash_bytes hash) (hash_bytes-IsByte hash),
    )
