-- ===== src/Security/Sha256.antt =====
-- `sha256_hex` of src/core/security.cpp. A `std::uint32_t` is a number below 2 ^ 32, and each operation that
-- can leave that range is cut to it.
pub mod Padded
pub mod Hex
use Prim.Native.Nat.{bit_and, bit_or, bit_xor}
use localsend_handheld.Prelude.{
  ℕ, zero, suc, ◌+◌, ◌-◌, ◌*◌, ◌/◌, ◌%◌, ◌^◌, Bool, true, false, List, [], ◌∷◌, ◌++◌, Option, none,
  some, ◌==◌, Bytes, length, get_elem?, take, drop, is_empty,
}
use localsend_handheld.Prelude.Hex.{hex_digit}

-- `kSha256RoundConstants`.
abbrev pub round_constants : List ℕ
round_constants =
    0x428a2f98 ∷ 0x71374491 ∷ 0xb5c0fbcf ∷ 0xe9b5dba5 ∷ 0x3956c25b ∷ 0x59f111f1 ∷ 0x923f82a4
    ∷ 0xab1c5ed5 ∷ 0xd807aa98 ∷ 0x12835b01 ∷ 0x243185be ∷ 0x550c7dc3 ∷ 0x72be5d74 ∷ 0x80deb1fe
    ∷ 0x9bdc06a7 ∷ 0xc19bf174 ∷ 0xe49b69c1 ∷ 0xefbe4786 ∷ 0x0fc19dc6 ∷ 0x240ca1cc ∷ 0x2de92c6f
    ∷ 0x4a7484aa ∷ 0x5cb0a9dc ∷ 0x76f988da ∷ 0x983e5152 ∷ 0xa831c66d ∷ 0xb00327c8 ∷ 0xbf597fc7
    ∷ 0xc6e00bf3 ∷ 0xd5a79147 ∷ 0x06ca6351 ∷ 0x14292967 ∷ 0x27b70a85 ∷ 0x2e1b2138 ∷ 0x4d2c6dfc
    ∷ 0x53380d13 ∷ 0x650a7354 ∷ 0x766a0abb ∷ 0x81c2c92e ∷ 0x92722c85 ∷ 0xa2bfe8a1 ∷ 0xa81a664b
    ∷ 0xc24b8b70 ∷ 0xc76c51a3 ∷ 0xd192e819 ∷ 0xd6990624 ∷ 0xf40e3585 ∷ 0x106aa070 ∷ 0x19a4c116
    ∷ 0x1e376c08 ∷ 0x2748774c ∷ 0x34b0bcb5 ∷ 0x391c0cb3 ∷ 0x4ed8aa4a ∷ 0x5b9cca4f ∷ 0x682e6ff3
    ∷ 0x748f82ee ∷ 0x78a5636f ∷ 0x84c87814 ∷ 0x8cc70208 ∷ 0x90befffa ∷ 0xa4506ceb ∷ 0xbef9a3f7
    ∷ 0xc67178f2 ∷ []

abbrev pub rotate_right : ℕ → ℕ → ℕ
rotate_right value count = bit_or (value / 2 ^ count) (value * 2 ^ (32 - count) % 2 ^ 32)

abbrev pub add32 : ℕ → ℕ → ℕ
add32 a b = (a + b) % 2 ^ 32

-- `~e`
abbrev complement32 : ℕ → ℕ
complement32 e = 2 ^ 32 - 1 - e

-- `while ((padded.size() % 64) != 56) padded.push_back(0)`, on fuel.
unfoldable pub push_zeros : ℕ → Bytes → Bytes
push_zeros zero padded = padded
push_zeros (suc fuel) padded = elim (length padded % 64 == 56) [
  | true ↦ padded
  | false ↦ push_zeros fuel (padded ++ (0 ∷ []))
]

-- The bytes of `bit_len`, the highest first: `count` of them are left.
unfoldable pub length_bytes : ℕ → ℕ → Bytes
length_bytes zero bit_len = []
length_bytes (suc i) bit_len = (bit_len / 2 ^ (i * 8) % 256) ∷ length_bytes i bit_len

unfoldable pub bit_len_of : Bytes → ℕ
bit_len_of message = length message * 8 % 2 ^ 64

unfoldable pub pad_message : Bytes → Bytes
pad_message message = push_zeros 64 (message ++ (0x80 ∷ [])) ++ length_bytes 8 (bit_len_of message)

-- The words of a block of 64 bytes: `<< 24 | << 16 | << 8 |` of bytes puts them side by side.
unfoldable pub block_words : Bytes → List ℕ
block_words (a ∷ b ∷ c ∷ d ∷ block) = (a * 2 ^ 24 + b * 2 ^ 16 + c * 2 ^ 8 + d) ∷ block_words block
block_words _ = []

abbrev pub word_at : List ℕ → ℕ → ℕ
word_at words i = elim (get_elem? words i) [ some word ↦ word | none ↦ 0 ]

abbrev pub further_word : List ℕ → ℕ → ℕ
further_word words i =
    let x = word_at words (i - 15) in
    let y = word_at words (i - 2) in
    let s0 = bit_xor (bit_xor (rotate_right x 7) (rotate_right x 18)) (x / 2 ^ 3) in
    let s1 = bit_xor (bit_xor (rotate_right y 17) (rotate_right y 19)) (y / 2 ^ 10) in
    add32 (add32 (add32 (word_at words (i - 16)) s0) (word_at words (i - 7))) s1

-- The loop from `i` on, with `rounds` rounds left: `words` are those that are set.
unfoldable pub extend_words : ℕ → ℕ → List ℕ → List ℕ
extend_words zero i words = words
extend_words (suc rounds) i words =
    extend_words rounds (i + 1) (words ++ (further_word words i ∷ []))

-- The eight variables, and the eight words of `hash`.
pub record Digest : Type 0 where
  pub a : ℕ
  pub b : ℕ
  pub c : ℕ
  pub d : ℕ
  pub e : ℕ
  pub f : ℕ
  pub g : ℕ
  pub h : ℕ

abbrev pub initial_hash : Digest
initial_hash = record {
  a = 0x6a09e667;
  b = 0xbb67ae85;
  c = 0x3c6ef372;
  d = 0xa54ff53a;
  e = 0x510e527f;
  f = 0x9b05688c;
  g = 0x1f83d9ab;
  h = 0x5be0cd19;
}

unfoldable pub round : ℕ → ℕ → Digest → Digest
round constant word v =
    let s1 = bit_xor (bit_xor (rotate_right v.e 6) (rotate_right v.e 11)) (rotate_right v.e 25) in
    let ch = bit_xor (bit_and v.e v.f) (bit_and (complement32 v.e) v.g) in
    let temp1 = add32 (add32 (add32 (add32 v.h s1) ch) constant) word in
    let s0 = bit_xor (bit_xor (rotate_right v.a 2) (rotate_right v.a 13)) (rotate_right v.a 22) in
    let maj = bit_xor (bit_xor (bit_and v.a v.b) (bit_and v.a v.c)) (bit_and v.b v.c) in
    let temp2 = add32 s0 maj in
    record {
      a = add32 temp1 temp2;
      b = v.a;
      c = v.b;
      d = v.c;
      e = add32 v.d temp1;
      f = v.e;
      g = v.f;
      h = v.g;
    }

unfoldable pub rounds_over : List ℕ → List ℕ → Digest → Digest
rounds_over (constant ∷ constants) (word ∷ words) v =
    rounds_over constants words (round constant word v)
rounds_over _ _ v = v

unfoldable pub add_hash : Digest → Digest → Digest
add_hash hash v = record {
  a = add32 hash.a v.a;
  b = add32 hash.b v.b;
  c = add32 hash.c v.c;
  d = add32 hash.d v.d;
  e = add32 hash.e v.e;
  f = add32 hash.f v.f;
  g = add32 hash.g v.g;
  h = add32 hash.h v.h;
}

unfoldable pub hash_block : Bytes → Digest → Digest
hash_block block hash =
    add_hash hash (rounds_over round_constants (extend_words 48 16 (block_words block)) hash)

-- `for (offset = 0; offset < padded.size(); offset += 64)`, on fuel: `padded` is what is left.
unfoldable pub hash_blocks : ℕ → Bytes → Digest → Digest
hash_blocks zero padded hash = hash
hash_blocks (suc fuel) padded hash = elim (is_empty padded) [
  | true ↦ hash
  | false ↦ hash_blocks fuel (drop 64 padded) (hash_block (take 64 padded) hash)
]

abbrev pub word_bytes : ℕ → Bytes
word_bytes w = (w / 2 ^ 24 % 256) ∷ (w / 2 ^ 16 % 256) ∷ (w / 2 ^ 8 % 256) ∷ (w % 256) ∷ []

unfoldable pub hash_bytes : Digest → Bytes
hash_bytes hash =
    word_bytes hash.a
    ++ (word_bytes hash.b
        ++ (word_bytes hash.c
            ++ (word_bytes hash.d
                ++ (word_bytes hash.e
                    ++ (word_bytes hash.f ++ (word_bytes hash.g ++ word_bytes hash.h))))))

unfoldable pub hex_encode : Bytes → Bytes
hex_encode [] = []
hex_encode (byte ∷ bytes) = hex_digit (byte / 16) ∷ hex_digit (byte % 16) ∷ hex_encode bytes

unfoldable pub sha256_hex : Bytes → Bytes
sha256_hex message =
    let padded = pad_message message in
    hex_encode (hash_bytes (hash_blocks (length padded) padded initial_hash))
