-- ===== src/Security/Base64.antt =====
-- `base64_value` and `base64_decode` of src/core/security.cpp. `accumulator` is the 32 bits of an `int`, from
-- which the source never takes a bit away, and `held` stands for `bits + 8`, the bits not yet pushed.
pub mod Reference
pub mod Encoded
use localsend_handheld.Prelude.{
  ℕ, ◌+◌, ◌-◌, ◌*◌, ◌/◌, ◌%◌, ◌^◌, Bool, true, false, ◌&&◌, [], ◌∷◌, Option, none, some, ltb, leb,
  ◌==◌, if◌then◌else◌, Bytes, codes,
}
use localsend_handheld.Prelude.Result.{Result, ok, err, map_ok}
use localsend_handheld.Http.Url.{is_space}

-- `none` stands for -1.
unfoldable pub base64_value : ℕ → Option ℕ
base64_value c =
    if leb b'A' c && leb c b'Z'
    then some (c - b'A')
    else if leb b'a' c && leb c b'z'
    then some (c - b'a' + 26)
    else if leb b'0' c && leb c b'9'
    then some (c - b'0' + 52)
    else if c == b'+'
    then some 62
    else if c == b'/'
    then some 63
    else none

-- `(accumulator << 6) | value`: the value is less than 64, so that the sum is the union of the bits.
abbrev pub accumulate : ℕ → ℕ → ℕ
accumulate accumulator value = accumulator * 64 % 2 ^ 32 + value

-- The rest of the loop, and what it pushes onto `out`.
unfoldable pub decode_from : ℕ → ℕ → Bool → Bytes → Result Bytes
decode_from accumulator held padded [] = ok []
decode_from accumulator held padded (c ∷ input) = elim (is_space c) [
  | true ↦ decode_from accumulator held padded input
  | false ↦ elim (c == b'=') [
    | true ↦ decode_from accumulator held true input
    | false ↦ elim padded [
      | true ↦ err (codes "invalid base64 padding")
      | false ↦ elim (base64_value c) [
        | none ↦ err (codes "invalid base64 data")
        | some value ↦ elim (ltb (held + 6) 8) [
          | true ↦ decode_from (accumulate accumulator value) (held + 6) false input
          | false ↦
              map_ok (◌∷◌ (accumulate accumulator value / 2 ^ (held - 2) % 256))
                (decode_from (accumulate accumulator value) (held - 2) false input)
        ]
      ]
    ]
  ]
]

unfoldable pub base64_decode : Bytes → Result Bytes
base64_decode input = decode_from 0 0 false input
