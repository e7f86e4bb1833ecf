-- ===== src/Json/Escape.antt =====
-- `json_escape` and `Parser::parse_string` of json.cpp: strings between quotes.
use mathlib.Core.List.{append_assoc}
use localsend_handheld.Prelude.{
  ℕ, ◌+◌, ◌*◌, ◌/◌, ◌%◌, ◌<◌, ◌≡◌, refl, ◌∙◌, ap, true, false, ◌||◌, [], ◌∷◌, ◌++◌, Option, none,
  some, inl, inr, arith, ltb, leb, ◌==◌, if◌then◌else◌, Bytes, codes, Bool-cases, ltb→lt, subst,
}
use localsend_handheld.Prelude.Hex.{hex_value, hex_digit, hex_value-hex_digit}
use localsend_handheld.Prelude.Result.{Result, ok, err, out_of_fuel, ◌>>=◌, map_ok}

-- `\u` with `std::hex`, `std::setw(4)` and a fill of zeros, for a byte below 0x20.
abbrev pub unicode_escape : ℕ → Bytes
unicode_escape c = codes "\\u00" ++ hex_digit (c / 16) ∷ hex_digit (c % 16) ∷ []

unfoldable pub escape_byte : ℕ → Bytes
escape_byte c =
    if c == b'"'
    then codes "\\\""
    else if c == b'\\'
    then codes "\\\\"
    else if c == 8
    then codes "\\b"
    else if c == 12
    then codes "\\f"
    else if c == 10
    then codes "\\n"
    else if c == 13
    then codes "\\r"
    else if c == 9
    then codes "\\t"
    else if ltb c 0x20
    then unicode_escape c
    else c ∷ []

unfoldable pub json_escape : Bytes → Bytes
json_escape [] = []
json_escape (c ∷ value) = escape_byte c ++ json_escape value

-- `0xC0 | (code >> 6)` and the like: the bits of the two sides of an `|` are apart.
unfoldable pub utf8 : ℕ → Bytes
utf8 code =
    if leb code 0x7F
    then code ∷ []
    else if leb code 0x7FF
    then (0xC0 + code / 64) ∷ (0x80 + code % 64) ∷ []
    else (0xE0 + code / 4096) ∷ (0x80 + code / 64 % 64) ∷ (0x80 + code % 64) ∷ []

abbrev pub digit_of : Option ℕ → Result ℕ
digit_of none = err (codes "invalid unicode escape")
digit_of (some d) = ok d

-- The four digits of `append_unicode_escape`.
unfoldable pub code_of : ℕ → ℕ → ℕ → ℕ → Result ℕ
code_of a b c d = do
  w ← digit_of (hex_value a)
  x ← digit_of (hex_value b)
  y ← digit_of (hex_value c)
  z ← digit_of (hex_value d)
  ok (((w * 16 + x) * 16 + y) * 16 + z)

-- The bytes for the letter behind a backslash, other than `u`.
unfoldable pub simple_escape : ℕ → Result Bytes
simple_escape e =
    if e == b'"' || e == b'\\' || e == b'/'
    then ok (e ∷ [])
    else if e == b'b'
    then ok (8 ∷ [])
    else if e == b'f'
    then ok (12 ∷ [])
    else if e == b'n'
    then ok (10 ∷ [])
    else if e == b'r'
    then ok (13 ∷ [])
    else if e == b't'
    then ok (9 ∷ [])
    else err (codes "invalid JSON escape")

-- Bytes that stand before those that are read next.
abbrev pub behind : Result Bytes → Result (Bytes × Bytes) → Result (Bytes × Bytes)
behind (ok out) r = map_ok (λ p. (out ++ p.0, p.1)) r
behind (err what) r = err what
behind out_of_fuel r = out_of_fuel

-- The loop of `parse_string` behind the opening quote: the string, and what is behind the closing one.
unfoldable mutual
  pub parse_chars : Bytes → Result (Bytes × Bytes)
  parse_chars [] = err (codes "unfinished JSON string")
  parse_chars (c ∷ s) = elim (c == b'"') [
    | true ↦ ok ([], s)
    | false ↦ elim (ltb c 0x20) [
      | true ↦ err (codes "control character in JSON string")
      | false ↦ elim (c == b'\\') [
        | false ↦ behind (ok (c ∷ [])) (parse_chars s)
        | true ↦ parse_escape s
      ]
    ]
  ]

  pub parse_escape : Bytes → Result (Bytes × Bytes)
  parse_escape [] = err (codes "unfinished JSON escape")
  parse_escape (e ∷ s) = elim (e == b'u') [
    | false ↦ behind (simple_escape e) (parse_chars s)
    | true ↦ parse_unicode s
  ]

  pub parse_unicode : Bytes → Result (Bytes × Bytes)
  parse_unicode (a ∷ b ∷ c ∷ d ∷ s) = behind (map_ok utf8 (code_of a b c d)) (parse_chars s)
  parse_unicode [] = err (codes "short unicode escape")
  parse_unicode (a ∷ []) = err (codes "short unicode escape")
  parse_unicode (a ∷ b ∷ []) = err (codes "short unicode escape")
  parse_unicode (a ∷ b ∷ c ∷ []) = err (codes "short unicode escape")

code_of-hex_digit :
    (x y : ℕ) → x < 16 → y < 16 → code_of b'0' b'0' (hex_digit x) (hex_digit y) ≡ ok (x * 16 + y)
unfolding code_of
code_of-hex_digit x y h k =
    let zero_digit : hex_value b'0' ≡ some 0 = unfold hex_value in refl in
    rw (zero_digit, hex_value-hex_digit x h, hex_value-hex_digit y k) (ap ok (omega arith))

utf8_ascii : (c : ℕ) → c < 128 → utf8 c ≡ c ∷ []
unfolding utf8
utf8_ascii c h = ground arith

-- What an escaped byte reads as.
abbrev ReadsAs : Bytes → ℕ → Bytes → Type 0
ReadsAs text c t = parse_chars (text ++ t) ≡ behind (ok (c ∷ [])) (parse_chars t)

unicode_escape-ReadsAs : (c : ℕ) (t : Bytes) → c < 32 → ReadsAs (unicode_escape c) c t
unfolding parse_chars
unicode_escape-ReadsAs c t h =
    let whole : c / 16 * 16 + c % 16 ≡ c = omega arith in
    ap (λ r. behind (map_ok utf8 r) (parse_chars t))
      (code_of-hex_digit (c / 16) (c % 16) (omega arith) (omega arith))
    ∙ ap (λ k. behind (ok (utf8 k)) (parse_chars t)) whole
    ∙ ap (λ out. behind (ok out) (parse_chars t)) (utf8_ascii c (omega arith))

plain-ReadsAs :
    (c : ℕ) (t : Bytes)
    → (c == b'"') ≡ false
    → (c == b'\\') ≡ false
    → ltb c 0x20 ≡ false
    → ReadsAs (c ∷ []) c t
unfolding parse_chars
plain-ReadsAs c t q b h = ground arith

-- Where a test for one byte holds, that byte's case is enough.
at_byte :
    (k c : ℕ) (t : Bytes)
    → (c == k) ≡ true
    → ReadsAs (escape_byte k) k t
    → ReadsAs (escape_byte c) c t
at_byte k c t e h =
    let same : k ≡ c = ground arith in subst (λ c. ReadsAs (escape_byte c) c t) same h

escape_byte-ReadsAs : (c : ℕ) (t : Bytes) → ReadsAs (escape_byte c) c t
unfolding escape_byte parse_chars simple_escape
escape_byte-ReadsAs c t = elim (Bool-cases (c == b'"')) [
  | inl e ↦ at_byte b'"' c t e refl
  | inr quote ↦ elim (Bool-cases (c == b'\\')) [
    | inl e ↦ at_byte b'\\' c t e refl
    | inr slash ↦ elim (Bool-cases (c == 8)) [
      | inl e ↦ at_byte 8 c t e refl
      | inr back ↦ elim (Bool-cases (c == 12)) [
        | inl e ↦ at_byte 12 c t e refl
        | inr feed ↦ elim (Bool-cases (c == 10)) [
          | inl e ↦ at_byte 10 c t e refl
          | inr line ↦ elim (Bool-cases (c == 13)) [
            | inl e ↦ at_byte 13 c t e refl
            | inr return ↦ elim (Bool-cases (c == 9)) [
              | inl e ↦ at_byte 9 c t e refl
              | inr tab ↦ elim (Bool-cases (ltb c 0x20)) [
                | inl low ↦
                    rw (quote, slash, back, feed, line, return, tab, low)
                      (unicode_escape-ReadsAs c t (ltb→lt c 0x20 low))
                | inr high ↦
                    rw (quote, slash, back, feed, line, return, tab, high)
                      (plain-ReadsAs c t quote slash high)
              ]
            ]
          ]
        ]
      ]
    ]
  ]
]

-- A string that is escaped and read back is what it was, whatever bytes it holds.
pub parse_chars-json_escape :
    (s rest : Bytes) → parse_chars (json_escape s ++ b'"' ∷ rest) ≡ ok (s, rest)
unfolding json_escape
parse_chars-json_escape [] rest = unfold parse_chars in refl
parse_chars-json_escape (c ∷ s) rest =
    ap parse_chars (append_assoc (escape_byte c) (json_escape s) (b'"' ∷ rest))
    ∙ escape_byte-ReadsAs c (json_escape s ++ b'"' ∷ rest)
    ∙ ap (behind (ok (c ∷ []))) (parse_chars-json_escape s rest)
