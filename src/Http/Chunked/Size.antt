-- ===== src/Http/Chunked/Size.antt =====
-- The size line of a chunk: what the client writes in hexadecimal the server reads.
use mathlib.Core.List.{append-nil, append_assoc}
use localsend_handheld.Prelude.{
  ℕ, zero, suc, ◌+◌, ◌*◌, ◌/◌, ◌%◌, ◌<◌, ◌≡◌, refl, sym, ap, ◌∙◌, true, false, [], ◌∷◌, ◌++◌, ltb,
  ◌==◌, ◌&&◌, ◌||◌, ==_iff, lt→ltb, subst, Bool-cases, inl, inr, Bytes, all, all-append, cut-none,
  has_no, is_empty, arith,
}
use localsend_handheld.Transfer.{u64_mod}
use localsend_handheld.Prelude.Hex.{
  hex_digit, hex_value-hex_digit, is_hex_digit, is_hex_digit-hex_digit,
}
use localsend_handheld.Http.Url.{is_space}
use localsend_handheld.Http.Chunked.{
  hex_digits, hex_prefixed, hex_signed, strtoull_hex, chunk_size_of, hex_text,
}

hex_digits-cons :
    (value d : ℕ) (rest : Bytes)
    → d < 16
    → value * 16 + d < u64_mod
    → hex_digits value (hex_digit d ∷ rest) ≡ hex_digits (value * 16 + d) rest
unfolding hex_digits
hex_digits-cons value d rest h lt =
    let fits : ltb (value * 16 + d) u64_mod ≡ true = ground arith in
    rw (hex_digits, hex_value-hex_digit d h, fits) refl

hex_digits-hex_text :
    (fuel n : ℕ) (rest : Bytes)
    → n < fuel
    → n < u64_mod
    → hex_digits 0 (hex_text fuel n ++ rest) ≡ hex_digits n rest
unfolding hex_text
hex_digits-hex_text zero n rest h lt = absurd (omega arith)
hex_digits-hex_text (suc fuel) n rest h lt = elim (Bool-cases (ltb n 16)) [
  | inl e ↦
      rw (hex_text, e)
        (hex_digits-cons 0 n rest (ground arith) (omega arith)
          ∙ ap (λ k. hex_digits k rest) (omega arith))
  | inr e ↦
      rw (hex_text, e, append_assoc)
        (hex_digits-hex_text fuel (n / 16) (hex_digit (n % 16) ∷ rest) (ground arith) (omega arith)
          ∙ hex_digits-cons (n / 16) (n % 16) rest (omega arith) (omega arith)
          ∙ ap (λ k. hex_digits k rest) (omega arith))
]

pub hex_text-digits : (fuel n : ℕ) → all is_hex_digit (hex_text fuel n) ≡ true
unfolding hex_text
hex_text-digits zero n = refl
hex_text-digits (suc fuel) n = elim (Bool-cases (ltb n 16)) [
  | inl e ↦ rw (hex_text, e, is_hex_digit-hex_digit n (ground arith)) refl
  | inr e ↦
      rw
        (
          hex_text,
          e,
          all-append is_hex_digit (hex_text fuel (n / 16)) (hex_digit (n % 16) ∷ []),
          hex_text-digits fuel (n / 16),
          is_hex_digit-hex_digit (n % 16) (omega arith),
        )
        refl
]

hex_text-filled : (fuel n : ℕ) → n < fuel → is_empty (hex_text fuel n) ≡ false
unfolding hex_text
hex_text-filled zero n h = absurd (omega arith)
hex_text-filled (suc fuel) n h = elim (Bool-cases (ltb n 16)) [
  | inl e ↦ rw (hex_text, e) refl
  | inr e ↦
      rw (hex_text, e)
        (filled (hex_text fuel (n / 16)) (hex_digit (n % 16) ∷ [])
          (hex_text-filled fuel (n / 16) (ground arith)))
]
  where
    filled : (s t : Bytes) → is_empty s ≡ false → is_empty (s ++ t) ≡ false
    filled [] t h = cc
    filled (c ∷ s) t h = refl

-- Without a prefix, a sign or white space the text is its digits.
hex_prefixed-digits : (s : Bytes) → all is_hex_digit s ≡ true → hex_prefixed s ≡ hex_digits 0 s
unfolding hex_prefixed
hex_prefixed-digits [] h = refl
hex_prefixed-digits (c ∷ []) h = refl
hex_prefixed-digits (c ∷ d ∷ []) h = refl
hex_prefixed-digits (c ∷ d ∷ e ∷ s) h =
    let plain : (c == b'0' && (d == b'x' || d == b'X')) ≡ false = ground arith in rw plain refl

strtoull_hex-digits :
    (s : Bytes)
    → is_empty s ≡ false
    → all is_hex_digit s ≡ true
    → hex_digits 0 s < u64_mod
    → strtoull_hex s ≡ hex_digits 0 s
unfolding strtoull_hex hex_signed
strtoull_hex-digits [] e h lt = cc
strtoull_hex-digits (c ∷ s) e h lt =
    let plain : (is_space c ≡ false) × ((c == b'-') ≡ false) × ((c == b'+') ≡ false) =
      ground arith in
    let whole = hex_prefixed-digits (c ∷ s) h in
    let fits : ltb (hex_digits 0 (c ∷ s)) u64_mod ≡ true = lt→ltb _ _ lt in
    rw (plain.0, plain.1, plain.2, whole, fits) refl

has_no-digits :
    (c : ℕ) (s : Bytes) → is_hex_digit c ≡ false → all is_hex_digit s ≡ true → has_no c s ≡ true
has_no-digits c [] e h = refl
has_no-digits c (d ∷ s) e h = elim (Bool-cases (d == c)) [
  | inl same ↦
      let hex : is_hex_digit c ≡ true =
        subst (λ x. is_hex_digit x ≡ true) ((==_iff d c).0 same) (ground arith) in
      absurd (cc (hex, e))
  | inr other ↦ ground (arith, has_no-digits c s e)
]

-- The size that the client writes in front of a chunk is the size that the server reads.
pub chunk_size_of-hex_text :
    (fuel n : ℕ) → n < fuel → n < u64_mod → chunk_size_of (hex_text fuel n) ≡ n
unfolding chunk_size_of hex_digits
chunk_size_of-hex_text fuel n h lt =
    let text = hex_text fuel n in
    let digits = hex_text-digits fuel n in
    let value : hex_digits 0 text ≡ n =
      ap (hex_digits 0) (sym (append-nil text)) ∙ hex_digits-hex_text fuel n [] h lt in
    rw (chunk_size_of, cut-none b';' text (has_no-digits b';' text refl digits))
      (strtoull_hex-digits text (hex_text-filled fuel n h) digits (rw value lt) ∙ value)

pub hex_text-has_no : (c fuel n : ℕ) → is_hex_digit c ≡ false → has_no c (hex_text fuel n) ≡ true
hex_text-has_no c fuel n h = has_no-digits c (hex_text fuel n) h (hex_text-digits fuel n)
