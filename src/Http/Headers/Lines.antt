-- ===== src/Http/Headers/Lines.antt =====
-- The words and lines that http.cpp reads from the headers that the client writes.
use mathlib.Core.List.{append_assoc}
use localsend_handheld.Prelude.{
  ℕ, ◌+◌, ◌-◌, ◌*◌, ◌<◌, ◌≡◌, refl, ap, ◌∙◌, Bool, true, false, not, ◌&&◌, List, [], ◌∷◌, ◌++◌,
  arith, ◌==◌, Bytes, codes, is_empty, length, all, has_no, cut-append, split_on, split_on-append,
  has_no-append, ◌≢◌,
}
use localsend_handheld.Prelude.Decimal.{
  to_string, is_digit, value_from, value_from-to_string, to_string-is_digit, to_string-ne-nil,
}
use localsend_handheld.Prelude.Map.{Map, insert}
use localsend_handheld.Prelude.Result.{ok}
use localsend_handheld.Transfer.{u64_mod}
use localsend_handheld.Http.Url.{is_space}
use localsend_handheld.Http.Headers.{
  pop_return, skip_blanks, parse_header_lines, decimal_digits, stoull, skip_spaces, take_word,
  next_word,
}
use localsend_handheld.Http.Headers.Request.{line_end}

-- Bytes without white space.
abbrev pub no_space : Bytes → Bool
no_space [] = true
no_space (c ∷ s) = not (is_space c) && no_space s

take_word-append :
    (s rest : Bytes) → no_space s ≡ true → take_word (s ++ b' ' ∷ rest) ≡ (s, b' ' ∷ rest)
unfolding take_word
take_word-append [] rest h = refl
take_word-append (c ∷ s) rest h = ground (arith, take_word-append s rest)

pub skip_spaces-no_space :
    (s rest : Bytes) → is_empty s ≡ false → no_space s ≡ true → skip_spaces (s ++ rest) ≡ s ++ rest
unfolding skip_spaces
skip_spaces-no_space [] rest e h = cc
skip_spaces-no_space (c ∷ s) rest e h = ground arith

pub next_word-append :
    (s rest : Bytes)
    → is_empty s ≡ false
    → no_space s ≡ true
    → next_word (s ++ b' ' ∷ rest) ≡ (s, b' ' ∷ rest)
next_word-append s rest e h =
    ap take_word (skip_spaces-no_space s (b' ' ∷ rest) e h) ∙ take_word-append s rest h

pub next_word-behind :
    (s rest : Bytes)
    → is_empty s ≡ false
    → no_space s ≡ true
    → next_word (b' ' ∷ (s ++ b' ' ∷ rest)) ≡ (s, b' ' ∷ rest)
next_word-behind s rest e h =
    let skipped : skip_spaces (b' ' ∷ (s ++ b' ' ∷ rest)) ≡ skip_spaces (s ++ b' ' ∷ rest) =
      unfold skip_spaces in refl in
    ap take_word skipped ∙ next_word-append s rest e h

pub next_word-version :
    (rest : Bytes)
    → next_word (codes " HTTP/1.1" ++ (line_end ++ rest)) ≡ (codes "HTTP/1.1", line_end ++ rest)
unfolding skip_spaces take_word
next_word-version rest = refl

pop_return-append : (s : Bytes) → has_no 13 s ≡ true → pop_return (s ++ 13 ∷ []) ≡ s
unfolding pop_return
pop_return-append [] h = refl
pop_return-append (c ∷ []) h = refl
pop_return-append (c ∷ d ∷ s) h = ground (arith, pop_return-append (d ∷ s))

-- Decimal text.
pub decimal_digits-value_from :
    (v : ℕ) (s : Bytes) → all is_digit s ≡ true → decimal_digits v s ≡ value_from v s
unfolding decimal_digits value_from
decimal_digits-value_from v [] h = refl
decimal_digits-value_from v (c ∷ s) h =
    ground (arith, decimal_digits-value_from (v * 10 + (c - b'0')) s)

stoull-digits :
    (s : Bytes)
    → all is_digit s ≡ true
    → length s ≢ 0
    → value_from 0 s < u64_mod
    → stoull s ≡ ok (value_from 0 s)
unfolding stoull
stoull-digits [] h e k = absurd (e refl)
stoull-digits (c ∷ s) h e k = ground (arith, decimal_digits-value_from 0 (c ∷ s) h)

skip_blanks-digits : (s : Bytes) → all is_digit s ≡ true → skip_blanks s ≡ s
unfolding skip_blanks
skip_blanks-digits [] h = refl
skip_blanks-digits (c ∷ s) h = ground arith

pub stoull-to_string : (k : ℕ) → k < u64_mod → stoull (skip_blanks (to_string k)) ≡ ok k
stoull-to_string k h =
    let value = value_from-to_string k in
    let fits : value_from 0 (to_string k) < u64_mod = omega arith in
    ap stoull (skip_blanks-digits (to_string k) (to_string-is_digit k))
    ∙ stoull-digits (to_string k) (to_string-is_digit k) (to_string-ne-nil k) fits
    ∙ ap ok value

-- A header line without its end.
abbrev header_text : Bytes → Bytes → Bytes
header_text key value = key ++ (b':' ∷ b' ' ∷ value)

-- Neither a carriage return nor a line feed.
abbrev pub one_line : Bytes → Bool
one_line s = has_no 13 s && has_no 10 s

header_text-one_line :
    (c : ℕ) (key value : Bytes)
    → (b':' == c) ≡ false
    → (b' ' == c) ≡ false
    → has_no c key ≡ true
    → has_no c value ≡ true
    → has_no c (header_text key value) ≡ true
header_text-one_line c key value p q h k = ground (arith, has_no-append c key (b':' ∷ b' ' ∷ value))

parse_header_lines-line :
    (key value : Bytes) (lines : List Bytes) (headers : Map Bytes)
    → is_empty key ≡ false
    → has_no b':' key ≡ true
    → has_no 13 (header_text key value) ≡ true
    → parse_header_lines ((header_text key value ++ 13 ∷ []) ∷ lines) headers
      ≡ parse_header_lines lines (insert key (skip_blanks (b' ' ∷ value)) headers)
unfolding parse_header_lines
parse_header_lines-line [] value lines headers e h k = cc
parse_header_lines-line (c ∷ key) value lines headers e h k =
    let popped = pop_return-append (header_text (c ∷ key) value) k in
    let parted = cut-append b':' (c ∷ key) (b' ' ∷ value) h in rw (popped, parted) refl

pub parse_header_lines-split_on :
    (key value rest : Bytes) (headers : Map Bytes)
    → is_empty key ≡ false
    → has_no b':' key ≡ true
    → one_line key ≡ true
    → one_line value ≡ true
    → parse_header_lines
        (split_on 10 (key ++ (b':' ∷ b' ' ∷ (value ++ (line_end ++ rest)))))
        headers
      ≡ parse_header_lines (split_on 10 rest) (insert key (skip_blanks (b' ' ∷ value)) headers)
parse_header_lines-split_on key value rest headers e h k v =
    let line = header_text key value ++ 13 ∷ [] in
    let returns = header_text-one_line 13 key value refl refl (ground arith) (ground arith) in
    let feeds = header_text-one_line 10 key value refl refl (ground arith) (ground arith) in
    let no_feed : has_no 10 line ≡ true =
      ground (arith, has_no-append 10 (header_text key value) (13 ∷ [])) in
    let whole : key ++ (b':' ∷ b' ' ∷ (value ++ (line_end ++ rest))) ≡ line ++ 10 ∷ rest =
      simp append_assoc in
    ap (λ text. parse_header_lines (split_on 10 text) headers) whole
    ∙ ap (λ lines. parse_header_lines lines headers) (split_on-append 10 line rest no_feed)
    ∙ parse_header_lines-line key value (split_on 10 rest) headers e h returns

pub parse_header_lines-end :
    (headers : Map Bytes) → parse_header_lines (split_on 10 line_end) headers ≡ headers
unfolding parse_header_lines split_on pop_return
parse_header_lines-end headers = refl
