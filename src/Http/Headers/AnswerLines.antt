-- ===== src/Http/Headers/AnswerLines.antt =====
-- The first line and the header lines of an answer of the server, as http.cpp reads them.
use localsend_handheld.Prelude.{
  ℕ, ◌+◌, ◌*◌, ◌^◌, ◌<◌, ◌≡◌, ◌≢◌, refl, ap, ◌∙◌, true, false, [], ◌∷◌, ◌++◌, arith, Bytes, codes,
  is_empty, length, ◌-◌, all, has_no, beq, blt, lower_ascii,
}
use localsend_handheld.Prelude.Decimal.{
  to_string, is_digit, value_from, value_from-to_string, to_string-is_digit, to_string-ne-nil,
}
use localsend_handheld.Prelude.Int.{pos}
use localsend_handheld.Prelude.Map.{Map, insert}
use localsend_handheld.Prelude.Result.{ok}
use localsend_handheld.Transfer.{u64_mod}
use localsend_handheld.Http.Headers.{
  skip_blanks, skip_spaces, take_word, next_word, discard_line, parse_headers, content_length,
  transfer_encoding_chunked, decimal_digits,
}
use localsend_handheld.Http.Headers.Request.{line_end}
use localsend_handheld.Http.Headers.Lines.{
  no_space, one_line, skip_spaces-no_space, stoull-to_string, parse_header_lines-split_on,
  parse_header_lines-end,
}
use localsend_handheld.Http.Headers.RoundTrip.{entry, to_string-one_line}
use localsend_handheld.Http.Headers.Response.{
  status_text, drop_digits, positive_int, signed_int, next_int,
}

-- The status.
digits-no_space : (s : Bytes) → all is_digit s ≡ true → no_space s ≡ true
digits-no_space [] h = refl
digits-no_space (c ∷ s) h = ground (arith, digits-no_space s)

decimal_digits-append :
    (v : ℕ) (s rest : Bytes)
    → all is_digit s ≡ true
    → decimal_digits v (s ++ b' ' ∷ rest) ≡ value_from v s
unfolding decimal_digits value_from
decimal_digits-append v [] rest h = refl
decimal_digits-append v (c ∷ s) rest h =
    ground (arith, decimal_digits-append (v * 10 + (c - b'0')) s rest)

drop_digits-append :
    (s rest : Bytes) → all is_digit s ≡ true → drop_digits (s ++ b' ' ∷ rest) ≡ b' ' ∷ rest
unfolding drop_digits
drop_digits-append [] rest h = refl
drop_digits-append (c ∷ s) rest h = ground (arith, drop_digits-append s rest)

signed_int-digits :
    (s rest : Bytes)
    → all is_digit s ≡ true
    → length s ≢ 0
    → value_from 0 s < 2 ^ 31
    → signed_int (s ++ b' ' ∷ rest) ≡ (pos (value_from 0 s), b' ' ∷ rest)
unfolding signed_int positive_int
signed_int-digits [] rest h e k = absurd (e refl)
signed_int-digits (c ∷ s) rest h e k =
    let value = decimal_digits-append 0 (c ∷ s) rest h in
    let left = drop_digits-append (c ∷ s) rest h in ground (arith)

nonempty : (s : Bytes) → length s ≢ 0 → is_empty s ≡ false
nonempty [] h = absurd (h refl)
nonempty (c ∷ s) h = refl

pub next_int-to_string :
    (k : ℕ) (rest : Bytes)
    → k < 2 ^ 31
    → next_int (b' ' ∷ (to_string k ++ b' ' ∷ rest)) ≡ (pos k, b' ' ∷ rest)
next_int-to_string k rest h =
    let digits = to_string-is_digit k in
    let value = value_from-to_string k in
    let first : skip_spaces (b' ' ∷ (to_string k ++ b' ' ∷ rest))
        ≡ skip_spaces (to_string k ++ b' ' ∷ rest) =
      unfold skip_spaces in refl in
    let fits : value_from 0 (to_string k) < 2 ^ 31 = omega arith in
    ap signed_int (
      first
      ∙ skip_spaces-no_space (to_string k) (b' ' ∷ rest)
          (nonempty (to_string k) (to_string-ne-nil k)) (digits-no_space (to_string k) digits))
    ∙ signed_int-digits (to_string k) rest digits (to_string-ne-nil k) fits
    ∙ ap (λ v. (pos v, b' ' ∷ rest)) value

pub next_word-answer :
    (rest : Bytes) → next_word (codes "HTTP/1.1 " ++ rest) ≡ (codes "HTTP/1.1", b' ' ∷ rest)
unfolding skip_spaces take_word
next_word-answer rest = refl

pub discard_line-append :
    (s rest : Bytes) → has_no 10 s ≡ true → discard_line (s ++ (line_end ++ rest)) ≡ rest
unfolding discard_line
discard_line-append [] rest h = refl
discard_line-append (c ∷ s) rest h = ground (arith, discard_line-append s rest)

pub status_text-one_line : (status : ℕ) → one_line (b' ' ∷ status_text status) ≡ true
status_text-one_line status = ground arith

-- The header lines.
abbrev pub server_headers : Bytes → ℕ → Map Bytes
server_headers content_type size =
    entry (codes "Connection") (codes "close") (
      entry (codes "Content-Length") (to_string size)
        (entry (codes "Content-Type") content_type []))

abbrev pub answer_lines : Bytes → ℕ → Bytes
answer_lines content_type size =
    codes "Content-Type: "
    ++ (content_type
        ++ (line_end
            ++ (codes "Content-Length: "
                ++ (to_string size
                    ++ (line_end ++ (codes "Connection: close" ++ (line_end ++ line_end)))))))

pub parse_headers-answer_lines :
    (content_type : Bytes) (size : ℕ)
    → one_line content_type ≡ true
    → parse_headers (answer_lines content_type size) ≡ server_headers content_type size
unfolding parse_headers
parse_headers-answer_lines content_type size h =
    let closed = codes "Connection" ++ (b':' ∷ b' ' ∷ (codes "close" ++ (line_end ++ line_end))) in
    let sized =
      codes "Content-Length" ++ (b':' ∷ b' ' ∷ (to_string size ++ (line_end ++ closed))) in
    parse_header_lines-split_on (codes "Content-Type") content_type sized [] refl refl refl h
    ∙ parse_header_lines-split_on (codes "Content-Length") (to_string size) closed _ refl refl refl
        (to_string-one_line size)
    ∙ parse_header_lines-split_on (codes "Connection") (codes "close") line_end _ refl refl refl
        refl
    ∙ parse_header_lines-end (server_headers content_type size)

pub content_length-server_headers :
    (content_type : Bytes) (size : ℕ)
    → size < u64_mod
    → content_length (server_headers content_type size) ≡ ok size
unfolding content_length insert beq blt lower_ascii skip_blanks
content_length-server_headers content_type size h = stoull-to_string size h

pub chunked-server_headers :
    (content_type : Bytes) (size : ℕ)
    → transfer_encoding_chunked (server_headers content_type size) ≡ false
unfolding transfer_encoding_chunked insert beq blt lower_ascii
chunked-server_headers content_type size = refl
