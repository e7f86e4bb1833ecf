-- ===== src/Http/Headers.antt =====
-- The headers of requests and answers in src/core/http.cpp: `recv_until_headers`, `parse_headers`,
-- `content_length`, `transfer_encoding_chunked`, and the words of a first line.
pub mod Request
pub mod Lines
pub mod RoundTrip
pub mod Blank
pub mod Received
pub mod Response
pub mod AnswerLines
pub mod Answered
use mathlib.Core.Option
use localsend_handheld.Prelude.{
  ℕ, zero, suc, ◌+◌, ◌-◌, ◌*◌, ◌%◌, ◌^◌, Bool, true, false, not, ◌&&◌, ◌||◌, List, [], ◌∷◌, ◌++◌,
  Option, none, some, ltb, ◌==◌, if◌then◌else◌, Bytes, codes, is_empty, length, beq, lower_ascii,
  cut, split_on,
}
use localsend_handheld.Prelude.Decimal.{to_string, int_to_string, is_digit}
use localsend_handheld.Prelude.Int.{ℤ}
use localsend_handheld.Prelude.Map.{Map, insert}
use localsend_handheld.Prelude.Result.{Result, ok, err, ◌>>=◌}
use localsend_handheld.Transfer.{u64_mod}
use localsend_handheld.Http.Url.{is_space, parse_target}
use localsend_handheld.Http.Stream.{Stream, read}

-- `find("\r\n\r\n")`: the bytes up to its end, and those behind.
unfoldable pub find_blank : Bytes → Option (Bytes × Bytes)
find_blank (a ∷ b ∷ c ∷ d ∷ s) =
    let rest = Option.map (λ p. (a ∷ p.0, p.1)) (find_blank (b ∷ c ∷ d ∷ s)) in
    if a == 13 && b == 10 && c == 13 && d == 10 then some (codes "\r\n\r\n", s) else rest
find_blank s = none

-- The loop of `recv_until_headers`, on fuel: the headers, what came with them, and the stream.
unfoldable pub recv_rounds : ℕ → Bytes → Stream → Option (Bytes × Bytes × Stream)
recv_rounds zero buffer stream = Option.map (λ p. (p.0, p.1, stream)) (find_blank buffer)
recv_rounds (suc fuel) buffer stream = elim (find_blank buffer) [
  | some (head, rest) ↦ some (head, rest, stream)
  | none ↦ elim (read 4096 stream) [
    | none ↦ none
    | some (got, stream') ↦ elim (ltb (1024 * 1024) (length (buffer ++ got))) [
      | true ↦ none
      | false ↦ recv_rounds fuel (buffer ++ got) stream'
    ]
  ]
]

-- Each round adds a byte at least, and the buffer is bounded.
unfoldable pub recv_until_headers : Stream → Option (Bytes × Bytes × Stream)
recv_until_headers stream = recv_rounds (1024 * 1024 + 1) [] stream

-- `line.pop_back()`, if the line ends with a carriage return.
unfoldable pub pop_return : Bytes → Bytes
pop_return [] = []
pop_return (c ∷ s) = let rest = pop_return s in if is_empty s && c == 13 then [] else c ∷ rest

unfoldable pub skip_blanks : Bytes → Bytes
skip_blanks [] = []
skip_blanks (c ∷ s) = let rest = skip_blanks s in if c == b' ' then rest else c ∷ s

abbrev pub put_header : Option (Bytes × Bytes) → Map Bytes → Map Bytes
put_header none headers = headers
put_header (some (key, value)) headers = insert key (skip_blanks value) headers

-- The loop of `parse_headers` on the lines that `std::getline` gives.
unfoldable pub parse_header_lines : List Bytes → Map Bytes → Map Bytes
parse_header_lines [] headers = headers
parse_header_lines (line ∷ lines) headers =
    let rest = parse_header_lines lines (put_header (cut b':' (pop_return line)) headers) in
    if is_empty (pop_return line) then headers else rest

unfoldable pub parse_headers : Bytes → Map Bytes
parse_headers text = parse_header_lines (split_on 10 text) []

-- `std::stoull`, decimal: an exception without a digit, or beyond 64 bits.
unfoldable pub decimal_digits : ℕ → Bytes → ℕ
decimal_digits value [] = value
decimal_digits value (c ∷ s) =
    let more = decimal_digits (value * 10 + (c - b'0')) s in if is_digit c then more else value

abbrev pub begins_digit : Bytes → Bool
begins_digit [] = false
begins_digit (c ∷ s) = is_digit c

abbrev unsigned_text : Bytes → Result ℕ
unsigned_text s =
    let value = decimal_digits 0 s in
    if not (begins_digit s)
    then err (codes "stoull")
    else if ltb value u64_mod
    then ok value
    else err (codes "stoull")

abbrev signed_text : Bytes → Result ℕ
signed_text [] = err (codes "stoull")
signed_text (c ∷ s) =
    if c == b'-'
    then (do value ← unsigned_text s; ok ((u64_mod - value) % u64_mod))
    else if c == b'+'
    then unsigned_text s
    else unsigned_text (c ∷ s)

unfoldable pub stoull : Bytes → Result ℕ
stoull [] = err (codes "stoull")
stoull (c ∷ s) = let rest = stoull s in if is_space c then rest else signed_text (c ∷ s)

unfoldable pub content_length : Map Bytes → Result ℕ
content_length [] = ok 0
content_length ((key, value) ∷ headers) =
    let rest = content_length headers in
    if beq (lower_ascii key) (codes "content-length") then stoull value else rest

-- `find(word) != npos`
unfoldable pub starts_with : Bytes → Bytes → Bool
starts_with [] s = true
starts_with (c ∷ word) [] = false
starts_with (c ∷ word) (d ∷ s) = c == d && starts_with word s

unfoldable pub has_word : Bytes → Bytes → Bool
has_word word [] = is_empty word
has_word word (c ∷ s) = starts_with word (c ∷ s) || has_word word s

unfoldable pub transfer_encoding_chunked : Map Bytes → Bool
transfer_encoding_chunked [] = false
transfer_encoding_chunked ((key, value) ∷ headers) =
    (beq (lower_ascii key) (codes "transfer-encoding")
      && has_word (codes "chunked") (lower_ascii value))
    || transfer_encoding_chunked headers

-- `stream >> word`: spaces are skipped, and the bytes up to the next are taken.
unfoldable pub skip_spaces : Bytes → Bytes
skip_spaces [] = []
skip_spaces (c ∷ s) = let rest = skip_spaces s in if is_space c then rest else c ∷ s

unfoldable pub take_word : Bytes → Bytes × Bytes
take_word [] = ([], [])
take_word (c ∷ s) =
    let rest = take_word s in if is_space c then ([], c ∷ s) else (c ∷ rest.0, rest.1)

abbrev pub next_word : Bytes → Bytes × Bytes
next_word s = take_word (skip_spaces s)

-- `std::getline`, for what it leaves.
unfoldable pub discard_line : Bytes → Bytes
discard_line [] = []
discard_line (c ∷ s) = let rest = discard_line s in if c == 10 then s else rest
