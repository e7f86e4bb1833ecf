-- ===== src/Http/Headers/Response.antt =====
-- The text of an answer in http.cpp, as `handle_client` writes it and `parse_response` reads it.
use localsend_handheld.Prelude.{
  joined, ℕ, ◌-◌, ◌^◌, not, [], ◌∷◌, ◌++◌, Option, none, some, ltb, leb, ◌==◌, if◌then◌else◌, Bytes,
  codes, length,
}
use localsend_handheld.Prelude.Decimal.{to_string, is_digit}
use localsend_handheld.Prelude.Int.{ℤ, pos, negsuc}
use localsend_handheld.Prelude.Map.{Map}
use localsend_handheld.Prelude.Result.{Result, ok, ◌>>=◌}
use localsend_handheld.Http.Stream.{Stream, read_body}
use localsend_handheld.Http.Chunked.{read_chunked_body, Received}
use localsend_handheld.Http.Client.{HttpResult}
use localsend_handheld.Http.Headers.{
  recv_until_headers, parse_headers, content_length, transfer_encoding_chunked, next_word,
  skip_spaces, discard_line, decimal_digits, begins_digit,
}
use localsend_handheld.Http.Headers.Request.{line_end}

abbrev pub status_text : ℕ → Bytes
status_text status =
    if status == 200
    then codes "OK"
    else if status == 400
    then codes "Bad Request"
    else if status == 403
    then codes "Forbidden"
    else if status == 404
    then codes "Not Found"
    else if status == 409
    then codes "Conflict"
    else if status == 500
    then codes "Internal Server Error"
    else codes "OK"

unfoldable pub response_head : ℕ → Bytes → ℕ → Bytes
response_head status content_type size =
    codes "HTTP/1.1 "
    ++ (to_string status
        ++ (b' '
            ∷ (status_text status
                ++ (line_end
                    ++ (codes "Content-Type: "
                        ++ (content_type
                            ++ (line_end
                                ++ (codes "Content-Length: "
                                    ++ (to_string size
                                        ++ (line_end
                                            ++ (codes "Connection: close"
                                                ++ (line_end ++ line_end))))))))))))

unfoldable pub response_text : ℕ → Bytes → Bytes → Bytes
response_text status content_type body = response_head status content_type (length body) ++ body

unfoldable pub drop_digits : Bytes → Bytes
drop_digits [] = []
drop_digits (c ∷ s) = let rest = drop_digits s in if is_digit c then rest else c ∷ s

-- `stream >> number` for an `int`, behind spaces and a sign. Where it fails, nothing more is read from the stream.
unfoldable pub positive_int : Bytes → ℤ × Bytes
positive_int s =
    let value = decimal_digits 0 s in
    if not (begins_digit s)
    then (pos 0, [])
    else if ltb value (2 ^ 31)
    then (pos value, drop_digits s)
    else (pos (2 ^ 31 - 1), [])

abbrev negated : ℕ → ℤ
negated value = if value == 0 then pos 0 else negsuc (value - 1)

unfoldable pub negative_int : Bytes → ℤ × Bytes
negative_int s =
    let value = decimal_digits 0 s in
    if not (begins_digit s)
    then (pos 0, [])
    else if leb value (2 ^ 31)
    then (negated value, drop_digits s)
    else (negsuc (2 ^ 31 - 1), [])

unfoldable pub signed_int : Bytes → ℤ × Bytes
signed_int [] = (pos 0, [])
signed_int (c ∷ s) =
    if c == b'-' then negative_int s else if c == b'+' then positive_int s else positive_int (c ∷ s)

abbrev pub next_int : Bytes → ℤ × Bytes
next_int s = signed_int (skip_spaces s)

abbrev pub complete_body : Received → Option Bytes
complete_body received = if received.complete then some (joined received.writes) else none

abbrev pub with_body : ℤ → Option Bytes → Option HttpResult
with_body status none = none
with_body status (some body) = some (record { status = status; body = body; error = [] })

-- The body behind the headers.
abbrev pub response_body : Map Bytes → Bytes → Stream → Result (Option Bytes)
response_body headers initial_body stream =
    if transfer_encoding_chunked headers
    then ok (complete_body (read_chunked_body initial_body stream))
    else (do size ← content_length headers; ok (read_body initial_body size stream))

-- `none` stands for `false`; what the result holds then is left out.
unfoldable pub parse_response : Stream → Result (Option HttpResult)
parse_response stream = elim (recv_until_headers stream) [
  | none ↦ ok none
  | some (head, initial_body, rest) ↦
      let version = next_word head in
      let status = next_int version.1 in
      let headers = parse_headers (discard_line status.1) in
      do body ← response_body headers initial_body rest; ok (with_body status.0 body)
]
