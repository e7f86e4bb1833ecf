-- ===== src/Http/Headers/Answered.antt =====
-- What `parse_response` of http.cpp reads from what the server writes.
use mathlib.Core.List.{append_assoc}
use localsend_handheld.Prelude.{
  ℕ, ◌+◌, ◌*◌, ◌^◌, ◌≤◌, ◌<◌, ◌≡◌, refl, sym, ap, subst, ◌∙◌, true, [], ◌∷◌, ◌++◌, Option, none,
  some, arith, Bytes, codes, length, take-whole, has_no, has_no-append,
}
use localsend_handheld.Prelude.Decimal.{to_string}
use localsend_handheld.Prelude.Int.{pos}
use localsend_handheld.Prelude.Result.{Result, ok, ◌>>=◌}
use localsend_handheld.Transfer.{u64_mod}
use localsend_handheld.Http.Stream.{Stream, read_body}
use localsend_handheld.Http.Stream.Body.{arrived, body_of, read_remaining_body_lem}
use localsend_handheld.Http.Client.{HttpResult}
use localsend_handheld.Http.Headers.{
  find_blank, next_word, discard_line, parse_headers, recv_rounds, recv_until_headers,
}
use localsend_handheld.Http.Headers.Request.{line_end}
use localsend_handheld.Http.Headers.Lines.{one_line}
use localsend_handheld.Http.Headers.RoundTrip.{to_string-one_line}
use localsend_handheld.Http.Headers.Blank.{EndsHead, EndsHead-line, EndsHead-last, size_line-has_no}
use localsend_handheld.Http.Headers.Received.{Receives, recv_rounds-Receives}
use localsend_handheld.Http.Headers.Response.{
  status_text, response_head, response_text, next_int, response_body, with_body, parse_response,
}
use localsend_handheld.Http.Headers.AnswerLines.{
  next_int-to_string, next_word-answer, discard_line-append, status_text-one_line,
  parse_headers-answer_lines, content_length-server_headers, chunked-server_headers, server_headers,
  answer_lines,
}

status_line-has_no :
    (status : ℕ)
    → has_no 13 (codes "HTTP/1.1 " ++ (to_string status ++ (b' ' ∷ status_text status))) ≡ true
status_line-has_no status = ground (
  arith,
  has_no-append 13 (codes "HTTP/1.1 ") (to_string status ++ (b' ' ∷ status_text status)),
  has_no-append 13 (to_string status) (b' ' ∷ status_text status),
  to_string-one_line status,
  status_text-one_line status,
)

response_head-EndsHead :
    (status : ℕ) (content_type : Bytes) (size : ℕ)
    → one_line content_type ≡ true
    → EndsHead (response_head status content_type size)
unfolding response_head
response_head-EndsHead status content_type size t =
    let first = codes "HTTP/1.1 " ++ (to_string status ++ (b' ' ∷ status_text status)) in
    let typed = codes "Content-Type: " ++ content_type in
    let closed = codes "Connection: close" ++ (line_end ++ line_end) in
    let sized = (codes "Content-Length: " ++ to_string size) ++ (line_end ++ closed) in
    let whole : response_head status content_type size
        ≡ first ++ (line_end ++ (typed ++ (line_end ++ sized))) =
      simp append_assoc in
    let plain : has_no 13 typed ≡ true =
      ground (arith, has_no-append 13 (codes "Content-Type: ") content_type) in
    subst EndsHead (sym whole) (
      EndsHead-line first (typed ++ (line_end ++ sized)) (status_line-has_no status) refl (
        EndsHead-line typed sized plain refl (
          EndsHead-line (codes "Content-Length: " ++ to_string size) closed (size_line-has_no size)
            refl (EndsHead-last (codes "Connection: close") refl))))

-- What the first line and the other lines of the headers give.
parsed_head :
    (status : ℕ) (content_type : Bytes) (size : ℕ)
    → status < 2 ^ 31
    → one_line content_type ≡ true
    → (next_int (next_word (response_head status content_type size)).1).0 ≡ pos status
parsed_head status content_type size k t =
    let rest = status_text status ++ (line_end ++ answer_lines content_type size) in
    unfold response_head in
    ap (λ w. (next_int w.1).0) (next_word-answer (to_string status ++ (b' ' ∷ rest)))
    ∙ ap (λ p. p.0) (next_int-to_string status rest k)

parsed_lines :
    (status : ℕ) (content_type : Bytes) (size : ℕ)
    → status < 2 ^ 31
    → one_line content_type ≡ true
    → parse_headers
        (discard_line (next_int (next_word (response_head status content_type size)).1).1)
      ≡ server_headers content_type size
parsed_lines status content_type size k t =
    let lines = answer_lines content_type size in
    let rest = status_text status ++ (line_end ++ lines) in
    unfold response_head in
    ap (λ w. parse_headers (discard_line (next_int w.1).1))
      (next_word-answer (to_string status ++ (b' ' ∷ rest)))
    ∙ ap (λ p. parse_headers (discard_line p.1)) (next_int-to_string status rest k)
    ∙ ap parse_headers (
        discard_line-append (b' ' ∷ status_text status) lines
          (ground (arith, status_text-one_line status)))
    ∙ parse_headers-answer_lines content_type size t

read_body-whole :
    (initial_body : Bytes) (stream : Stream) (body : Bytes)
    → initial_body ++ arrived stream ≡ body
    → read_body initial_body (length body) stream ≡ some body
read_body-whole initial_body stream body e =
    (read_remaining_body_lem initial_body (length body) stream).1
    ∙ ap (body_of (length body)) e
    ∙ ground (arith, take-whole (length body) body)

response_body-whole :
    (content_type : Bytes) (initial_body : Bytes) (stream : Stream) (body : Bytes)
    → length body < u64_mod
    → initial_body ++ arrived stream ≡ body
    → response_body (server_headers content_type (length body)) initial_body stream ≡ ok (some body)
response_body-whole content_type initial_body stream body k e =
    let plain = chunked-server_headers content_type (length body) in
    let sized = content_length-server_headers content_type (length body) k in
    let read = read_body-whole initial_body stream body e in rw (plain, sized, read) refl

read_answer :
    (status : ℕ) (content_type body : Bytes) (received : Option (Bytes × Bytes × Stream))
    → status < 2 ^ 31
    → one_line content_type ≡ true
    → length body < u64_mod
    → Receives (response_head status content_type (length body)) body received
    → (elim received as (λ r. Result (Option HttpResult)) [
      | none ↦ ok none
      | some (head, initial_body, rest) ↦
          response_body
            (parse_headers (discard_line (next_int (next_word head).1).1))
            initial_body
            rest
          >>= λ body. ok (with_body (next_int (next_word head).1).0 body)
    ])
      ≡ ok (some (record { status = pos status; body = body; error = [] }))
read_answer status content_type body none k t s h = elim h [ ]
read_answer status content_type body (some (head, initial_body, rest)) k t s h =
    let code =
      ap (λ head. (next_int (next_word head).1).0) h.0
      ∙ parsed_head status content_type (length body) k t in
    let lines =
      ap (λ head. parse_headers (discard_line (next_int (next_word head).1).1)) h.0
      ∙ parsed_lines status content_type (length body) k t in
    let found =
      ap (λ headers. response_body headers initial_body rest) lines
      ∙ response_body-whole content_type initial_body rest body s h.1 in
    rw (found, code) refl

-- However the bytes of an answer of the server arrive, `parse_response` gives its status and its whole body: for a
-- status of 31 bits, a type without line ends, a body of a length of 64 bits, and headers that are 4096
-- bytes below the limit of one MiB at least.
pub parse_response-response_text :
    (status : ℕ) (content_type body : Bytes) (stream : Stream)
    → status < 2 ^ 31
    → one_line content_type ≡ true
    → length body < u64_mod
    → length (response_head status content_type (length body)) + 4096 ≤ 1024 * 1024
    → arrived stream ≡ response_text status content_type body
    → parse_response stream ≡ ok (some (record { status = pos status; body = body; error = [] }))
unfolding parse_response recv_until_headers
parse_response-response_text status content_type body stream k t s small all_bytes =
    let head = response_head status content_type (length body) in
    let text : response_text status content_type body ≡ head ++ body =
      unfold response_text in refl in
    let found : find_blank ([] ++ arrived stream) ≡ some (head, body) =
      ap find_blank (all_bytes ∙ text)
      ∙ response_head-EndsHead status content_type (length body) t body in
    read_answer status content_type body (recv_rounds (1024 * 1024 + 1) [] stream) k t s
      (recv_rounds-Receives (1024 * 1024 + 1) [] stream head body found small (omega arith))
