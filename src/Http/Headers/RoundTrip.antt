-- ===== src/Http/Headers/RoundTrip.antt =====
-- What `parse_request_headers` of http.cpp reads from what the client writes.
use mathlib.Core.List.{append_assoc}
use localsend_handheld.Prelude.{
  ℕ, ◌<◌, ◌≡◌, refl, ap, ◌∙◌, true, false, [], ◌∷◌, ◌++◌, arith, Bytes, codes, is_empty, has_no,
  has_no-append, split_on, beq, blt, lower_ascii,
}
use localsend_handheld.Prelude.Decimal.{to_string, int_to_string, lacks, int_to_string-lacks}
use localsend_handheld.Prelude.Int.{ℤ, pos}
use localsend_handheld.Prelude.Map.{Map, insert}
use localsend_handheld.Prelude.Result.{ok}
use localsend_handheld.Transfer.{u64_mod}
use localsend_handheld.Http.Url.{parse_target}
use localsend_handheld.Http.Server.{HttpRequest}
use localsend_handheld.Http.Headers.{
  skip_blanks, parse_header_lines, parse_headers, content_length, transfer_encoding_chunked,
  discard_line,
}
use localsend_handheld.Http.Headers.Request.{line_end, type_line, request_head, parse_head}
use localsend_handheld.Http.Headers.Lines.{
  no_space, one_line, next_word-append, next_word-behind, next_word-version, stoull-to_string,
  parse_header_lines-split_on, parse_header_lines-end,
}

lacks-has_no : (c : ℕ) (s : Bytes) → lacks c s ≡ true → has_no c s ≡ true
lacks-has_no c [] h = refl
lacks-has_no c (x ∷ s) h = ground (arith, lacks-has_no c s)

pub int_to_string-one_line : (x : ℤ) → one_line (int_to_string x) ≡ true
int_to_string-one_line x = ground (
  arith,
  lacks-has_no 13 (int_to_string x) (int_to_string-lacks 13 x refl refl),
  lacks-has_no 10 (int_to_string x) (int_to_string-lacks 10 x refl refl),
)

pub to_string-one_line : (k : ℕ) → one_line (to_string k) ≡ true
unfolding int_to_string
to_string-one_line k = int_to_string-one_line (pos k)

one_line-append : (s t : Bytes) → one_line s ≡ true → one_line t ≡ true → one_line (s ++ t) ≡ true
one_line-append s t h k = ground (arith, has_no-append 13 s t, has_no-append 10 s t)

-- The value of the `Host` line.
abbrev authority : Bytes → ℤ → Bytes
authority host port = host ++ (b':' ∷ int_to_string port)

abbrev pub entry : Bytes → Bytes → Map Bytes → Map Bytes
entry key value headers = insert key (skip_blanks (b' ' ∷ value)) headers

abbrev plain_headers : Bytes → ℤ → ℕ → Map Bytes
plain_headers host port size =
    entry (codes "Content-Length") (to_string size)
      (entry (codes "Connection") (codes "close") (entry (codes "Host") (authority host port) []))

abbrev client_headers : Bytes → ℤ → ℕ → Bytes → Map Bytes
client_headers host port size [] = plain_headers host port size
client_headers host port size (c ∷ content_type) =
    entry (codes "Content-Type") (c ∷ content_type) (plain_headers host port size)

type_line-parsed :
    (host : Bytes) (port : ℤ) (size : ℕ) (content_type : Bytes)
    → one_line content_type ≡ true
    → parse_header_lines
        (split_on 10 (type_line content_type ++ line_end))
        (plain_headers host port size)
      ≡ client_headers host port size content_type
type_line-parsed host port size [] h = parse_header_lines-end (plain_headers host port size)
type_line-parsed host port size (c ∷ content_type) h =
    let whole : type_line (c ∷ content_type) ++ line_end
        ≡ codes "Content-Type" ++ (b':' ∷ b' ' ∷ ((c ∷ content_type) ++ (line_end ++ line_end))) =
      simp append_assoc in
    ap (λ text. parse_header_lines (split_on 10 text) (plain_headers host port size)) whole
    ∙ parse_header_lines-split_on (codes "Content-Type") (c ∷ content_type) line_end
        (plain_headers host port size) refl refl refl h
    ∙ parse_header_lines-end (client_headers host port size (c ∷ content_type))

-- The header lines, from `Host` on.
abbrev lines_text : Bytes → ℤ → ℕ → Bytes → Bytes
lines_text host port size content_type =
    codes "Host: "
    ++ (host
        ++ (b':'
            ∷ (int_to_string port
                ++ (line_end
                    ++ (codes "Connection: close"
                        ++ (line_end
                            ++ (codes "Content-Length: "
                                ++ (to_string size
                                    ++ (line_end ++ (type_line content_type ++ line_end))))))))))

parse_headers-lines_text :
    (host : Bytes) (port : ℤ) (size : ℕ) (content_type : Bytes)
    → one_line host ≡ true
    → one_line content_type ≡ true
    → parse_headers (lines_text host port size content_type)
      ≡ client_headers host port size content_type
unfolding parse_headers
parse_headers-lines_text host port size content_type h k =
    let typed = type_line content_type ++ line_end in
    let sized = codes "Content-Length" ++ (b':' ∷ b' ' ∷ (to_string size ++ (line_end ++ typed))) in
    let closed = codes "Connection" ++ (b':' ∷ b' ' ∷ (codes "close" ++ (line_end ++ sized))) in
    let whole : lines_text host port size content_type
        ≡ codes "Host" ++ (b':' ∷ b' ' ∷ (authority host port ++ (line_end ++ closed))) =
      simp append_assoc in
    let value =
      one_line-append host (b':' ∷ int_to_string port) h
        (one_line-append (b':' ∷ []) (int_to_string port) refl (int_to_string-one_line port)) in
    ap (λ text. parse_header_lines (split_on 10 text) []) whole
    ∙ parse_header_lines-split_on (codes "Host") (authority host port) closed [] refl refl refl
        value
    ∙ parse_header_lines-split_on (codes "Connection") (codes "close") sized _ refl refl refl refl
    ∙ parse_header_lines-split_on (codes "Content-Length") (to_string size) typed _ refl refl refl
        (to_string-one_line size)
    ∙ type_line-parsed host port size content_type k

content_length-client_headers :
    (host : Bytes) (port : ℤ) (size : ℕ) (content_type : Bytes)
    → size < u64_mod
    → content_length (client_headers host port size content_type) ≡ ok size
unfolding content_length insert beq blt lower_ascii skip_blanks
content_length-client_headers host port size [] h = stoull-to_string size h
content_length-client_headers host port size (c ∷ content_type) h = stoull-to_string size h

chunked-client_headers :
    (host : Bytes) (port : ℤ) (size : ℕ) (content_type : Bytes)
    → transfer_encoding_chunked (client_headers host port size content_type) ≡ false
unfolding transfer_encoding_chunked insert beq blt lower_ascii
chunked-client_headers host port size [] = refl
chunked-client_headers host port size (c ∷ content_type) = refl

-- A method or a target: some bytes without white space.
abbrev pub IsWord : Bytes → Type 0
IsWord s = (is_empty s ≡ false) × (no_space s ≡ true)

-- The request as it is read.
abbrev pub read_back : Bytes → Bytes → ℕ → HttpRequest
read_back method path size = record {
  method = method;
  path = (parse_target path).0;
  query = (parse_target path).1;
  body = [];
  content_length = size;
  chunked = false;
}

discard_line-line_end : (rest : Bytes) → discard_line (line_end ++ rest) ≡ rest
unfolding discard_line
discard_line-line_end rest = refl

pub parse_head-request_head :
    (method path host : Bytes) (port : ℤ) (size : ℕ) (content_type : Bytes)
    → IsWord method
    → IsWord path
    → one_line host ≡ true
    → one_line content_type ≡ true
    → size < u64_mod
    → parse_head (request_head method path host port size content_type)
      ≡ ok (read_back method path size)
unfolding parse_head request_head
parse_head-request_head method path host port size content_type m p h t k =
    let lines = lines_text host port size content_type in
    let ended = codes " HTTP/1.1" ++ (line_end ++ lines) in
    let w1 = next_word-append method (path ++ ended) m.0 m.1 in
    let w2 = next_word-behind path (codes "HTTP/1.1" ++ (line_end ++ lines)) p.0 p.1 in
    let w3 = next_word-version lines in
    let headers = parse_headers-lines_text host port size content_type h t in
    let sized = content_length-client_headers host port size content_type k in
    let plain = chunked-client_headers host port size content_type in
    rw (w1, w2, w3, discard_line-line_end lines, headers, sized, plain) refl
