-- ===== src/Http/Headers/Request.antt =====
-- The text of a request in http.cpp, as `request_raw` and `post_file_raw` write it and `parse_request_headers` reads
-- it.
use localsend_handheld.Prelude.{
  ℕ, not, ◌&&◌, [], ◌∷◌, ◌++◌, Option, none, some, ltb, if◌then◌else◌, Bytes, codes, is_empty,
  length, take,
}
use localsend_handheld.Prelude.Decimal.{to_string, int_to_string}
use localsend_handheld.Prelude.Int.{ℤ}
use localsend_handheld.Prelude.Result.{Result, ok, ◌>>=◌}
use localsend_handheld.Http.Url.{parse_target}
use localsend_handheld.Http.Stream.{Stream}
use localsend_handheld.Http.Server.{HttpRequest}
use localsend_handheld.Http.Headers.{
  recv_until_headers, parse_headers, content_length, transfer_encoding_chunked, next_word,
  discard_line,
}

abbrev pub line_end : Bytes
line_end = 13 ∷ 10 ∷ []

-- The content type line, for a type that is given.
abbrev pub type_line : Bytes → Bytes
type_line content_type =
    if is_empty content_type then [] else codes "Content-Type: " ++ (content_type ++ line_end)

-- The header lines of `request_raw` for a body of `size` bytes; `post_file_raw` writes the same, with its type
-- in any case.
unfoldable pub request_head : Bytes → Bytes → Bytes → ℤ → ℕ → Bytes → Bytes
request_head method path host port size content_type =
    method
    ++ (b' '
        ∷ (path
            ++ (codes " HTTP/1.1"
                ++ (line_end
                    ++ (codes "Host: "
                        ++ (host
                            ++ (b':'
                                ∷ (int_to_string port
                                    ++ (line_end
                                        ++ (codes "Connection: close"
                                            ++ (line_end
                                                ++ (codes "Content-Length: "
                                                    ++ (to_string size
                                                        ++ (line_end
                                                            ++ (type_line content_type
                                                            ++ line_end)))))))))))))))

unfoldable pub request_text : Bytes → Bytes → Bytes → ℤ → Bytes → Bytes → Bytes
request_text method path host port content_type body =
    request_head method path host port (length body) content_type ++ body

-- What `parse_request_headers` makes of the bytes up to the blank line; `content_length` may throw.
unfoldable pub parse_head : Bytes → Result HttpRequest
parse_head head =
    let method = next_word head in
    let target = next_word method.1 in
    let version = next_word target.1 in
    let headers = parse_headers (discard_line version.1) in
    let where_to = parse_target target.0 in
    do
      size ← content_length headers
      ok (record {
        method = method.0;
        path = where_to.0;
        query = where_to.1;
        body = [];
        content_length = size;
        chunked = transfer_encoding_chunked headers;
      })

abbrev pub trim_body : HttpRequest → Bytes → Bytes
trim_body request initial_body =
    if not request.chunked && ltb request.content_length (length initial_body)
    then take request.content_length initial_body
    else initial_body

-- `none` stands for `false`; the last result is what the stream still holds.
unfoldable pub parse_request_headers : Stream → Result (Option (HttpRequest × Bytes × Stream))
parse_request_headers stream = elim (recv_until_headers stream) [
  | none ↦ ok none
  | some (head, initial_body, rest) ↦ do
    request ← parse_head head
    ok (some (request, trim_body request initial_body, rest))
]
