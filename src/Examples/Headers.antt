-- ===== src/Examples/Headers.antt =====
-- Examples for the headers of http.cpp.
use localsend_handheld.Prelude.{
  ◌≡◌, ◌≤◌, ◌+◌, ◌*◌, refl, [], ◌∷◌, ◌++◌, some, Bytes, codes, arith, length,
}
use localsend_handheld.Prelude.Decimal.{to_string, int_to_string}
use localsend_handheld.Prelude.Int.{pos}
use localsend_handheld.Prelude.Result.{ok}
use localsend_handheld.Http.Stream.{Stream}
use localsend_handheld.Http.Stream.Body.{arrived}
use localsend_handheld.Http.Headers.Request.{request_head, parse_request_headers}
use localsend_handheld.Http.Headers.RoundTrip.{read_back}
use localsend_handheld.Http.Headers.Received.{IsRead, parse_request_headers-IsRead}
use localsend_handheld.Http.Headers.Response.{response_head, response_text, parse_response}
use localsend_handheld.Http.Headers.Answered.{parse_response-response_text}

abbrev request_stream : Stream
request_stream =
    codes "POST /send?fileId=0 HTTP/1.1\r\nHost: h:80\r\nConn"
    ∷ codes "ection: close\r\nContent-Length: 3\r\nContent-Type: t\r\n\r\na"
    ∷ codes "bc"
    ∷ []

abbrev example_head : Bytes
example_head =
    request_head (codes "POST") (codes "/send?fileId=0") (codes "h") (pos 80) 3 (codes "t")

request_arrived : arrived request_stream ≡ example_head ++ codes "abc"
unfolding request_head int_to_string to_string
request_arrived = refl

request_small : length example_head + 4096 ≤ 1024 * 1024
unfolding request_head int_to_string to_string
request_small = omega arith

parse_request_headers-IsRead_example :
    IsRead
      (read_back (codes "POST") (codes "/send?fileId=0") 3)
      (codes "abc")
      (parse_request_headers request_stream)
parse_request_headers-IsRead_example =
    parse_request_headers-IsRead (codes "POST") (codes "/send?fileId=0") (codes "h") (pos 80) 3
      (codes "t") (codes "abc") request_stream (refl, refl) (refl, refl) refl refl (omega arith)
      request_small request_arrived

abbrev pub answer_stream : Stream
answer_stream =
    codes "HTTP/1.1 404 Not Found\r\nContent-Type: text/pl"
    ∷ codes "ain\r\nContent-Length: 2\r\nConnection: close\r\n\r\nn"
    ∷ codes "o"
    ∷ []

answer_arrived : arrived answer_stream ≡ response_text 404 (codes "text/plain") (codes "no")
unfolding response_text response_head to_string
answer_arrived = refl

answer_small : length (response_head 404 (codes "text/plain") 2) + 4096 ≤ 1024 * 1024
unfolding response_head to_string
answer_small = omega arith

parse_response-response_text_example :
    parse_response answer_stream
    ≡ ok (some (record { status = pos 404; body = codes "no"; error = [] }))
parse_response-response_text_example =
    parse_response-response_text 404 (codes "text/plain") (codes "no") answer_stream (omega arith)
      refl (omega arith) answer_small answer_arrived

pub answer_read :
    parse_response answer_stream
    ≡ ok (some (record { status = pos 404; body = codes "no"; error = [] }))
answer_read =
    parse_response-response_text 404 (codes "text/plain") (codes "no") answer_stream (omega arith)
      refl (omega arith) answer_small answer_arrived
