-- ===== src/Examples/Uploads.antt =====
-- Examples for the bodies of http.cpp that are sent: chunks, and the upload of a file.
use localsend_handheld.Prelude.{
  joined, ◌≡◌, ◌≤◌, ◌+◌, ◌*◌, refl, ap, ◌∙◌, true, false, [], ◌∷◌, ◌++◌, Bytes, codes, All, arith,
  length, beq, cut, split_on, List, blt,
}
use localsend_handheld.Prelude.Decimal.{to_string, int_to_string}
use localsend_handheld.Prelude.Hex.{hex_digit}
use localsend_handheld.Prelude.Int.{pos}
use localsend_handheld.Prelude.Map.{find, insert}
use localsend_handheld.Prelude.Result.{ok, ◌>>=◌}
use localsend_handheld.Http.Url.{parse_target, parse_query, parse_parts, parse_part, url_decode}
use localsend_handheld.Http.Stream.{Stream}
use localsend_handheld.Http.Stream.Body.{arrived}
use localsend_handheld.Http.Chunked.{hex_text, render_chunk, render_chunks, read_chunked_body}
use localsend_handheld.Http.Chunked.RoundTrip.{received, read_chunked_body-render_chunks}
use localsend_handheld.Http.Client.{HttpResult}
use localsend_handheld.Http.Client.Connect.{plain}
use localsend_handheld.Http.Client.Post.{
  Link, post_head, post_rounds, post_all, post_over, post_file_raw, answer_result,
}
use localsend_handheld.Http.Client.Post.Rounds.{IsCalm}
use localsend_handheld.Http.Client.Post.Posted.{post_over-calm, post_file_raw-whole}
use localsend_handheld.Http.Server.Upload.{
  accepted, check_upload, check_session, check_file, find_session,
}
use localsend_handheld.Http.Server.Route.{is_call, route_is, route_upload, route_upload_v1}
use localsend_handheld.Http.Headers.RoundTrip.{read_back}
use localsend_handheld.Http.Connection.{handle_connection}
use localsend_handheld.Http.Connection.Uploaded.{Stores, handle_connection-post_file_raw}
use localsend_handheld.Examples.Headers.{answer_stream, answer_read}
use localsend_handheld.Examples.Messages.{integers}
use localsend_handheld.Examples.Server.{one_session, photo_accepted, surroundings}

abbrev chunks : List Bytes
chunks = codes "hello, chunks of 17" ∷ codes "x" ∷ []

-- The end of the headers brings the start of the body, and the rest comes cut elsewhere.
abbrev body_stream : Stream
body_stream = codes "\nhello, chunks" ∷ codes " of 17\r\n1\r\nx\r\n0\r" ∷ codes "\n\r\n" ∷ []

chunks-arrived : codes "13\r" ++ arrived body_stream ≡ render_chunks chunks
unfolding render_chunks render_chunk hex_text hex_digit
chunks-arrived = refl

read_chunked_body-render_chunks_example :
    read_chunked_body (codes "13\r") body_stream ≡ received chunks
read_chunked_body-render_chunks_example =
    read_chunked_body-render_chunks chunks (codes "13\r") body_stream
      ((omega arith, omega arith), ((omega arith, omega arith), tt)) chunks-arrived

abbrev link : Link
link = record {
  connected = plain;
  writes = λ i. true;
  cancelled = λ i. false;
  cancelled_at_end = false;
  cancelled_behind_end = false;
  answer = answer_stream;
}

calm : IsCalm link
calm = record { goes_on = λ i. refl; writes = λ i. refl }

abbrev target : Bytes
target = codes "/api/localsend/v2/upload?fileId=f1&sessionId=s1&token=t1"

abbrev answer : HttpResult
answer = record { status = pos 404; body = codes "no"; error = [] }

link_answers :
    (post_file_raw link target (codes "h") (pos 80) 3 (codes "t") (codes "xyz")).0 ≡ ok answer
unfolding post_file_raw
link_answers =
    (post_over-calm link (post_head target (codes "h") (pos 80) 3 (codes "t")) (codes "xyz") plain
      (λ what e. cc) calm refl).1
    ∙ ap (λ r. r >>= λ p. ok (answer_result answer_stream p)) answer_read

post_file_raw-whole_example :
    (joined (post_file_raw link target (codes "h") (pos 80) 3 (codes "t") (codes "xyz")).1.sent
      ≡ post_head target (codes "h") (pos 80) 3 (codes "t") ++ codes "xyz")
    × All
        (λ bytes. bytes ≤ 3)
        (post_file_raw link target (codes "h") (pos 80) 3 (codes "t") (codes "xyz")).1.progress
post_file_raw-whole_example =
    post_file_raw-whole link target (codes "h") (pos 80) (codes "t") (codes "xyz") answer
      link_answers (λ e. cc)

abbrev upload_stream : Stream
upload_stream =
    codes "POST /api/localsend/v2/upload?fileId=f1&sessionId=s1&token=t1 HTTP/1.1\r\nHost: h"
    ∷ codes ":80\r\nConnection: close\r\nContent-Length: 3\r\nContent-Type: t\r\n\r\nx"
    ∷ codes "yz"
    ∷ []

upload_arrived :
    arrived upload_stream
    ≡ joined (post_file_raw link target (codes "h") (pos 80) 3 (codes "t") (codes "xyz")).1.sent
unfolding post_file_raw post_over post_all post_rounds post_head int_to_string to_string
upload_arrived = refl

upload_small : length (post_head target (codes "h") (pos 80) 3 (codes "t")) + 4096 ≤ 1024 * 1024
unfolding post_head int_to_string to_string
upload_small = omega arith

upload_called :
    is_call (read_back (codes "POST") target 3) (codes "POST") route_upload route_upload_v1 ≡ true
unfolding parse_target cut beq
upload_called = refl

upload_checked :
    check_upload
      (route_is (read_back (codes "POST") target 3) route_upload)
      (read_back (codes "POST") target 3)
      one_session
    ≡ accepted photo_accepted
unfolding check_upload check_session check_file find_session find beq parse_target cut parse_query
    split_on parse_parts parse_part insert url_decode blt
upload_checked = refl

handle_connection-post_file_raw_example :
    Stores
      (codes "inbox/a.png")
      (codes "xyz")
      (handle_connection integers surroundings upload_stream one_session)
handle_connection-post_file_raw_example =
    handle_connection-post_file_raw integers surroundings link target (codes "h") (pos 80)
      (codes "t") (codes "xyz") upload_stream one_session photo_accepted (λ what e. cc) calm refl
      upload_arrived (refl, refl) refl refl refl (omega arith) upload_small upload_called
      upload_checked refl refl
