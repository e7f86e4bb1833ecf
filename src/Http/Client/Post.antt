-- ===== src/Http/Client/Post.antt =====
-- `post_file_raw` of http.cpp: the upload of one file. The outcomes of the connection, of each write and of each
-- call of `should_cancel` are arguments, as is what the peer sends back. The content is what the file gives before its
-- end or an error of reading, which both end the loop; the size that is announced is another argument.
pub mod Rounds
pub mod Posted
use localsend_handheld.Prelude.{
  ℕ, zero, suc, ◌+◌, Bool, true, false, not, ◌&&◌, List, [], ◌∷◌, ◌++◌, Option, none, some, ltb,
  if◌then◌else◌, Bytes, codes, is_empty, length, take, drop,
}
use localsend_handheld.Prelude.Decimal.{to_string, int_to_string}
use localsend_handheld.Prelude.Int.{ℤ, pos}
use localsend_handheld.Prelude.Map.{Map}
use localsend_handheld.Prelude.Result.{Result, ok, ◌>>=◌}
use localsend_handheld.Http.Stream.{Stream, transfer_buffer_size}
use localsend_handheld.Http.Stream.Body.{arrived}
use localsend_handheld.Http.Client.{HttpResult}
use localsend_handheld.Http.Client.Connect.{Connected, unconnected, plain, over_tls}
use localsend_handheld.Http.Headers.{
  recv_until_headers, parse_headers, transfer_encoding_chunked, next_word, discard_line,
}
use localsend_handheld.Http.Headers.Request.{line_end}
use localsend_handheld.Http.Headers.Response.{next_int, parse_response}

-- The connection; the results of `write_all`, that of the headers first; the calls of `should_cancel`, those of the
-- rounds of the loop and the one or two behind it; and the bytes of the answer.
pub record Link : Type 0 where
  pub connected : Connected
  pub writes : ℕ → Bool
  pub cancelled : ℕ → Bool
  pub cancelled_at_end : Bool
  pub cancelled_behind_end : Bool
  pub answer : Stream

unfoldable pub post_head : Bytes → Bytes → ℤ → ℕ → Bytes → Bytes
post_head path host port size content_type =
    codes "POST "
    ++ (path
        ++ (codes " HTTP/1.1"
            ++ (line_end
                ++ (codes "Host: "
                    ++ (host
                        ++ (b':'
                            ∷ (int_to_string port
                                ++ (line_end
                                    ++ (codes "Connection: close"
                                        ++ (line_end
                                            ++ (codes "Content-Length: "
                                                ++ (to_string size
                                                    ++ (line_end
                                                        ++ (codes "Content-Type: "
                                                            ++ (content_type
                                                            ++ (line_end ++ line_end))))))))))))))))

-- `ok`, `result.body`, the complete writes and the calls of `progress`.
pub record Posting : Type 0 where
  pub is_ok : Bool
  pub body : Bytes
  pub sent : List Bytes
  pub progress : List ℕ

-- The state behind a write of `got` that succeeds.
abbrev pub after_write : Bytes → ℕ → Posting → Posting
after_write got uploaded p = record p {
  sent = p.sent ++ (got ∷ []);
  progress = p.progress ++ (uploaded ∷ []);
}

-- Round `i` of the loop and those behind it, on fuel: `rest` is what is still to be read from the file. A read that
-- gives less than the buffer takes has met the end of the file.
unfoldable pub post_rounds : Link → ℕ → ℕ → Bytes → ℕ → Posting → Posting
post_rounds link zero i rest uploaded p = p
post_rounds link (suc fuel) i rest uploaded p = elim (link.cancelled i) [
  | true ↦ record p { is_ok = false; body = codes "cancelled" }
  | false ↦
      let got = take transfer_buffer_size rest in
      elim (is_empty got) [
        | true ↦ p
        | false ↦ elim (link.writes (suc i)) [
          | false ↦ record p { is_ok = false }
          | true ↦
              let total = uploaded + length got in
              elim (ltb (length got) transfer_buffer_size) [
                | true ↦ after_write got total p
                | false ↦
                    post_rounds link fuel (i + 1) (drop transfer_buffer_size rest) total
                      (after_write got total p)
              ]
        ]
      ]
]

-- The headers, and the loop if they were written: each round but the last takes a byte at least.
unfoldable pub post_all : Link → Bytes → Bytes → Posting
post_all link head content =
    if link.writes 0
    then post_rounds link (suc (length content)) 0 content 0
        (record { is_ok = true; body = []; sent = head ∷ []; progress = [] })
    else record { is_ok = false; body = []; sent = []; progress = [] }

-- What `parse_response` leaves in the result when it answers `false`: the status, if the headers arrived, and of a
-- body with a length what came before the end.
abbrev pub partial_result : Stream → HttpResult
partial_result answer = elim (recv_until_headers answer) [
  | none ↦ record { status = pos 0; body = []; error = codes "HTTP upload response read failed" }
  | some (head, initial_body, rest) ↦
      let version = next_word head in
      let status = next_int version.1 in
      record {
        status = status.0;
        body =
            if transfer_encoding_chunked (parse_headers (discard_line status.1))
            then []
            else initial_body ++ arrived rest;
        error = codes "HTTP upload response read failed";
      }
]

abbrev pub answer_result : Stream → Option HttpResult → HttpResult
answer_result answer (some result) = result
answer_result answer none = partial_result answer

-- The tests behind the loop.
unfoldable pub post_result : Link → Posting → Result HttpResult
post_result link p =
    if p.is_ok && not link.cancelled_at_end
    then (do result ← parse_response link.answer; ok (answer_result link.answer result))
    else if link.cancelled_behind_end
    then ok (record { status = pos 0; body = codes "cancelled"; error = [] })
    else ok (record { status = pos 0; body = p.body; error = codes "HTTP upload write failed" })

-- The result, the writes and the progress: nothing is written if there is no connection.
unfoldable pub post_over : Connected → Link → Bytes → Bytes → Result HttpResult × Posting
post_over (unconnected what) link head content = (
  ok (record { status = pos 0; body = []; error = what }),
  record { is_ok = false; body = []; sent = []; progress = [] },
)
post_over plain link head content = let p = post_all link head content in (post_result link p, p)
post_over (over_tls proved) link head content =
    let p = post_all link head content in (post_result link p, p)

unfoldable pub post_file_raw :
    Link → Bytes → Bytes → ℤ → ℕ → Bytes → Bytes → Result HttpResult × Posting
post_file_raw link path host port size content_type content =
    post_over link.connected link (post_head path host port size content_type) content
