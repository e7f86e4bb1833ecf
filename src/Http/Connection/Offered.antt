-- ===== src/Http/Connection/Offered.antt =====
-- The server of http.cpp is asked to take files by a client: from the client's data to the server's sessions.
use localsend_handheld.Prelude.{
  ℕ, ◌+◌, ◌*◌, ◌≤◌, ◌<◌, ◌≡◌, refl, ap, ◌∙◌, true, ◌++◌, Option, none, some, inr, arith, Bytes,
  codes, length, length-append, take-whole, cut, beq,
}
use localsend_handheld.Prelude.Int.{ℤ}
use localsend_handheld.Prelude.Map.{IsOrdered, AllValues}
use localsend_handheld.Prelude.Result.{Result, ok, err, out_of_fuel, ◌>>=◌}
use localsend_handheld.Json.{Numbers}
use localsend_handheld.Protocol.{PrepareUploadRequestDto}
use localsend_handheld.Protocol.Dto.{request_members}
use localsend_handheld.Protocol.DtoRoundTrip.{IsInt}
use localsend_handheld.Protocol.Request.{arriving_request}
use localsend_handheld.Protocol.Sent.{write, IsSafe, IsSafeFile, read-request}
use localsend_handheld.Transfer.{u64_mod}
use localsend_handheld.Http.Url.{parse_target}
use localsend_handheld.Http.Stream.{Stream, read_remaining_body}
use localsend_handheld.Http.Stream.Body.{arrived, body_of, read_remaining_body_lem}
use localsend_handheld.Http.Server.{HttpRequest, Server, handle_prepare_upload}
use localsend_handheld.Http.Server.Route.{
  Surroundings, without_device, route, handle_client, route_prepare_upload,
}
use localsend_handheld.Http.Headers.Lines.{one_line}
use localsend_handheld.Http.Headers.Request.{
  request_head, request_text, parse_request_headers, trim_body,
}
use localsend_handheld.Http.Headers.RoundTrip.{read_back}
use localsend_handheld.Http.Headers.Received.{IsRead, parse_request_headers-IsRead}
use localsend_handheld.Http.Connection.{caught_text, with_readers, handle_parsed, handle_connection}

-- The body is what came with the headers and what is still to come.
read_whole :
    (rest body : Bytes) (stream : Stream)
    → rest ++ arrived stream ≡ body
    → read_remaining_body rest (length body) stream ≡ some body
read_whole rest body stream e =
    (read_remaining_body_lem rest (length body) stream).0
    ∙ ap (body_of (length body)) e
    ∙ ground (arith, take-whole (length body) body)

-- No more than the body comes with the headers.
pub trim_body-whole :
    (request : HttpRequest) (rest body : Bytes) (stream : Stream)
    → request.content_length ≡ length body
    → rest ++ arrived stream ≡ body
    → trim_body request rest ≡ rest
trim_body-whole request rest body stream c e =
    let longer : length rest ≤ length body =
      omega (arith, length-append rest (arrived stream), ap length e) in
    ground arith

-- The request of `send_files_http_detailed` as it is read.
abbrev offered : ℕ → HttpRequest
offered size = read_back (codes "POST") route_prepare_upload size

handle_client-offered :
    (w : Surroundings) (body : Bytes) (stream : Stream) (rest : Bytes) (s : Server)
    → read_remaining_body rest (length body) stream ≡ some body
    → handle_client w (some (offered (length body), rest)) stream s
      ≡ without_device (
          handle_prepare_upload w.now w.session_id w.token true w.remote_ip w.peer_fingerprint
            (w.read_prepare_upload body)
            s)
unfolding handle_client route parse_target cut beq
handle_client-offered w body stream rest s e = rw e refl

connected :
    (w : Surroundings) (body : Bytes) (s : Server)
    (parsed : Result (Option (HttpRequest × Bytes × Stream)))
    → IsRead (offered (length body)) body parsed
    → (parsed >>= λ p. ok (handle_parsed w p s))
      ≡ ok (
          without_device (
            handle_prepare_upload w.now w.session_id w.token true w.remote_ip w.peer_fingerprint
              (w.read_prepare_upload body)
              s))
connected w body s (err what) h = elim h [ ]
connected w body s out_of_fuel h = elim h [ ]
connected w body s (ok none) h = elim h [ ]
connected w body s (ok (some (found, initial_body, stream))) (same, (rest, cut_body, whole)) =
    let initial = cut_body ∙ trim_body-whole (offered (length body)) rest body stream refl whole in
    ap (λ request. ok (handle_client w (some (request, initial_body)) stream s)) same
    ∙ ap (λ first. ok (handle_client w (some (offered (length body), first)) stream s)) initial
    ∙ ap ok (handle_client-offered w body stream rest s (read_whole rest body stream whole))

-- A client that asks to send files is understood, however the bytes of its request arrive: the server does what
-- `handle_prepare_upload` does for the sender and the files of the client's data, each file with its media
-- type filled in. For a port that is an `int`, sizes of 64 bits, files in the order of their keys, a port
-- and sizes that survive as JSON numbers, a host and a type without line ends, a body of a length of 64
-- bits, and headers that are 4096 bytes below the limit of one MiB at least.
pub handle_connection-request :
    (n : Numbers) (w : Surroundings) (dto : PrepareUploadRequestDto) (host : Bytes) (port : ℤ)
    (content_type : Bytes) (stream : Stream) (s : Server)
    → IsInt dto.info.port
    → IsSafe n dto.info.port
    → IsOrdered dto.files
    → AllValues (IsSafeFile n) dto.files
    → one_line host ≡ true
    → one_line content_type ≡ true
    → length (write n (request_members n dto)) < u64_mod
    → length (
          request_head
            (codes "POST")
            route_prepare_upload
            host
            port
            (length (write n (request_members n dto)))
            content_type)
        + 4096
      ≤ 1024 * 1024
    → arrived stream
      ≡ request_text
          (codes "POST")
          route_prepare_upload
          host
          port
          content_type
          (write n (request_members n dto))
    → handle_connection n w stream s
      ≡ ok (
          without_device (
            handle_prepare_upload w.now w.session_id w.token true w.remote_ip w.peer_fingerprint
              (inr (arriving_request n dto))
              s))
unfolding handle_connection
handle_connection-request n w dto host port content_type stream s i k o p h t fits small all_bytes =
    let body = write n (request_members n dto) in
    let text : arrived stream
        ≡ request_head (codes "POST") route_prepare_upload host port (length body) content_type
          ++ body =
      all_bytes ∙ (unfold request_text in refl) in
    let parsed =
      parse_request_headers-IsRead (codes "POST") route_prepare_upload host port (length body)
        content_type body stream (refl, refl) (refl, refl) h t fits small text in
    let decoded = read-request n dto i k o p in
    connected (with_readers n w) body s (parse_request_headers stream) parsed
    ∙ ap
        (λ r. ok (
          without_device (
            handle_prepare_upload w.now w.session_id w.token true w.remote_ip w.peer_fingerprint
              (caught_text r) s)))
        decoded
