-- ===== src/Http/Connection/Uploaded.antt =====
-- A file from one peer to another over http.cpp: `post_file_raw` of the client and `handle_upload` of the server.
use mathlib.Core.List.{append_assoc}
use localsend_handheld.Prelude.{
  joined, ℕ, ◌+◌, ◌*◌, ◌≤◌, ◌<◌, ◌≡◌, ◌≢◌, refl, sym, ap, subst, ◌∙◌, true, false, ◌++◌, Option,
  none, some, leb, take, take-whole, arith, Bytes, codes, is_empty, length, length-append,
}
use localsend_handheld.Prelude.Int.{ℤ}
use localsend_handheld.Prelude.Map.{find}
use localsend_handheld.Prelude.Result.{Result, ok, err, out_of_fuel, ◌>>=◌}
use localsend_handheld.Json.{Numbers}
use localsend_handheld.Transfer.{u64_mod}
use localsend_handheld.Http.Stream.{Stream}
use localsend_handheld.Http.Stream.Body.{arrived}
use localsend_handheld.Http.Server.{HttpRequest, Server}
use localsend_handheld.Http.Server.Upload.{Accepted, accepted, check_upload, handle_upload}
use localsend_handheld.Http.Server.Stored.{Outcome, handle_upload-Outcome}
use localsend_handheld.Http.Server.Route.{
  Surroundings, Answer, without_device, is_call, route_is, handle_client, route_upload,
  route_upload_v1,
}
use localsend_handheld.Http.Headers.Lines.{one_line}
use localsend_handheld.Http.Headers.Request.{line_end, request_head, parse_request_headers}
use localsend_handheld.Http.Headers.RoundTrip.{IsWord, read_back}
use localsend_handheld.Http.Headers.Received.{IsRead, parse_request_headers-IsRead}
use localsend_handheld.Http.Client.Connect.{unconnected}
use localsend_handheld.Http.Client.Post.{Link, post_head, post_file_raw}
use localsend_handheld.Http.Client.Post.Rounds.{IsCalm}
use localsend_handheld.Http.Client.Post.Posted.{post_over-calm}
use localsend_handheld.Http.Connection.{with_readers, handle_parsed, handle_connection}
use localsend_handheld.Http.Connection.Offered.{trim_body-whole}

-- The upload's request is written as the other requests are, for a type that is given.
post_head-request_head :
    (path host : Bytes) (port : ℤ) (size : ℕ) (content_type : Bytes)
    → is_empty content_type ≡ false
    → post_head path host port size content_type
      ≡ request_head (codes "POST") path host port size content_type
unfolding post_head request_head
post_head-request_head path host port size content_type h =
    rw (h, append_assoc content_type line_end line_end) refl

-- What an upload leaves: the file of the session holds the content.
abbrev pub Stores : Bytes → Bytes → Result Answer → Type 0
Stores destination content (ok (response, s, device)) =
    (response.status ≡ 200) × (find destination s.disk ≡ some content)
Stores destination content (err what) = ⊥
Stores destination content out_of_fuel = ⊥

module _ (w : Surroundings) (content : Bytes) (request : HttpRequest) (s : Server) (a : Accepted)
    (can_open : w.can_open ≡ true) (writes_ok : w.writes_ok ≡ true)
    (call : is_call request (codes "POST") route_upload route_upload_v1 ≡ true)
    (checked : check_upload (route_is request route_upload) request s ≡ accepted a)
    (plain : request.chunked ≡ false) (sized : request.content_length ≡ length content) where
  uploads :
      (rest : Bytes) (stream : Stream)
      → handle_client w (some (request, rest)) stream s
        ≡ without_device
            (handle_upload w.now true true (route_is request route_upload) request rest stream s)
  unfolding handle_client
  uploads rest stream =
      let v2 = route_is request route_upload in
      let handled : handle_client w (some (request, rest)) stream s
          ≡ without_device (handle_upload w.now w.can_open w.writes_ok v2 request rest stream s) =
        rw (handle_client, call) refl in
      handled
      ∙ ap (λ b. without_device (handle_upload w.now b w.writes_ok v2 request rest stream s))
          can_open
      ∙ ap (λ b. without_device (handle_upload w.now true b v2 request rest stream s)) writes_ok

  stored :
      (rest : Bytes) (stream : Stream)
      → rest ++ arrived stream ≡ content
      → Outcome true a.destination content
          (handle_upload w.now true true (route_is request route_upload) request rest stream s)
  stored rest stream whole =
      let v2 = route_is request route_upload in
      let all = rest ++ arrived stream in
      let answer = handle_upload w.now true true v2 request rest stream s in
      let lengths : length all ≡ length content = ap length whole in
      let enough : leb request.content_length (length all) ≡ true =
        ground (arith, lengths, sized) in
      let taken : take request.content_length all ≡ content =
        ap (λ n. take n all) sized
        ∙ ap (take (length content)) whole
        ∙ take-whole (length content) content (omega arith) in
      subst (λ bytes. Outcome true a.destination bytes answer) taken
        (subst (λ b. Outcome b a.destination (take request.content_length all) answer) enough
          (handle_upload-Outcome w.now v2 request rest stream s a checked plain
            (omega (arith, length-append rest (arrived stream), lengths, sized))))

  parsed-Stores :
      (parsed : Result (Option (HttpRequest × Bytes × Stream)))
      → IsRead request content parsed
      → Stores a.destination content (parsed >>= λ p. ok (handle_parsed w p s))
  parsed-Stores (err what) h = elim h [ ]
  parsed-Stores out_of_fuel h = elim h [ ]
  parsed-Stores (ok none) h = elim h [ ]
  parsed-Stores (ok (some (found, initial_body, stream))) (same, (rest, cut_body, whole)) =
      let initial = cut_body ∙ trim_body-whole request rest content stream sized whole in
      let answer : handle_client w (some (found, initial_body)) stream s
          ≡ without_device (
              handle_upload w.now true true (route_is request route_upload) request rest stream s) =
        ap (λ r. handle_client w (some (r, initial_body)) stream s) same
        ∙ ap (λ b. handle_client w (some (request, b)) stream s) initial
        ∙ uploads rest stream in
      subst (λ r. Stores a.destination content (ok r)) (sym answer) (stored rest stream whole)

-- A file that a client uploads is stored by the server as it is, and answered with 200, however the bytes of the
-- request arrive: for an upload that is neither cancelled nor broken off, under a target that the server takes for an
-- upload and that passes its checks, when the destination can be opened and written; for a target that is not
-- empty and holds no white space, a host and a type without line ends, a type that is not empty, a size of 64
-- bits, and headers that are 4096 bytes below the limit of one MiB at least.
pub handle_connection-post_file_raw :
    (n : Numbers) (w : Surroundings) (link : Link) (path host : Bytes) (port : ℤ)
    (content_type content : Bytes) (stream : Stream) (s : Server) (a : Accepted)
    → ((what : Bytes) → link.connected ≢ unconnected what)
    → IsCalm link
    → link.cancelled_at_end ≡ false
    → arrived stream
      ≡ joined (post_file_raw link path host port (length content) content_type content).1.sent
    → IsWord path
    → one_line host ≡ true
    → one_line content_type ≡ true
    → is_empty content_type ≡ false
    → length content < u64_mod
    → length (post_head path host port (length content) content_type) + 4096 ≤ 1024 * 1024
    → is_call
        (read_back (codes "POST") path (length content))
        (codes "POST")
        route_upload
        route_upload_v1
      ≡ true
    → check_upload
        (route_is (read_back (codes "POST") path (length content)) route_upload)
        (read_back (codes "POST") path (length content))
        s
      ≡ accepted a
    → w.can_open ≡ true
    → w.writes_ok ≡ true
    → Stores a.destination content (handle_connection n w stream s)
unfolding handle_connection post_file_raw
handle_connection-post_file_raw n w link path host port content_type content stream s a there calm
      last bytes word h t typed fits small call checked o k =
    let size = length content in
    let head = post_head path host port size content_type in
    let same = post_head-request_head path host port size content_type typed in
    let text : arrived stream
        ≡ request_head (codes "POST") path host port size content_type ++ content =
      bytes
      ∙ (post_over-calm link head content link.connected there calm last).0
      ∙ ap (λ front. front ++ content) same in
    parsed-Stores (with_readers n w) content (read_back (codes "POST") path size) s a o k call
      checked refl refl (parse_request_headers stream)
      (parse_request_headers-IsRead (codes "POST") path host port size content_type content stream
        (refl, refl) word h t fits (subst (λ front. length front + 4096 ≤ 1024 * 1024) same small)
        text)
