-- ===== src/Http/Server/Changes.antt =====
-- What the handlers of http.cpp do to the sessions.
use localsend_handheld.Prelude.{
  joined, ℕ, ◌+◌, ◌≡◌, refl, sym, ◌∙◌, subst, Bool, true, false, not, ◌&&◌, ◌⊎◌, inl, inr, List, [],
  ◌∷◌, Option, none, some, arith, Bytes, codes, Bool-cases, Option-cases, ◌==◌, length,
}
use localsend_handheld.Prelude.Map.{Map, find, insert, alter}
use localsend_handheld.Protocol.{PrepareUploadRequestDto}
use localsend_handheld.Transfer.{TransferStore}
use localsend_handheld.Http.Stream.{Stream, read_remaining_body}
use localsend_handheld.Http.Chunked.{Received}
use localsend_handheld.Http.Server.{
  HttpRequest, HttpResponse, text_response, Session, Server, cancel_session, handle_prepare_upload,
  handle_cancel,
}
use localsend_handheld.Http.Server.Upload.{
  Accepted, Checked, rejected, accepted, check_upload, on_transfer, report_progress, failed_upload,
  finish_upload, judge_upload, store_upload, handle_upload, receive_body,
}
use localsend_handheld.Http.Server.Route.{
  Surroundings, Answer, unchanged, is_call, route_is, route, handle_client, route_info,
  route_info_v1, route_register, route_register_v1, route_prepare_upload, route_prepare_upload_v1,
  route_upload, route_upload_v1, route_cancel, route_cancel_v1,
}
use localsend_handheld.Http.Server.Sessions.{
  Change, same, prepared, cancelled, completed, complete_file,
}

pub on_transfer-sessions :
    (id : ℕ) (f : TransferStore → TransferStore) (s : Server)
    → (on_transfer id f s).sessions ≡ s.sessions
on_transfer-sessions id f s = ground arith

pub report_progress-sessions :
    (now id written : ℕ) (chunks : List Bytes) (s : Server)
    → (report_progress now id written chunks s).sessions ≡ s.sessions
unfolding report_progress
report_progress-sessions now id written [] s = refl
report_progress-sessions now id written (chunk ∷ chunks) s =
    report_progress-sessions now id (written + length chunk) chunks _ ∙ on_transfer-sessions id _ s

failed_upload-sessions :
    (now : ℕ) (a : Accepted) (status : ℕ) (message : Bytes) (s : Server)
    → (failed_upload now a status message s).1.sessions ≡ s.sessions
unfolding failed_upload
failed_upload-sessions now a status message s = on_transfer-sessions a.transfer_id _ _

finish_upload-Change :
    (now : ℕ) (a : Accepted) (s : Server) → Change s.sessions (finish_upload now a s).1.sessions
unfolding finish_upload
finish_upload-Change now a s =
    subst (λ m. Change s.sessions (alter (complete_file a.file_id) a.session_id m))
      (sym (on_transfer-sessions a.transfer_id _ s)) (completed a.session_id a.file_id)

pub kept : (before after : Map Session) → after ≡ before → Change before after
kept before after e = subst (Change before) (sym e) same

pub judge_upload-Change :
    (now : ℕ) (writes_ok : Bool) (request : HttpRequest) (a : Accepted) (received : Received)
    (s : Server)
    → Change s.sessions (judge_upload now writes_ok request a received s).1.sessions
unfolding judge_upload
judge_upload-Change now writes_ok request a received s =
    let failed = λ (status : ℕ) (message : Bytes).
      kept s.sessions _ (failed_upload-sessions now a status message s) in
    let written = length (joined received.writes) in
    elim (Bool-cases (not received.complete)) [
      | inl e ↦ rw e (failed 400 (codes "incomplete upload"))
      | inr e ↦ elim (Bool-cases (not (written == request.content_length) && not request.chunked)) [
        | inl e2 ↦ rw (e, e2) (failed 400 (codes "incomplete upload"))
        | inr e2 ↦ elim (Bool-cases (request.chunked && not (written == a.expected_size))) [
          | inl e3 ↦ rw (e, e2, e3) (failed 400 (codes "file size mismatch"))
          | inr e3 ↦ elim (Bool-cases (not writes_ok)) [
            | inl e4 ↦ rw (e, e2, e3, e4) (failed 500 (codes "failed to write destination"))
            | inr e4 ↦ rw (e, e2, e3, e4) (finish_upload-Change now a s)
          ]
        ]
      ]
    ]

store_upload-Change :
    (now : ℕ) (can_open writes_ok : Bool) (request : HttpRequest) (initial_body : Bytes)
    (stream : Stream) (a : Accepted) (s : Server)
    → Change s.sessions
        (store_upload now can_open writes_ok request initial_body stream a s).1.sessions
unfolding store_upload
store_upload-Change now false writes_ok request initial_body stream a s =
    kept s.sessions _ (on_transfer-sessions a.transfer_id _ s)
store_upload-Change now true writes_ok request initial_body stream a s =
    let received = receive_body request initial_body stream in
    let written = record s { disk = insert a.destination (joined received.writes) s.disk } in
    let told = report_progress now a.transfer_id 0 received.writes written in
    subst (λ m. Change m (judge_upload now writes_ok request a received told).1.sessions)
      (report_progress-sessions now a.transfer_id 0 received.writes written)
      (judge_upload-Change now writes_ok request a received told)

handle_upload-Change :
    (now : ℕ) (can_open writes_ok v2 : Bool) (request : HttpRequest) (initial_body : Bytes)
    (stream : Stream) (s : Server)
    → Change s.sessions
        (handle_upload now can_open writes_ok v2 request initial_body stream s).1.sessions
unfolding handle_upload
handle_upload-Change now can_open writes_ok v2 request initial_body stream s =
    judged (check_upload v2 request s)
  where
    judged :
        (c : Checked)
        → Change s.sessions
            (elim c as (λ c. HttpResponse × Server) [
              | rejected response ↦ (response, s)
              | accepted a ↦ store_upload now can_open writes_ok request initial_body stream a s
            ]).1.sessions
    judged (rejected response) = same
    judged (accepted a) = store_upload-Change now can_open writes_ok request initial_body stream a s

handle_prepare_upload-Change :
    (now : ℕ) (session_id : Bytes) (token : ℕ → Bytes) (v2 : Bool)
    (remote_ip peer_fingerprint : Bytes) (decoded : Bytes ⊎ PrepareUploadRequestDto) (s : Server)
    → Change s.sessions
        (handle_prepare_upload now session_id token v2 remote_ip peer_fingerprint decoded
          s).1.sessions
unfolding handle_prepare_upload
handle_prepare_upload-Change now session_id token v2 remote_ip peer_fingerprint (inl what) s = same
handle_prepare_upload-Change now session_id token v2 remote_ip peer_fingerprint (inr dto) s =
    prepared session_id _

handle_cancel-Change :
    (now : ℕ) (request : HttpRequest) (s : Server)
    → Change s.sessions (handle_cancel now request s).1.sessions
unfolding handle_cancel
handle_cancel-Change now request s = elim (Option-cases (find (codes "sessionId") request.query)) [
  | inl e ↦ kept s.sessions _ (ground arith)
  | inr (id, e) ↦ elim (Option-cases (find id s.sessions)) [
    | inl e2 ↦ kept s.sessions _ (ground arith)
    | inr (session, e2) ↦
        let result : (handle_cancel now request s).1.sessions ≡ alter cancel_session id s.sessions =
          ground arith in
        subst (Change s.sessions) (sym result) (cancelled id)
  ]
]

route-Change :
    (w : Surroundings) (request : HttpRequest) (s : Server)
    → Change s.sessions (route w request s).1.sessions
unfolding route
route-Change w request s =
    elim (Bool-cases (is_call request (codes "GET") route_info route_info_v1)) [
      | inl e ↦ rw e same
      | inr e ↦
          elim (Bool-cases (is_call request (codes "POST") route_register route_register_v1)) [
            | inl e2 ↦ rw (e, e2) same
            | inr e2 ↦
                elim (Bool-cases
                  (is_call request (codes "POST") route_prepare_upload route_prepare_upload_v1)) [
                    | inl e3 ↦
                        rw (e, e2, e3)
                          (handle_prepare_upload-Change w.now w.session_id w.token
                            (route_is request route_prepare_upload) w.remote_ip w.peer_fingerprint
                            (w.read_prepare_upload request.body) s)
                    | inr e3 ↦
                        elim (Bool-cases
                          (is_call request (codes "POST") route_upload route_upload_v1)) [
                            | inl e4 ↦ rw (e, e2, e3, e4) same
                            | inr e4 ↦
                                elim (Bool-cases
                                  (is_call request (codes "POST") route_cancel route_cancel_v1)) [
                                    | inl e5 ↦
                                        rw (e, e2, e3, e4, e5)
                                          (handle_cancel-Change w.now request s)
                                    | inr e5 ↦ rw (e, e2, e3, e4, e5) same
                                  ]
                          ]
                  ]
          ]
    ]

pub handle_client-Change :
    (w : Surroundings) (headers : Option (HttpRequest × Bytes)) (stream : Stream) (s : Server)
    → Change s.sessions (handle_client w headers stream s).1.sessions
unfolding handle_client
handle_client-Change w none stream s = same
handle_client-Change w (some (request, initial_body)) stream s =
    elim (Bool-cases (is_call request (codes "POST") route_upload route_upload_v1)) [
      | inl e ↦ rw e (
          handle_upload-Change w.now w.can_open w.writes_ok (route_is request route_upload) request
            initial_body stream s)
      | inr e ↦ rw e (routed (read_remaining_body initial_body request.content_length stream))
    ]
  where
    routed :
        (body : Option Bytes)
        → Change s.sessions
            (elim body as (λ b. Answer) [
              | none ↦ unchanged s (text_response 400 (codes "bad request body"))
              | some read ↦ route w (record request { body = read }) s
            ]).1.sessions
    routed none = same
    routed (some read) = route-Change w (record request { body = read }) s
