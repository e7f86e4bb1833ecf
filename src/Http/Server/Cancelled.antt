-- ===== src/Http/Server/Cancelled.antt =====
-- Uploads to a session of http.cpp that was cancelled.
use localsend_handheld.Prelude.{
  ℕ, ◌≡◌, refl, sym, subst, Bool, true, List, [], ◌∷◌, some, arith, Bytes, codes, beq_iff,
}
use localsend_handheld.Prelude.Map.{find, alter, find-alter, IsOrdered}
use localsend_handheld.Prelude.Map.Order.{IsOrdered-alter}
use localsend_handheld.Http.Stream.{Stream}
use localsend_handheld.Http.Server.{
  HttpRequest, text_response, Session, Server, cancel_session, handle_cancel,
}
use localsend_handheld.Http.Server.Upload.{
  rejected, check_upload, check_session, find_session, handle_upload,
}
use localsend_handheld.Http.Server.Route.{Connection, serve}
use localsend_handheld.Http.Server.Sessions.{IsCancelled, Change-IsCancelled}
use localsend_handheld.Http.Server.Changes.{handle_client-Change}

serve-IsCancelled :
    (connections : List Connection) (id : Bytes) (s : Server)
    → IsCancelled id s.sessions
    → IsCancelled id (serve connections s).sessions
unfolding serve
serve-IsCancelled [] id s h = h
serve-IsCancelled (c ∷ cs) id s h = serve-IsCancelled cs id _ (
    Change-IsCancelled id s.sessions _ (handle_client-Change c.surroundings c.headers c.stream s) h)

pub handle_cancel-IsCancelled :
    (now : ℕ) (request : HttpRequest) (id : Bytes) (session : Session) (s : Server)
    → IsOrdered s.sessions
    → find (codes "sessionId") request.query ≡ some id
    → find id s.sessions ≡ some session
    → IsCancelled id (handle_cancel now request s).1.sessions
unfolding handle_cancel
handle_cancel-IsCancelled now request id session s h q e =
    let result : (handle_cancel now request s).1.sessions ≡ alter cancel_session id s.sessions =
      ground arith in
    subst (IsCancelled id) (sym result) (record {
      ordered = IsOrdered-alter cancel_session id s.sessions h;
      session = cancel_session session;
      found = ground (arith, find-alter cancel_session id id s.sessions, beq_iff id id);
      marked = refl;
    })

pub check_upload-IsCancelled :
    (request : HttpRequest) (id file_id token : Bytes) (s : Server)
    → IsCancelled id s.sessions
    → find (codes "sessionId") request.query ≡ some id
    → find (codes "fileId") request.query ≡ some file_id
    → find (codes "token") request.query ≡ some token
    → check_upload true request s ≡ rejected (text_response 404 (codes "session not found"))
unfolding check_upload check_session find_session
check_upload-IsCancelled request id file_id token s h e f g =
    let found = h.found in let marked = h.marked in ground arith

-- After a `cancel` of a session that is there, and after any further connections, each upload
-- of the newer API to that session, with whatever file id and token, is answered with 404 and changes nothing:
-- no later request revives a session, not even a `prepare-upload` that draws the same id.
handle_upload-handle_cancel :
    (now later : ℕ) (cancel request : HttpRequest) (id file_id token : Bytes) (session : Session)
    (s : Server) (connections : List Connection) (can_open writes_ok : Bool) (initial_body : Bytes)
    (stream : Stream) (t : Server)
    → IsOrdered s.sessions
    → find (codes "sessionId") cancel.query ≡ some id
    → find id s.sessions ≡ some session
    → t ≡ serve connections (handle_cancel now cancel s).1
    → find (codes "sessionId") request.query ≡ some id
    → find (codes "fileId") request.query ≡ some file_id
    → find (codes "token") request.query ≡ some token
    → handle_upload later can_open writes_ok true request initial_body stream t
      ≡ (text_response 404 (codes "session not found"), t)
unfolding handle_upload
handle_upload-handle_cancel now later cancel request id file_id token session s connections can_open
      writes_ok initial_body stream t h c f run e g k =
    let cancelled_there =
      subst (λ t. IsCancelled id t.sessions) (sym run)
        (serve-IsCancelled connections id _
          (handle_cancel-IsCancelled now cancel id session s h c f)) in
    let check = check_upload-IsCancelled request id file_id token t cancelled_there e g k in
    ground arith
