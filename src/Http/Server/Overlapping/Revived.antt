-- ===== src/Http/Server/Overlapping/Revived.antt =====
-- Sessions of http.cpp that are cancelled while other connections are at work.
use localsend_handheld.Prelude.{
  joined, ℕ, ◌≡◌, refl, sym, ◌∙◌, subst, Bool, true, false, List, [], ◌∷◌, Option, none, some,
  arith, Bytes, codes, length, get_elem?,
}
use localsend_handheld.Prelude.Map.{find, IsOrdered}
use localsend_handheld.Http.Stream.{Stream}
use localsend_handheld.Http.Chunked.{Received}
use localsend_handheld.Http.Server.{HttpRequest, Server, Session, text_response, handle_cancel}
use localsend_handheld.Http.Server.Upload.{
  Checked, rejected, accepted, check_upload, handle_upload, judge_upload,
}
use localsend_handheld.Http.Server.Sessions.{IsCancelled, Change, same, Change-IsCancelled}
use localsend_handheld.Http.Server.Changes.{
  on_transfer-sessions, report_progress-sessions, kept, judge_upload-Change, handle_client-Change,
}
use localsend_handheld.Http.Server.Cancelled.{handle_cancel-IsCancelled, check_upload-IsCancelled}
use localsend_handheld.Http.Server.Overlapping.{
  Upload, Live, leave, Action, opens, writes, ends, act, Event, answers, checks, acts, start,
  act_on, take_event, run_overlapping,
}

leave-sessions :
    (path : Bytes) (left : Option Bytes) (s : Server) → (leave path left s).sessions ≡ s.sessions
leave-sessions path none s = refl
leave-sessions path (some bytes) s = refl

act-Change :
    (action : Action) (i : ℕ) (u : Upload) (out : Option (List Bytes)) (l : Live)
    → Change l.server.sessions (act action i u out l).server.sessions
unfolding act
act-Change (opens now true) i u none l = same
act-Change (opens now false) i u none l =
    kept _ _ (on_transfer-sessions u.checked.transfer_id _ l.server)
act-Change (opens now can_open) i u (some out) l = same
act-Change (writes now chunk left) i u none l = same
act-Change (writes now chunk left) i u (some out) l = kept _ _ (
    report_progress-sessions now u.checked.transfer_id (length (joined out)) (chunk ∷ []) _
    ∙ leave-sessions u.checked.destination left l.server)
act-Change (ends now writes_ok complete left) i u none l = same
act-Change (ends now writes_ok complete left) i u (some out) l =
    let closed = leave u.checked.destination left l.server in
    let received : Received = record { writes = out; complete = complete } in
    subst
      (λ before.
        Change before (judge_upload now writes_ok u.request u.checked received closed).1.sessions)
      (leave-sessions u.checked.destination left l.server)
      (judge_upload-Change now writes_ok u.request u.checked received closed)

start-Change :
    (request : HttpRequest) (c : Checked) (l : Live)
    → Change l.server.sessions (start request c l).server.sessions
start-Change request (rejected response) l = same
start-Change request (accepted a) l = same

act_on-Change :
    (action : Action) (i : ℕ) (u : Option Upload) (l : Live)
    → Change l.server.sessions (act_on action i u l).server.sessions
act_on-Change action i none l = same
act_on-Change action i (some u) l = act-Change action i u u.writes l

take_event-Change :
    (e : Event) (l : Live) → Change l.server.sessions (take_event e l).server.sessions
unfolding take_event
take_event-Change (answers c) l = handle_client-Change c.surroundings c.headers c.stream l.server
take_event-Change (checks v2 request) l = start-Change request (check_upload v2 request l.server) l
take_event-Change (acts i action) l = act_on-Change action i (get_elem? l.uploads i) l

run_overlapping-IsCancelled :
    (events : List Event) (id : Bytes) (l : Live)
    → IsCancelled id l.server.sessions
    → IsCancelled id (run_overlapping events l).server.sessions
unfolding run_overlapping
run_overlapping-IsCancelled [] id l h = h
run_overlapping-IsCancelled (e ∷ es) id l h =
    run_overlapping-IsCancelled es id (take_event e l)
      (Change-IsCancelled id l.server.sessions _ (take_event-Change e l) h)

-- After a `cancel` of a session that is there, while any uploads are at work, and after any further steps of them and
-- of other connections, however they overlap, each upload of the newer API to that session, with whatever file id and
-- token, is answered with 404 and changes nothing: no step revives a session.
pub run_overlapping-handle_cancel :
    (now later : ℕ) (cancel request : HttpRequest) (id file_id token : Bytes) (session : Session)
    (s t : Server) (uploads : List Upload) (events : List Event) (can_open writes_ok : Bool)
    (initial_body : Bytes) (stream : Stream)
    → IsOrdered s.sessions
    → find (codes "sessionId") cancel.query ≡ some id
    → find id s.sessions ≡ some session
    → t
      ≡ (run_overlapping events
          (record { server = (handle_cancel now cancel s).1; uploads = uploads })).server
    → find (codes "sessionId") request.query ≡ some id
    → find (codes "fileId") request.query ≡ some file_id
    → find (codes "token") request.query ≡ some token
    → handle_upload later can_open writes_ok true request initial_body stream t
      ≡ (text_response 404 (codes "session not found"), t)
unfolding handle_upload
run_overlapping-handle_cancel now later cancel request id file_id token session s t uploads events
      can_open writes_ok initial_body stream h c f run e g k =
    let cancelled_there =
      subst (λ t. IsCancelled id t.sessions) (sym run)
        (run_overlapping-IsCancelled events id _
          (handle_cancel-IsCancelled now cancel id session s h c f)) in
    let check = check_upload-IsCancelled request id file_id token t cancelled_there e g k in
    ground arith
