-- ===== src/Http/Server/Upload.antt =====
-- `handle_upload` of http.cpp. The lock is held for the checks at the start and for the mark at the end;
-- the body is received in between. Here nothing else happens in between (Overlapping has the steps).
use mathlib.Core.Option
use localsend_handheld.Prelude.{
  joined, ℕ, zero, suc, ◌+◌, ◌-◌, Bool, true, false, not, ◌&&◌, List, [], ◌∷◌, ◌++◌, Option, none,
  some, min, ltb, ◌==◌, if◌then◌else◌, Bytes, codes, beq, is_empty, length,
}
use localsend_handheld.Prelude.Map.{Map, find, insert, alter, erase}
use localsend_handheld.Transfer.{TransferStore, completed, set_progress, set_status, fail}
use localsend_handheld.Http.Stream.{Stream, read, transfer_buffer_size}
use localsend_handheld.Http.Chunked.{Received, read_chunked_body}
use localsend_handheld.Http.Server.{
  HttpRequest, HttpResponse, text_response, json_response, empty_json, PendingFile, Session, Server,
}

-- What the checks hand on.
pub record Accepted : Type 0 where
  pub destination : Bytes
  pub expected_size : ℕ
  pub transfer_id : ℕ
  pub session_id : Bytes
  pub file_id : Bytes

pub data Checked : Type 0 where
  rejected : HttpResponse → Checked
  accepted : Accepted → Checked

-- The session that an upload names: the older API names none, and takes the only one.
unfoldable pub find_session : Bool → Option Bytes → Map Session → Option (Bytes × Session)
find_session true none sessions = none
find_session true (some id) sessions = Option.map (λ s. (id, s)) (find id sessions)
find_session false id ((only, session) ∷ []) = some (only, session)
find_session false id _ = none

unfoldable pub check_file : HttpRequest → Bytes → Bytes → Bytes → PendingFile → Checked
check_file request session_id file_id token file =
    if not (beq file.token token)
    then rejected (text_response 403 (codes "invalid token"))
    else if not request.chunked && not (request.content_length == file.dto.size)
    then rejected (text_response 400 (codes "file size mismatch"))
    else accepted (record {
      destination = file.destination;
      expected_size = file.dto.size;
      transfer_id = file.transfer_id;
      session_id = session_id;
      file_id = file_id;
    })

unfoldable pub check_session : HttpRequest → Bytes → Bytes → Option (Bytes × Session) → Checked
check_session request file_id token none = rejected (text_response 404 (codes "session not found"))
check_session request file_id token (some (session_id, session)) =
    if session.cancelled
    then rejected (text_response 404 (codes "session not found"))
    else elim (find file_id session.files) [
      | none ↦ rejected (text_response 404 (codes "file not found"))
      | some file ↦ check_file request session_id file_id token file
    ]

abbrev pub missing_query : Checked
missing_query = rejected (text_response 400 (codes "missing upload query"))

abbrev pub is_none : Option Bytes → Bool
is_none none = true
is_none (some s) = false

-- From the query to the end of the first lock.
unfoldable pub check_upload : Bool → HttpRequest → Server → Checked
check_upload v2 request s =
    let session_id = find (codes "sessionId") request.query in
    if v2 && is_none session_id then missing_query else elim (find (codes "fileId") request.query) [
      | none ↦ missing_query
      | some file_id ↦ elim (find (codes "token") request.query) [
        | none ↦ missing_query
        | some token ↦ check_session request file_id token (find_session v2 session_id s.sessions)
      ]
    ]

-- The loop of a body with a length: `written` bytes are there of `size`. On fuel; a round writes a
-- byte at least.
unfoldable pub receive_plain : ℕ → ℕ → ℕ → Stream → List Bytes → Received
receive_plain zero size written stream out = record {
  writes = out;
  complete = not (ltb written size);
}
receive_plain (suc fuel) size written stream out = elim (ltb written size) [
  | false ↦ record { writes = out; complete = true }
  | true ↦ elim (read (min transfer_buffer_size (size - written)) stream) [
    | none ↦ record { writes = out; complete = false }
    | some (got, rest) ↦ receive_plain fuel size (written + length got) rest (out ++ got ∷ [])
  ]
]

abbrev pub first_write : Bytes → List Bytes
first_write initial_body = if is_empty initial_body then [] else initial_body ∷ []

unfoldable pub receive_body : HttpRequest → Bytes → Stream → Received
receive_body request initial_body stream =
    if request.chunked
    then read_chunked_body initial_body stream
    else receive_plain request.content_length request.content_length (length initial_body) stream
        (first_write initial_body)

-- `if (transfers_ && transfer_id != 0) …`
abbrev pub on_transfer : ℕ → (TransferStore → TransferStore) → Server → Server
on_transfer id f s = if id == 0 then s else record s { transfers = Option.map f s.transfers }

-- The calls of `update_progress`, one for each write.
unfoldable pub report_progress : ℕ → ℕ → ℕ → List Bytes → Server → Server
report_progress now id written [] s = s
report_progress now id written (chunk ∷ chunks) s =
    let total = written + length chunk in
    report_progress now id total chunks (on_transfer id (λ t. (set_progress now id total t).0) s)

-- `failed_upload`: the file is removed and the transfer fails.
unfoldable pub failed_upload : ℕ → Accepted → ℕ → Bytes → Server → HttpResponse × Server
failed_upload now a status message s = (
  text_response status message,
  on_transfer a.transfer_id (λ t. (fail now a.transfer_id message t).0)
      (record s { disk = erase a.destination s.disk }),
)

abbrev pub mark_complete : PendingFile → PendingFile
mark_complete file = record file { complete = true }

-- The transfer is completed and the file of the session is marked, if it is still there.
unfoldable pub finish_upload : ℕ → Accepted → Server → HttpResponse × Server
finish_upload now a s =
    let done = on_transfer a.transfer_id (λ t. (set_status now a.transfer_id completed t).0) s in
    (
      json_response 200 empty_json,
      record done {
        sessions =
            alter
              (λ session. record session { files = alter mark_complete a.file_id session.files })
              a.session_id done.sessions;
      },
    )

-- The checks behind the loops; `writes_ok` is the state of the output stream.
unfoldable pub judge_upload :
    ℕ → Bool → HttpRequest → Accepted → Received → Server → HttpResponse × Server
judge_upload now writes_ok request a received s =
    let written = length (joined received.writes) in
    if not received.complete
    then failed_upload now a 400 (codes "incomplete upload") s
    else if not (written == request.content_length) && not request.chunked
    then failed_upload now a 400 (codes "incomplete upload") s
    else if request.chunked && not (written == a.expected_size)
    then failed_upload now a 400 (codes "file size mismatch") s
    else if not writes_ok
    then failed_upload now a 500 (codes "failed to write destination") s
    else finish_upload now a s

-- The file is opened, emptied and written; then the upload is judged.
unfoldable pub store_upload :
    ℕ → Bool → Bool → HttpRequest → Bytes → Stream → Accepted → Server → HttpResponse × Server
store_upload now can_open writes_ok request initial_body stream a s =
    let received = receive_body request initial_body stream in
    let written = record s { disk = insert a.destination (joined received.writes) s.disk } in
    let told = report_progress now a.transfer_id 0 received.writes written in
    let cannot = text_response 500 (codes "failed to open destination") in
    if not can_open
    then (
      cannot,
      on_transfer a.transfer_id
          (λ t. (fail now a.transfer_id (codes "failed to open destination") t).0) s,
    )
    else judge_upload now writes_ok request a received told

unfoldable pub handle_upload :
    ℕ → Bool → Bool → Bool → HttpRequest → Bytes → Stream → Server → HttpResponse × Server
handle_upload now can_open writes_ok v2 request initial_body stream s =
    elim (check_upload v2 request s) [
      | rejected response ↦ (response, s)
      | accepted a ↦ store_upload now can_open writes_ok request initial_body stream a s
    ]
