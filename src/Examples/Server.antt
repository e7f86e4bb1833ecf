-- ===== src/Examples/Server.antt =====
-- Examples for the models of http.cpp.
use localsend_handheld.Prelude.{
  ◌≡◌, ◌↔◌, refl, true, false, [], ◌∷◌, inr, none, some, codes, arith, beq,
}
use localsend_handheld.Prelude.Int.{pos}
use localsend_handheld.Prelude.Map.{find}
use localsend_handheld.Protocol.{InfoRegisterDto, FileDto, desktop, https}
use localsend_handheld.Transfer.{empty_store}
use localsend_handheld.Http.Server.{HttpRequest, Session, Server, pending_file}
use localsend_handheld.Http.Server.Upload.{
  Accepted, accepted, check_upload, check_session, check_file, find_session, handle_upload,
}
use localsend_handheld.Http.Server.Route.{Surroundings, Connection, serve}
use localsend_handheld.Http.Server.Inbox.{serve-Keeps}
use localsend_handheld.Http.Server.Confined.{Keeps}
use localsend_handheld.Http.Server.Permitted.{Permitted, check_upload_iff}
use localsend_handheld.Http.Server.Stored.{Outcome, handle_upload-Outcome}

abbrev own_info : InfoRegisterDto
own_info = record {
  info = record {
    alias = codes "Vita";
    version = codes "2.1";
    device_model = [];
    device_type = desktop;
    fingerprint = codes "AA";
    download = false;
  };
  port = pos 53317;
  protocol = https;
}

abbrev photo : FileDto
photo = record {
  id = codes "f1";
  file_name = codes "a.png";
  size = 3;
  file_type = [];
  hash = [];
  preview = [];
}

abbrev pub photo_session : Session
photo_session = record {
  session_id = codes "s1";
  files = (codes "f1", pending_file photo (codes "t1") (codes "inbox/a.png") 1) ∷ [];
  cancelled = false;
}

-- A server with one session.
abbrev pub one_session : Server
one_session = record {
  self = own_info;
  inbox = codes "inbox";
  transfers = some empty_store;
  sessions = (codes "s1", photo_session) ∷ [];
  disk = [];
}

abbrev pub upload_request : HttpRequest
upload_request = record {
  method = codes "POST";
  path = codes "/api/localsend/v2/upload";
  query =
      (codes "fileId", codes "f1")
      ∷ (codes "sessionId", codes "s1")
      ∷ (codes "token", codes "t1")
      ∷ [];
  body = [];
  content_length = 3;
  chunked = false;
}

abbrev pub photo_accepted : Accepted
photo_accepted = record {
  destination = codes "inbox/a.png";
  expected_size = 3;
  transfer_id = 1;
  session_id = codes "s1";
  file_id = codes "f1";
}

check_photo : check_upload true upload_request one_session ≡ accepted photo_accepted
unfolding check_upload check_session check_file find_session find beq
check_photo = refl

handle_upload-Outcome_example : Outcome true (codes "inbox/a.png") (codes "xyz") (
    handle_upload 5 true true true upload_request
      (codes "x")
      (codes "y" ∷ codes "z" ∷ [])
      one_session)
handle_upload-Outcome_example =
    handle_upload-Outcome 5 true upload_request (codes "x") (codes "y" ∷ codes "z" ∷ []) one_session
      photo_accepted check_photo refl (omega arith)

abbrev pub cancel_request : HttpRequest
cancel_request = record upload_request { path = codes "/api/localsend/v2/cancel" }

pub photo_query : find (codes "sessionId") upload_request.query ≡ some (codes "s1")
unfolding find beq
photo_query = refl

pub photo_file : find (codes "fileId") upload_request.query ≡ some (codes "f1")
unfolding find beq
photo_file = refl

pub photo_token : find (codes "token") upload_request.query ≡ some (codes "t1")
unfolding find beq
photo_token = refl

pub photo_found : find (codes "s1") one_session.sessions ≡ some photo_session
unfolding find beq
photo_found = refl

-- A peer asks to send a file whose name leads out of the inbox.
abbrev hostile : FileDto
hostile = record photo { file_name = codes "../../etc/passwd" }

abbrev pub surroundings : Surroundings
surroundings = record {
  remote_ip = codes "10.0.0.2";
  peer_fingerprint = [];
  now = 5;
  session_id = codes "s2";
  token = λ i. codes "t";
  callback = true;
  can_open = true;
  writes_ok = true;
  read_register = λ body. none;
  read_prepare_upload =
      λ body. inr (record { info = own_info; files = (codes "f1", hostile) ∷ [] });
}

abbrev prepare_request : HttpRequest
prepare_request = record upload_request {
  path = codes "/api/localsend/v2/prepare-upload";
  query = [];
  content_length = 0;
}

abbrev pub prepare_connection : Connection
prepare_connection = record {
  surroundings = surroundings;
  headers = some (prepare_request, []);
  stream = [];
}

abbrev pub upload_connection : Connection
upload_connection = record {
  surroundings = surroundings;
  headers = some (
    record upload_request {
      query =
          (codes "fileId", codes "f1")
          ∷ (codes "sessionId", codes "s2")
          ∷ (codes "token", codes "t")
          ∷ [];
    },
    codes "xyz",
  );
  stream = [];
}

abbrev pub no_sessions : Server
no_sessions = record one_session { sessions = [] }

serve-Keeps_example :
    Keeps no_sessions (serve (prepare_connection ∷ upload_connection ∷ []) no_sessions)
serve-Keeps_example = serve-Keeps (prepare_connection ∷ upload_connection ∷ []) no_sessions tt

check_upload_iff_example :
    (check_upload true upload_request one_session ≡ accepted photo_accepted)
    ↔ Permitted true upload_request one_session photo_accepted
check_upload_iff_example = check_upload_iff true upload_request one_session photo_accepted

photo-Permitted : Permitted true upload_request one_session photo_accepted
photo-Permitted = (check_upload_iff true upload_request one_session photo_accepted).0 check_photo
