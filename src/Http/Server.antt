-- ===== src/Http/Server.antt =====
-- `LocalSendServer` of http.cpp: the requests that it answers, as steps on its state. The state also
-- holds the files of the file system, by their paths, and the transfer store that the server may have
-- a pointer to. The readers of JSON bodies, the random numbers, the clock and the outcome of opening
-- and writing a file are arguments. A response carries the value that the source turns into JSON.
pub mod Upload
pub mod Route
pub mod Confined
pub mod Inbox
pub mod Sessions
pub mod Changes
pub mod Cancelled
pub mod Written
pub mod Stored
pub mod Overlapping
pub mod Permitted
use mathlib.Core.Option
use localsend_handheld.Prelude.{
  ℕ, zero, suc, ◌+◌, Bool, true, false, not, ◌&&◌, ◌||◌, ◌⊎◌, inl, inr, List, [], ◌∷◌, ◌++◌, Option,
  none, some, ltb, ◌==◌, if◌then◌else◌, Bytes, codes, beq, is_empty, length,
}
use localsend_handheld.Prelude.Int.{ℤ, is_positive}
use localsend_handheld.Prelude.Map.{Map, find, emplace, alter, has_key}
use localsend_handheld.Protocol.{
  Device, InfoDto, InfoRegisterDto, FileDto, PrepareUploadRequestDto, PrepareUploadResponseDto,
  protocol_version, is_https_protocol,
}
use localsend_handheld.Transfer.{TransferStore, receive, preparing, add, set_status, cancel}
use localsend_handheld.SafePath.{unique_destination_path}

pub record HttpRequest : Type 0 where
  pub method : Bytes
  pub path : Bytes
  pub query : Map Bytes
  pub body : Bytes
  pub content_length : ℕ
  pub chunked : Bool

pub data Body : Type 0 where
  text : Bytes → Body
  info_json : InfoDto → Body
  register_json : InfoRegisterDto → Body
  upload_json : PrepareUploadResponseDto → Body
  tokens_json : Map Bytes → Body
  empty_json : Body

pub record HttpResponse : Type 0 where
  pub status : ℕ
  pub body : Body

abbrev pub text_response : ℕ → Bytes → HttpResponse
text_response status message = record { status = status; body = text message }

abbrev pub json_response : ℕ → Body → HttpResponse
json_response status body = record { status = status; body = body }

pub record PendingFile : Type 0 where
  pub dto : FileDto
  pub token : Bytes
  pub destination : Bytes
  pub transfer_id : ℕ
  pub complete : Bool

pub record Session : Type 0 where
  pub session_id : Bytes
  pub files : Map PendingFile
  pub cancelled : Bool

pub record Server : Type 0 where
  pub self : InfoRegisterDto
  pub inbox : Bytes
  pub transfers : Option TransferStore
  pub sessions : Map Session
  pub disk : Map Bytes

-- `device_from_info_register`
unfoldable pub device_from_info_register : InfoRegisterDto → Bytes → ℤ → Bool → Device
device_from_info_register dto ip fallback_port fallback_https = record {
  ip = ip;
  version = if is_empty dto.version then protocol_version else dto.version;
  port = if is_positive dto.port then dto.port else fallback_port;
  is_https = is_https_protocol dto.protocol || (not (is_positive dto.port) && fallback_https);
  fingerprint = dto.fingerprint;
  alias = dto.alias;
  device_model = dto.device_model;
  device_type = dto.device_type;
  download = dto.download;
}

unfoldable pub handle_info : HttpRequest → Server → HttpResponse
handle_info request s = elim (find (codes "fingerprint") request.query) [
  | none ↦ json_response 200 (register_json s.self)
  | some fingerprint ↦
      if not (is_empty s.self.fingerprint) && beq fingerprint s.self.fingerprint
      then text_response 412 (codes "Self-discovered")
      else json_response 200 (register_json s.self)
]

-- A fingerprint that the TLS connection proved replaces the one that the body claims.
abbrev pub proved_info : Bytes → InfoRegisterDto → InfoRegisterDto
proved_info peer_fingerprint dto =
    if is_empty peer_fingerprint
    then dto
    else record dto { info = record dto.info { fingerprint = peer_fingerprint } }

-- `dto` is what the JSON reader gives, `none` if it throws; the second result is the device that the
-- callback gets.
unfoldable pub handle_register :
    Option InfoRegisterDto → Bool → Bytes → Bytes → Server → HttpResponse × Option Device
handle_register none callback remote_ip peer_fingerprint s =
    (text_response 400 (codes "Request body malformed"), none)
handle_register (some sent) callback remote_ip peer_fingerprint s =
    let dto = proved_info peer_fingerprint sent in
    if not (is_empty s.self.fingerprint) && beq dto.fingerprint s.self.fingerprint
    then (text_response 412 (codes "Self-discovered"), none)
    else (
      json_response 200 (info_json s.self.info),
      if callback && not (is_empty remote_ip)
          then some (
              device_from_info_register dto remote_ip s.self.port
                (is_https_protocol s.self.protocol))
          else none,
    )

-- The transfer that `handle_prepare_upload` adds for a file, if there is a store.
unfoldable pub add_receive :
    ℕ → Bytes → Bytes → FileDto → Option TransferStore → ℕ × Option TransferStore
add_receive now alias remote_ip dto none = (0, none)
add_receive now alias remote_ip dto (some t) =
    let (id, added) = add now receive dto.file_name dto.size alias remote_ip t in
    (id, some (set_status now id preparing added).0)

abbrev pub exists_on : Map Bytes → Bytes → Bool
exists_on disk path = has_key path disk

abbrev pub pending_file : FileDto → Bytes → Bytes → ℕ → PendingFile
pending_file dto token destination transfer_id = record {
  dto = dto;
  token = token;
  destination = destination;
  transfer_id = transfer_id;
  complete = false;
}

-- What the loop of `handle_prepare_upload` builds.
pub record Prepared : Type 0 where
  pub files : Map PendingFile
  pub tokens : Map Bytes
  pub transfers : Option TransferStore

-- One round, with the token that `random_hex` gives in it.
unfoldable pub prepare_file :
    ℕ → Bytes → Bytes → Bytes → Map Bytes → Bytes → FileDto → Prepared → Prepared
prepare_file now alias remote_ip inbox disk token dto p =
    let destination = unique_destination_path (exists_on disk) inbox dto.file_name in
    let (transfer_id, transfers) = add_receive now alias remote_ip dto p.transfers in
    record {
      files = emplace dto.id (pending_file dto token destination transfer_id) p.files;
      tokens = emplace dto.id token p.tokens;
      transfers = transfers;
    }

-- The loop; `token i` is the token of round `i`.
unfoldable pub prepare_files :
    ℕ → Bytes → Bytes → Bytes → Map Bytes → (ℕ → Bytes) → ℕ → Map FileDto → Prepared → Prepared
prepare_files now alias remote_ip inbox disk token i [] p = p
prepare_files now alias remote_ip inbox disk token i ((key, dto) ∷ files) p =
    prepare_files now alias remote_ip inbox disk token (i + 1) files
      (prepare_file now alias remote_ip inbox disk (token i) dto p)

-- The state of the loop at its start.
abbrev pub unprepared : Option TransferStore → Prepared
unprepared transfers = record { files = []; tokens = []; transfers = transfers }

-- The tokens, in the form of the newer API or as the bare object of the older one.
abbrev pub prepare_response : Bool → Bytes → Map Bytes → HttpResponse
prepare_response v2 session_id tokens = json_response 200 (
    if v2
    then upload_json (record { session_id = session_id; files = tokens })
    else tokens_json tokens)

-- `decoded` is what the JSON reader gives, or the text of its exception. `session_id` and `token` are
-- the random texts.
unfoldable pub handle_prepare_upload :
    ℕ
    → Bytes
    → (ℕ → Bytes)
    → Bool
    → Bytes
    → Bytes
    → Bytes ⊎ PrepareUploadRequestDto
    → Server
    → HttpResponse × Server
handle_prepare_upload now session_id token v2 remote_ip peer_fingerprint (inl what) s =
    (text_response 400 what, s)
handle_prepare_upload now session_id token v2 remote_ip peer_fingerprint (inr dto) s =
    let info = proved_info peer_fingerprint dto.info in
    let prepared =
      prepare_files now info.alias remote_ip s.inbox s.disk token 0 dto.files
        (unprepared s.transfers) in
    let session : Session = record {
      session_id = session_id;
      files = prepared.files;
      cancelled = false;
    } in
    (
      prepare_response v2 session_id prepared.tokens,
      record s { transfers = prepared.transfers; sessions = emplace session_id session s.sessions },
    )

-- The transfers of a session's files, cancelled one by one.
unfoldable pub cancel_files : ℕ → Map PendingFile → TransferStore → TransferStore
cancel_files now [] t = t
cancel_files now ((id, file) ∷ files) t =
    cancel_files now files (if file.transfer_id == 0 then t else (cancel now file.transfer_id t).0)

abbrev pub cancel_session : Session → Session
cancel_session session = record session { cancelled = true }

unfoldable pub handle_cancel : ℕ → HttpRequest → Server → HttpResponse × Server
handle_cancel now request s = elim (find (codes "sessionId") request.query) [
  | none ↦ (text_response 400 (codes "missing sessionId"), s)
  | some id ↦ elim (find id s.sessions) [
    | none ↦ (text_response 404 (codes "session not found"), s)
    | some session ↦ (
      text_response 200 (codes "ok"),
      record s {
        sessions = alter cancel_session id s.sessions;
        transfers = Option.map (cancel_files now session.files) s.transfers;
      },
    )
  ]
]
