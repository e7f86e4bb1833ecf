-- ===== src/Protocol/Dto.antt =====
-- The JSON forms of src/core/protocol.cpp. Readers give an error where `Json` throws.
use localsend_handheld.Prelude.{
  Bool, true, false, not, [], ◌∷◌, if◌then◌else◌, Bytes, codes, is_empty,
}
use localsend_handheld.Prelude.Int.{ℤ, int64_of_uint64, uint64_of_int64, int_of_int64}
use localsend_handheld.Prelude.Map.{Map, insert, emplace}
use localsend_handheld.Prelude.Result.{Result, ok, err, out_of_fuel, ◌>>=◌}
use localsend_handheld.Json.{
  Numbers, Json, boolean, number, string, object, of_map, is_null, as_bool, as_string, as_object,
  as_int64, at,
}
use localsend_handheld.Protocol.{
  InfoDto, InfoRegisterDto, MulticastDto, FileDto, PrepareUploadRequestDto,
  PrepareUploadResponseDto, protocol_version, default_port, device_type_to_string,
  protocol_type_to_string, device_type_from_string, protocol_type_from_string, mime_from_filename,
}

-- `contains(key)` and not null.
abbrev pub is_given : {A : Type 0} → Json A → Bytes → Bool
is_given json key = elim (at json key) [
  | ok value ↦ not (is_null value)
  | err what ↦ false
  | out_of_fuel ↦ false
]

unfoldable pub optional_string : {A : Type 0} → Json A → Bytes → Bytes → Result Bytes
optional_string json key fallback =
    if is_given json key then (do value ← at json key; as_string value) else ok fallback

unfoldable pub optional_bool : {A : Type 0} → Json A → Bytes → Bool → Result Bool
optional_bool json key fallback =
    if is_given json key then (do value ← at json key; as_bool value) else ok fallback

unfoldable pub put_if_not_empty : {A : Type 0} → Bytes → Bytes → Map (Json A) → Map (Json A)
put_if_not_empty key value m = if is_empty value then m else insert key (string value) m

-- `json[key] = value` on an object is `insert`; the members of an object stand in their map.
unfoldable pub info_members : {A : Type 0} → InfoDto → Map (Json A)
info_members dto = insert (codes "download") (boolean dto.download) (
    insert (codes "fingerprint") (string dto.fingerprint) (
      insert (codes "deviceType") (string (device_type_to_string dto.device_type)) (
        insert (codes "deviceModel") (string dto.device_model) (
          insert (codes "version") (string dto.version)
            (insert (codes "alias") (string dto.alias) [])))))

unfoldable pub info_from_json : {A : Type 0} → Json A → Result InfoDto
info_from_json json = do
  alias_value ← at json (codes "alias")
  alias ← as_string alias_value
  version ← optional_string json (codes "version") protocol_version
  device_model ← optional_string json (codes "deviceModel") (codes "Unknown")
  device_type ← optional_string json (codes "deviceType") (codes "desktop")
  fingerprint ← optional_string json (codes "fingerprint") []
  download ← optional_bool json (codes "download") false
  ok (record {
    alias = alias;
    version = version;
    device_model = device_model;
    device_type = device_type_from_string device_type;
    fingerprint = fingerprint;
    download = download;
  })

module _ (n : Numbers) where
  unfoldable pub optional_int : Json n.Number → Bytes → ℤ → Result ℤ
  optional_int json key fallback =
      if is_given json key
      then (do value ← at json key; x ← as_int64 n value; ok (int_of_int64 x))
      else ok fallback

  unfoldable pub register_members : InfoRegisterDto → Map (Json n.Number)
  register_members dto =
      insert (codes "protocol") (string (protocol_type_to_string dto.protocol))
        (insert (codes "port") (number (n.of_int64 dto.port)) (info_members dto.info))

  unfoldable pub info_register_from_json : Json n.Number → Result InfoRegisterDto
  info_register_from_json json = do
    info ← info_from_json json
    port ← optional_int json (codes "port") default_port
    protocol ← optional_string json (codes "protocol") (codes "http")
    ok (record { info = info; port = port; protocol = protocol_type_from_string protocol })

  unfoldable pub multicast_members : MulticastDto → Map (Json n.Number)
  multicast_members dto =
      insert (codes "announcement") (boolean dto.announce)
        (insert (codes "announce") (boolean dto.announce) (register_members dto.register))

  unfoldable pub multicast_from_json : Json n.Number → Result MulticastDto
  multicast_from_json json = do
    register ← info_register_from_json json
    announce ← optional_bool json (codes "announce") true
    ok (record { register = register; announce = announce })

  abbrev pub sent_type : FileDto → Bytes
  sent_type dto = if is_empty dto.file_type then mime_from_filename dto.file_name else dto.file_type

  unfoldable pub file_members : FileDto → Map (Json n.Number)
  file_members dto = put_if_not_empty (codes "preview") dto.preview (
      put_if_not_empty (codes "hash") dto.hash (
        insert (codes "fileType") (string (sent_type dto)) (
          insert (codes "size") (number (n.of_int64 (int64_of_uint64 dto.size))) (
            insert (codes "fileName") (string dto.file_name)
              (insert (codes "id") (string dto.id) [])))))

  unfoldable pub file_from_json : Json n.Number → Result FileDto
  file_from_json json = do
    id_value ← at json (codes "id")
    id ← as_string id_value
    name_value ← at json (codes "fileName")
    file_name ← as_string name_value
    size_value ← at json (codes "size")
    size ← as_int64 n size_value
    file_type ← optional_string json (codes "fileType") (mime_from_filename file_name)
    hash ← optional_string json (codes "hash") []
    preview ← optional_string json (codes "preview") []
    ok (record {
      id = id;
      file_name = file_name;
      size = uint64_of_int64 size;
      file_type = file_type;
      hash = hash;
      preview = preview;
    })

  -- The loops of `to_json` over the files, with the object that is there.
  unfoldable pub put_files : Map FileDto → Map (Json n.Number) → Map (Json n.Number)
  put_files [] m = m
  put_files ((key, dto) ∷ files) m =
      put_files files (insert key (object (of_map (file_members dto))) m)

  unfoldable pub put_tokens : Map Bytes → Map (Json n.Number) → Map (Json n.Number)
  put_tokens [] m = m
  put_tokens ((key, token) ∷ tokens) m = put_tokens tokens (insert key (string token) m)

  unfoldable pub request_members : PrepareUploadRequestDto → Map (Json n.Number)
  request_members dto =
      insert (codes "files") (object (of_map (put_files dto.files [])))
        (insert (codes "info") (object (of_map (register_members dto.info))) [])

  unfoldable pub response_members : PrepareUploadResponseDto → Map (Json n.Number)
  response_members dto =
      insert (codes "files") (object (of_map (put_tokens dto.files [])))
        (insert (codes "sessionId") (string dto.session_id) [])

  -- The loops over the members of `files`, with the files that are there.
  unfoldable pub read_files : Map (Json n.Number) → Map FileDto → Result (Map FileDto)
  read_files [] files = ok files
  read_files ((key, json) ∷ m) files = do
    dto ← file_from_json json
    read_files m (emplace key dto files)

  unfoldable pub read_tokens : Map (Json n.Number) → Map Bytes → Result (Map Bytes)
  read_tokens [] tokens = ok tokens
  read_tokens ((key, json) ∷ m) tokens = do
    token ← as_string json
    read_tokens m (emplace key token tokens)

  unfoldable pub prepare_upload_request_from_json : Json n.Number → Result PrepareUploadRequestDto
  prepare_upload_request_from_json json = do
    info_value ← at json (codes "info")
    info ← info_register_from_json info_value
    files_value ← at json (codes "files")
    entries ← as_object files_value
    files ← read_files entries []
    ok (record { info = info; files = files })

  unfoldable pub prepare_upload_response_from_json : Json n.Number → Result PrepareUploadResponseDto
  prepare_upload_response_from_json json = do
    session_value ← at json (codes "sessionId")
    session_id ← as_string session_value
    files_value ← at json (codes "files")
    entries ← as_object files_value
    files ← read_tokens entries []
    ok (record { session_id = session_id; files = files })
