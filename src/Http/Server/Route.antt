-- ===== src/Http/Server/Route.antt =====
-- `LocalSendServer::handle_client` and `route` of http.cpp: which handler answers a request. The
-- headers are read before; what is left of the connection is the stream.
use localsend_handheld.Prelude.{
  ℕ, Bool, ◌&&◌, ◌||◌, ◌⊎◌, List, [], ◌∷◌, Option, none, some, if◌then◌else◌, Bytes, codes, beq,
}
use localsend_handheld.Protocol.{Device, InfoRegisterDto, PrepareUploadRequestDto}
use localsend_handheld.Http.Stream.{Stream, read_remaining_body}
use localsend_handheld.Http.Server.{
  HttpRequest, HttpResponse, text_response, Server, handle_info, handle_register,
  handle_prepare_upload, handle_cancel,
}
use localsend_handheld.Http.Server.Upload.{handle_upload}

abbrev pub route_info : Bytes
route_info = codes "/api/localsend/v2/info"

abbrev pub route_info_v1 : Bytes
route_info_v1 = codes "/api/localsend/v1/info"

abbrev pub route_register : Bytes
route_register = codes "/api/localsend/v2/register"

abbrev pub route_register_v1 : Bytes
route_register_v1 = codes "/api/localsend/v1/register"

abbrev pub route_prepare_upload : Bytes
route_prepare_upload = codes "/api/localsend/v2/prepare-upload"

abbrev pub route_prepare_upload_v1 : Bytes
route_prepare_upload_v1 = codes "/api/localsend/v1/send-request"

abbrev pub route_upload : Bytes
route_upload = codes "/api/localsend/v2/upload"

abbrev pub route_upload_v1 : Bytes
route_upload_v1 = codes "/api/localsend/v1/send"

abbrev pub route_cancel : Bytes
route_cancel = codes "/api/localsend/v2/cancel"

abbrev pub route_cancel_v1 : Bytes
route_cancel_v1 = codes "/api/localsend/v1/cancel"

-- `request.path == path`
abbrev pub route_is : HttpRequest → Bytes → Bool
route_is request path = beq request.path path

-- `request.method == method` and one of the two paths
abbrev pub is_call : HttpRequest → Bytes → Bytes → Bytes → Bool
is_call request method path path_v1 =
    beq request.method method && (route_is request path || route_is request path_v1)

-- What a handler takes from outside: the peer, the clock, the random texts, whether a callback is set,
-- whether the file can be opened and written, and the readers of the JSON bodies.
pub record Surroundings : Type 0 where
  pub remote_ip : Bytes
  pub peer_fingerprint : Bytes
  pub now : ℕ
  pub session_id : Bytes
  pub token : ℕ → Bytes
  pub callback : Bool
  pub can_open : Bool
  pub writes_ok : Bool
  pub read_register : Bytes → Option InfoRegisterDto
  pub read_prepare_upload : Bytes → Bytes ⊎ PrepareUploadRequestDto

-- The response, the server behind it, and the device that the callback gets.
abbrev pub Answer : Type 0
Answer = HttpResponse × Server × Option Device

abbrev pub unchanged : Server → HttpResponse → Answer
unchanged s response = (response, s, none)

abbrev pub without_device : HttpResponse × Server → Answer
without_device r = (r.0, r.1, none)

unfoldable pub route : Surroundings → HttpRequest → Server → Answer
route w request s =
    let registered =
      handle_register (w.read_register request.body) w.callback w.remote_ip w.peer_fingerprint s in
    if is_call request (codes "GET") route_info route_info_v1
    then unchanged s (handle_info request s)
    else if is_call request (codes "POST") route_register route_register_v1
    then (registered.0, s, registered.1)
    else if is_call request (codes "POST") route_prepare_upload route_prepare_upload_v1
    then without_device (
        handle_prepare_upload w.now w.session_id w.token (route_is request route_prepare_upload)
          w.remote_ip w.peer_fingerprint (w.read_prepare_upload request.body) s)
    else if is_call request (codes "POST") route_upload route_upload_v1
    then unchanged s (text_response 400 (codes "upload route requires streaming handler"))
    else if is_call request (codes "POST") route_cancel route_cancel_v1
    then without_device (handle_cancel w.now request s)
    else unchanged s (text_response 404 (codes "not found"))

-- `headers` is what `parse_request_headers` gives: the request without its body, and the bytes behind
-- the headers that were read with them.
unfoldable pub handle_client :
    Surroundings → Option (HttpRequest × Bytes) → Stream → Server → Answer
handle_client w none stream s = unchanged s (text_response 400 (codes "bad request"))
handle_client w (some (request, initial_body)) stream s =
    let body = read_remaining_body initial_body request.content_length stream in
    if is_call request (codes "POST") route_upload route_upload_v1
    then without_device (
        handle_upload w.now w.can_open w.writes_ok (route_is request route_upload) request
          initial_body stream s)
    else elim body [
      | none ↦ unchanged s (text_response 400 (codes "bad request body"))
      | some read ↦ route w (record request { body = read }) s
    ]

-- A connection, from the first byte to the last.
pub record Connection : Type 0 where
  pub surroundings : Surroundings
  pub headers : Option (HttpRequest × Bytes)
  pub stream : Stream

-- The connections of a run, one after the other.
unfoldable pub serve : List Connection → Server → Server
serve [] s = s
serve (c ∷ cs) s = serve cs (handle_client c.surroundings c.headers c.stream s).1
