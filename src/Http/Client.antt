-- ===== src/Http/Client.antt =====
-- The client of src/core/http.cpp: what it asks of a peer and how it picks the transport and the API.
pub mod Offers
pub mod Send
pub mod Settled
pub mod Ended
pub mod Success
pub mod Target
pub mod Connect
pub mod Post
use localsend_handheld.Prelude.{
  ℕ, Bool, true, false, not, ◌&&◌, [], if◌then◌else◌, Bytes, codes, is_empty, beq, lower_ascii,
}
use localsend_handheld.Prelude.Int.{ℤ, pos, int_eq}
use localsend_handheld.Prelude.Result.{Result, ok, err, out_of_fuel, ◌>>=◌}
use localsend_handheld.Json.{Numbers}
use localsend_handheld.Protocol.{Device, InfoDto}
use localsend_handheld.Protocol.Dto.{info_from_json}
use localsend_handheld.Protocol.Sent.{read}
use localsend_handheld.Http.Server.Route.{route_info, route_info_v1}

pub record HttpResult : Type 0 where
  pub status : ℤ
  pub body : Bytes
  pub error : Bytes

-- The arguments of `request_raw` and of `post_file_raw` that the peer sees.
pub record HttpCall : Type 0 where
  pub host : Bytes
  pub port : ℤ
  pub use_tls : Bool
  pub expected_fingerprint : Bytes
  pub method : Bytes
  pub path : Bytes
  pub body : Bytes

abbrev pub has_status : ℕ → HttpResult → Bool
has_status status result = int_eq result.status (pos status)

-- A call that goes to a device as it is known.
abbrev pub call_to : Device → Bytes → Bytes → Bytes → HttpCall
call_to target method path body = record {
  host = target.ip;
  port = target.port;
  use_tls = target.is_https;
  expected_fingerprint = target.fingerprint;
  method = method;
  path = path;
  body = body;
}

unfoldable pub fingerprint_matches : Bytes → Bytes → Bool
fingerprint_matches actual expected =
    if is_empty expected then true else beq (lower_ascii actual) (lower_ascii expected)

unfoldable pub info_matches_target_identity : InfoDto → Device → Bool
info_matches_target_identity info target =
    if not (is_empty target.fingerprint) && beq info.fingerprint target.fingerprint
    then true
    else if not (is_empty target.alias) && beq info.alias target.alias
    then true
    else is_empty target.fingerprint && is_empty target.alias

-- `x.empty() ? old : x`
abbrev pub or_old : Bytes → Bytes → Bytes
or_old old x = if is_empty x then old else x

abbrev pub downgraded : InfoDto → Device → Device
downgraded info target = record target {
  is_https = false;
  version = or_old target.version info.version;
  fingerprint = info.fingerprint;
  alias = or_old target.alias info.alias;
  device_model = or_old target.device_model info.device_model;
  device_type = info.device_type;
  download = info.download;
}

-- What the body of an answer to `/info` makes of the target.
abbrev pub take_info : Device → Result InfoDto → Device
take_info target (ok info) =
    if info_matches_target_identity info target then downgraded info target else target
take_info target (err what) = target
take_info target out_of_fuel = target

-- The call of `resolve_send_target`, without TLS.
abbrev pub plain_info_call : Device → HttpCall
plain_info_call target = record (call_to target (codes "GET") route_info []) {
  use_tls = false;
  expected_fingerprint = [];
}

-- `request_raw` throws on an answer whose `Content-Length` is no number or too large (`parse_response`).
module _ (n : Numbers) (request_raw : HttpCall → Result HttpResult) where
  unfoldable pub response_version_is_legacy_v1 : Bytes → Bool
  response_version_is_legacy_v1 body = elim (read n info_from_json body) [
    | ok info ↦ beq info.version (codes "1.0")
    | err what ↦ false
    | out_of_fuel ↦ false
  ]

  abbrev pub is_v2_info : HttpResult → Bool
  is_v2_info info = not (response_version_is_legacy_v1 info.body)

  unfoldable pub target_uses_v2_api : Device → Result Bool
  target_uses_v2_api target =
      if beq target.version (codes "1.0")
      then ok false
      else if not (is_empty target.version)
      then ok true
      else do
        v2_info ← request_raw (call_to target (codes "GET") route_info [])
        if has_status 200 v2_info then ok (is_v2_info v2_info) else do
          v1_info ← request_raw (call_to target (codes "GET") route_info_v1 [])
          ok (if has_status 200 v1_info then is_v2_info v1_info else true)

  abbrev pub answered_target : Device → HttpResult → Device
  answered_target target http_info =
      if not (has_status 200 http_info)
      then target
      else take_info target (read n info_from_json http_info.body)

  unfoldable pub resolve_send_target : Device → Result Device
  resolve_send_target target = if not target.is_https then ok target else do
    http_info ← request_raw (plain_info_call target)
    ok (answered_target target http_info)
