-- ===== src/Examples/Client.antt =====
-- Examples for the client of http.cpp.
use localsend_handheld.Prelude.{◌≡◌, refl, true, false, List, [], ◌∷◌, Bytes, codes, beq, blt}
use localsend_handheld.Prelude.Int.{pos}
use localsend_handheld.Protocol.{Device, default_device, desktop, device_type_from_string}
use localsend_handheld.Examples.Messages.{integers}
use localsend_handheld.Http.Client.{HttpResult, info_matches_target_identity, resolve_send_target}
use localsend_handheld.Http.Client.Offers.{Source}
use localsend_handheld.Http.Client.Send.{Correspondent}
use localsend_handheld.Protocol.Dto.{info_from_json, optional_string, optional_bool}
use localsend_handheld.Protocol.Sent.{read}
use localsend_handheld.Json.{at}
use localsend_handheld.Json.Parser.{parse, parse_value, parse_string, skip_ws, consume, finish}
use localsend_handheld.Json.Escape.{parse_chars}
use localsend_handheld.Prelude.Map.{find, emplace}
use localsend_handheld.Prelude.Result.{ok}
use localsend_handheld.Http.Client.Connect.{
  proves, connect_http_stream, IsTrusted, connect_http_stream-IsTrusted,
}
use localsend_handheld.Http.Client.Target.{IsResolved, resolve_send_target-IsResolved}

abbrev answered : Bytes → HttpResult
answered body = record { status = pos 200; body = body; error = [] }

-- A peer that gives a token for the first of the files.
abbrev surroundings : Correspondent
surroundings = record {
  now = 5;
  numbers = integers;
  request_raw = λ call. ok (answered (codes "{\"sessionId\":\"s\",\"files\":{\"0\":\"t\"}}"));
  post_file_raw = λ i call file. (ok (answered []), 1 ∷ 3 ∷ []);
  cancel_at_start = false;
  cancel_at_answer = false;
  cancel_before = λ i. false;
  cancel_behind = λ i. false;
}

abbrev peer : Device
peer = record default_device { ip = codes "10.0.0.9"; alias = codes "Phone" }

abbrev sources : List Source
sources =
    (record { file_name = codes "a.png"; is_readable = true; size = 3; can_open = true })
    ∷ (record { file_name = codes "b.txt"; is_readable = true; size = 4; can_open = true })
    ∷ []

-- A peer that is known by its alias, over TLS, and answers without.
abbrev secure_peer : Device
secure_peer = record peer { is_https = true; fingerprint = codes "AB" }

abbrev description : HttpResult
description = answered (codes "{\"alias\":\"Phone\",\"fingerprint\":\"\"}")

resolve_send_target-IsResolved_example :
    (found : Device) × (resolve_send_target integers (λ call. ok description) secure_peer
      ≡ ok found)
    × IsResolved integers description secure_peer found
resolve_send_target-IsResolved_example =
    resolve_send_target-IsResolved integers (λ call. ok description) secure_peer description refl

gives_up_tls :
    resolve_send_target integers (λ call. ok description) secure_peer
    ≡ ok (record secure_peer {
      is_https = false;
      fingerprint = [];
      version = codes "2.1";
      device_model = codes "Unknown";
      device_type = desktop;
      download = false;
    })
unfolding resolve_send_target info_matches_target_identity info_from_json optional_string
    optional_bool device_type_from_string read parse parse_value parse_chars parse_string skip_ws
    consume finish at find emplace beq blt
gives_up_tls = refl

connect_http_stream-IsTrusted_example :
    IsTrusted true
      (proves (codes "ab"))
      (codes "AB")
      (connect_http_stream true true (proves (codes "ab")) true (codes "AB"))
connect_http_stream-IsTrusted_example =
    connect_http_stream-IsTrusted true true (proves (codes "ab")) true (codes "AB")
