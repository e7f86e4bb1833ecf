-- ===== src/Http/Connection.antt =====
-- A connection to the server of http.cpp from its bytes on: `handle_client` with the parsed headers and the readers
-- of JSON bodies that the code uses.
pub mod Offered
pub mod Uploaded
use localsend_handheld.Prelude.{◌⊎◌, inl, inr, [], ◌∷◌, Option, none, some, Bytes}
use localsend_handheld.Prelude.Result.{Result, ok, err, out_of_fuel, ◌>>=◌}
use localsend_handheld.Json.{Numbers}
use localsend_handheld.Protocol.Dto.{info_register_from_json, prepare_upload_request_from_json}
use localsend_handheld.Protocol.Sent.{read}
use localsend_handheld.Http.Stream.{Stream}
use localsend_handheld.Http.Server.{HttpRequest, Server}
use localsend_handheld.Http.Server.Route.{Surroundings, Answer, handle_client}
use localsend_handheld.Http.Headers.Request.{parse_request_headers}

-- `catch (const std::exception&)`, and the same with the text of the exception.
abbrev pub caught {ℓ} : {A : Type ℓ} → Result A → Option A
caught (ok a) = some a
caught (err what) = none
caught out_of_fuel = none

abbrev pub caught_text {ℓ} : {A : Type ℓ} → Result A → Bytes ⊎ A
caught_text (ok a) = inr a
caught_text (err what) = inl what
caught_text out_of_fuel = inl []

abbrev pub with_readers : Numbers → Surroundings → Surroundings
with_readers n w = record w {
  read_register = λ body. caught (read n (info_register_from_json n) body);
  read_prepare_upload = λ body. caught_text (read n (prepare_upload_request_from_json n) body);
}

abbrev pub handle_parsed : Surroundings → Option (HttpRequest × Bytes × Stream) → Server → Answer
handle_parsed w none s = handle_client w none [] s
handle_parsed w (some (request, initial_body, stream)) s =
    handle_client w (some (request, initial_body)) stream s

-- An error is the exception of `content_length`, which nothing catches.
unfoldable pub handle_connection : Numbers → Surroundings → Stream → Server → Result Answer
handle_connection n w stream s = do
  parsed ← parse_request_headers stream
  ok (handle_parsed (with_readers n w) parsed s)
