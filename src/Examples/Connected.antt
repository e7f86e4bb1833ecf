-- ===== src/Examples/Connected.antt =====
-- An example for a connection to the server of http.cpp, from the client's data on.
use localsend_handheld.Prelude.{
  ◌≡◌, ◌≤◌, ◌+◌, ◌*◌, ℕ, sym, ap, subst, ◌∙◌, refl, true, inr, [], ◌∷◌, ◌++◌, Bytes, codes, arith,
  length, beq, blt,
}
use localsend_handheld.Prelude.Decimal.{to_string, int_to_string, value_from}
use localsend_handheld.Prelude.Int.{pos}
use localsend_handheld.Prelude.Map.{insert}
use localsend_handheld.Prelude.Result.{ok}
use localsend_handheld.Json.Dump.{dump, dump_number}
use localsend_handheld.Json.Escape.{json_escape, escape_byte}
use localsend_handheld.Protocol.Dto.{
  request_members, register_members, info_members, file_members, put_files, put_if_not_empty,
}
use localsend_handheld.Protocol.{PrepareUploadRequestDto}
use mathlib.Core.List.{append-nil}
use localsend_handheld.Protocol.Request.{arriving_request}
use localsend_handheld.Protocol.Sent.{write}
use localsend_handheld.Http.Stream.{Stream}
use localsend_handheld.Http.Stream.Body.{arrived, arrived_filled}
use localsend_handheld.Http.Server.{handle_prepare_upload}
use localsend_handheld.Http.Server.Route.{without_device, route_prepare_upload}
use localsend_handheld.Http.Headers.Request.{request_head, request_text}
use localsend_handheld.Http.Connection.{handle_connection}
use localsend_handheld.Http.Connection.Offered.{handle_connection-request}
use localsend_handheld.Examples.Messages.{integers, offer}
use localsend_handheld.Examples.Server.{one_session, surroundings}

abbrev small_offer : PrepareUploadRequestDto
small_offer = record offer {
  files =
      (
        codes "0",
        record {
          id = codes "0";
          file_name = codes "a";
          size = 3;
          file_type = codes "t";
          hash = [];
          preview = [];
        },
      )
      ∷ [];
}

abbrev sent_body : Bytes
sent_body = write integers (request_members integers small_offer)

abbrev sent_head : ℕ → Bytes
sent_head size =
    request_head (codes "POST") route_prepare_upload (codes "h") (pos 80) size (codes "t")

-- The headers and the body arrive one after the other.
abbrev pieces : Stream
pieces = sent_head (length sent_body) ∷ sent_body ∷ []

arrived_one : (s : Bytes) → arrived (s ∷ []) ≡ s
arrived_one [] = refl
arrived_one (c ∷ s) = append-nil (c ∷ s)

pieces-arrived :
    arrived pieces
    ≡ request_text (codes "POST") route_prepare_upload (codes "h") (pos 80) (codes "t") sent_body
unfolding request_text
pieces-arrived =
    arrived_filled (sent_head (length sent_body)) (sent_body ∷ [])
      (unfold request_head in omega arith)
    ∙ ap (λ s. sent_head (length sent_body) ++ s) (arrived_one sent_body)

body_length : length sent_body ≡ 214
unfolding write dump dump_number request_members register_members info_members put_files
    file_members put_if_not_empty insert beq blt json_escape escape_byte int_to_string to_string
body_length = refl

head_small : length (sent_head (length sent_body)) + 4096 ≤ 1024 * 1024
unfolding request_head int_to_string to_string
head_small =
    let at_length : length (sent_head 214) + 4096 ≤ 1024 * 1024 = omega arith in
    subst (λ k. length (sent_head k) + 4096 ≤ 1024 * 1024) (sym body_length) at_length

handle_connection-request_example :
    handle_connection integers surroundings pieces one_session
    ≡ ok (
        without_device (
          handle_prepare_upload surroundings.now surroundings.session_id surroundings.token true
            surroundings.remote_ip surroundings.peer_fingerprint
            (inr (arriving_request integers small_offer))
            one_session))
unfolding int_to_string to_string value_from
handle_connection-request_example =
    handle_connection-request integers surroundings small_offer (codes "h") (pos 80) (codes "t")
      pieces one_session (omega arith) ((refl, refl), refl) (tt, tt)
      ((omega arith, ((refl, refl), refl)), tt) refl refl (omega (arith, body_length)) head_small
      pieces-arrived
