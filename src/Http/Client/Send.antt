-- ===== src/Http/Client/Send.antt =====
-- `send_files_http_detailed` of http.cpp. The answers of the peer, the progress of each upload, and each test of
-- the flag that cancels are arguments; the messages of `report_status` are left out.
use localsend_handheld.Prelude.{
  ℕ, ◌+◌, Bool, true, false, not, ◌&&◌, ◌||◌, List, [], ◌∷◌, ◌++◌, Option, none, some,
  if◌then◌else◌, Bytes, codes, is_empty,
}
use localsend_handheld.Prelude.Decimal.{int_to_string}
use localsend_handheld.Prelude.Map.{find, emplace}
use localsend_handheld.Prelude.Result.{Result, ok, err, out_of_fuel, ◌>>=◌}
use localsend_handheld.Json.{Numbers, as_object}
use localsend_handheld.Protocol.{Device, FileDto, InfoRegisterDto, PrepareUploadResponseDto}
use localsend_handheld.Protocol.Dto.{
  request_members, prepare_upload_response_from_json, read_tokens,
}
use localsend_handheld.Protocol.Sent.{write, read}
use localsend_handheld.Transfer.{TransferStore, cancel}
use localsend_handheld.Http.Url.{with_query}
use localsend_handheld.Http.Server.Route.{
  route_prepare_upload, route_prepare_upload_v1, route_upload, route_upload_v1, route_cancel,
}
use localsend_handheld.Http.Client.{
  HttpResult, HttpCall, call_to, has_status, resolve_send_target, target_uses_v2_api,
}
use localsend_handheld.Http.Client.Offers.{
  SendFilesResult, result_error, result_cancelled, result_ok, Source, Offer, compact_body,
  http_failure_detail, on_sent, on_transfers, completes, fails, report_upload, CheckedSources,
  check_sources, request_files,
}

-- The peer and the user: the answer to each call, or the exception of `parse_response`, with the progress of the upload in round `i`, and the tests of
-- the flag that cancels: once the files are checked, behind the answer to the request, and before and behind
-- each upload.
pub record Correspondent : Type 1 where
  pub now : ℕ
  pub numbers : Numbers
  pub request_raw : HttpCall → Result HttpResult
  pub post_file_raw : ℕ → HttpCall → FileDto → Result HttpResult × List ℕ
  pub cancel_at_start : Bool
  pub cancel_at_answer : Bool
  pub cancel_before : ℕ → Bool
  pub cancel_behind : ℕ → Bool

abbrev pub Sent : Type 0
Sent = Result SendFilesResult × Option TransferStore

-- An exception leaves the transfers as they are.
abbrev pub or_thrown {ℓ} : {A : Type ℓ} → Result A → (A → Sent) → Option TransferStore → Sent
or_thrown (ok a) rest t = rest a
or_thrown (err what) rest t = (err what, t)
or_thrown out_of_fuel rest t = (out_of_fuel, t)

module _ (w : Correspondent) where
  abbrev pub cancelled_send : List Offer → Option TransferStore → Sent
  cancelled_send offers t = (ok result_cancelled, on_transfers (cancel w.now) offers t)

  abbrev pub failed_send : Bytes → List Offer → Option TransferStore → Sent
  failed_send message offers t =
      (ok (result_error message), on_transfers (fails w.now message) offers t)

  abbrev pub upload_path : Bool → Bytes → FileDto → Bytes → Bytes
  upload_path v2 session_id file token =
      let query = emplace (codes "token") token (emplace (codes "fileId") file.id []) in
      if v2
      then with_query route_upload (emplace (codes "sessionId") session_id query)
      else with_query route_upload_v1 query

  abbrev pub upload_message : FileDto → HttpResult → Bytes
  upload_message file uploaded =
      codes "upload failed file="
      ++ (file.file_name
          ++ (codes " status="
              ++ (int_to_string uploaded.status
                  ++ (codes " body=" ++ http_failure_detail uploaded))))

  -- The end of a send: `first_error` is empty while no upload has failed.
  abbrev pub finish_uploads : Bool → Bytes → SendFilesResult
  finish_uploads true first_error = result_ok
  finish_uploads false first_error =
      result_error
        (if is_empty first_error then codes "one or more uploads failed" else first_error)

  abbrev pub cancel_call : Device → Bytes → HttpCall
  cancel_call target session_id =
      call_to target (codes "POST") (route_cancel ++ (codes "?sessionId=" ++ session_id)) []

  -- `send_cancel` and `cancel_transfers`: the answer is ignored, but it may throw.
  unfoldable pub cancelled_upload :
      Device → Bool → PrepareUploadResponseDto → List Offer → Option TransferStore → Sent
  cancelled_upload target v2 response all t =
      if not v2 || is_empty response.session_id
      then cancelled_send all t
      else or_thrown (w.request_raw (cancel_call target response.session_id))
          (λ answer. cancelled_send all t) t

  -- Round `i` of the loop, and those behind it; `all` are the offers of the send.
  unfoldable pub upload_files :
      Device
      → Bool
      → PrepareUploadResponseDto
      → List Offer
      → ℕ
      → List Offer
      → Bool
      → Bytes
      → Option TransferStore
      → Sent
  upload_files target v2 response all i [] all_uploaded first_error t =
      (ok (finish_uploads all_uploaded first_error), t)
  upload_files target v2 response all i (offer ∷ offers) all_uploaded first_error t =
      let skipped =
        upload_files target v2 response all (i + 1) offers all_uploaded first_error
          (on_sent (completes w.now) offer.transfer_id t) in
      elim (w.cancel_before i) [
        | true ↦ cancelled_upload target v2 response all t
        | false ↦ elim (find offer.file.id response.files) [
          | none ↦ skipped
          | some token ↦ elim offer.can_open [
            | false ↦ (
              ok (result_error (codes "failed to open source file: " ++ offer.file.file_name)),
              on_sent (fails w.now (codes "failed to open source file")) offer.transfer_id t,
            )
            | true ↦
                let path = upload_path v2 response.session_id offer.file token in
                let (result, progress) =
                  w.post_file_raw i (call_to target (codes "POST") path []) offer.file in
                let t1 = report_upload w.now offer.transfer_id progress t in
                or_thrown result
                  (λ uploaded. elim (w.cancel_behind i) as (λ b. Sent) [
                    | true ↦ cancelled_upload target v2 response all t1
                    | false ↦ elim (has_status 200 uploaded) as (λ b. Sent) [
                      | true ↦
                          upload_files target v2 response all (i + 1) offers all_uploaded
                            first_error (on_sent (completes w.now) offer.transfer_id t1)
                      | false ↦
                          upload_files target v2 response all (i + 1) offers false
                            (if is_empty first_error
                              then upload_message offer.file uploaded
                              else first_error)
                            (on_sent (fails w.now (upload_message offer.file uploaded))
                              offer.transfer_id t1)
                    ]
                  ])
                  t1
          ]
        ]
      ]

  unfoldable pub read_response : Bool → Bytes → Result PrepareUploadResponseDto
  read_response v2 body =
      if v2
      then read w.numbers (prepare_upload_response_from_json w.numbers) body
      else read w.numbers
          (λ json. do
            m ← as_object json
            tokens ← read_tokens w.numbers m []
            ok (record { session_id = []; files = tokens }))
          body

  -- What the code does with the answer to the request.
  unfoldable pub handle_prepared :
      Device → Bool → HttpResult → List Offer → Option TransferStore → Sent
  handle_prepared target v2 prepared offers t = elim (has_status 204 prepared) [
    | true ↦ (ok result_ok, on_transfers (completes w.now) offers t)
    | false ↦ elim (has_status 200 prepared) [
      | false ↦
          failed_send
            (codes "prepare-upload failed status="
              ++ (int_to_string prepared.status
                  ++ (codes " body=" ++ http_failure_detail prepared)))
            offers t
      | true ↦ elim (read_response v2 prepared.body) [
        | ok response ↦ elim (v2 && is_empty response.session_id) [
          | true ↦ failed_send (codes "prepare-upload response missing sessionId") offers t
          | false ↦ upload_files target v2 response offers 0 offers true [] t
        ]
        | err what ↦
            failed_send (codes "invalid prepare-upload response: " ++ compact_body prepared.body)
              offers t
        | out_of_fuel ↦
            failed_send (codes "invalid prepare-upload response: " ++ compact_body prepared.body)
              offers t
      ]
    ]
  ]

  abbrev pub prepare_call : Device → Bool → InfoRegisterDto → List Offer → HttpCall
  prepare_call target v2 self offers =
      call_to target (codes "POST") (if v2 then route_prepare_upload else route_prepare_upload_v1) (
        write w.numbers
          (request_members w.numbers (record { info = self; files = request_files offers [] })))

  -- Behind the answer to the request.
  abbrev pub take_answer :
      Bool → Device → Bool → List Offer → Option TransferStore → HttpResult → Sent
  take_answer true target v2 offers t prepared = cancelled_send offers t
  take_answer false target v2 offers t prepared = handle_prepared target v2 prepared offers t

  -- The request, once it is known which API to use.
  abbrev pub ask : Device → InfoRegisterDto → List Offer → Option TransferStore → Bool → Sent
  ask target self offers t v2 =
      or_thrown (w.request_raw (prepare_call target v2 self offers))
        (take_answer w.cancel_at_answer target v2 offers t) t

  -- From the checked files on.
  unfoldable pub send_checked : Device → InfoRegisterDto → CheckedSources → Sent
  send_checked target self checked = elim checked.failure [
    | some message ↦ (ok (result_error message), checked.store)
    | none ↦ elim w.cancel_at_start [
      | true ↦ cancelled_send checked.offers checked.store
      | false ↦
          or_thrown (target_uses_v2_api w.numbers w.request_raw target)
            (ask target self checked.offers checked.store) checked.store
    ]
  ]

  -- From the target on.
  abbrev pub send_to : List Source → InfoRegisterDto → Option TransferStore → Device → Sent
  send_to sources self t send_target =
      send_checked send_target self (check_sources w.now send_target 0 sources t)

  unfoldable pub send_files_http_detailed :
      Device → List Source → InfoRegisterDto → Option TransferStore → Sent
  send_files_http_detailed target [] self t = (ok (result_error (codes "no files selected")), t)
  send_files_http_detailed target (source ∷ sources) self t =
      or_thrown (resolve_send_target w.numbers w.request_raw target)
        (send_to (source ∷ sources) self t) t
