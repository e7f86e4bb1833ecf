-- ===== src/Http/Server/Stored.antt =====
-- What an upload with a length leaves in the file system (`handle_upload` of http.cpp).
use localsend_handheld.Prelude.{
  joined, ℕ, ◌+◌, ◌≤◌, ◌≡◌, refl, sym, ap, ◌∙◌, subst, Bool, true, false, inl, inr, List, [], ◌∷◌,
  ◌++◌, none, some, arith, leb, Bytes, codes, Bool-cases, ◌==◌, beq_iff, length, take, length-take,
}
use localsend_handheld.Prelude.Map.{find, insert, erase, find-insert, find-erase}
use localsend_handheld.Transfer.{TransferStore, set_status, fail, completed}
use localsend_handheld.Http.Stream.{Stream}
use localsend_handheld.Http.Stream.Body.{arrived}
use localsend_handheld.Http.Chunked.{Received}
use localsend_handheld.Http.Server.{HttpRequest, HttpResponse, Server}
use localsend_handheld.Http.Server.Upload.{
  Accepted, accepted, check_upload, on_transfer, report_progress, failed_upload, finish_upload,
  judge_upload, store_upload, handle_upload, receive_body,
}
use localsend_handheld.Http.Server.Written.{Takes, receive_body-Takes}

-- Reports change the transfers alone.
on_transfer-disk :
    (id : ℕ) (f : TransferStore → TransferStore) (s : Server) → (on_transfer id f s).disk ≡ s.disk
on_transfer-disk id f s = ground arith

report_progress-disk :
    (now id written : ℕ) (chunks : List Bytes) (s : Server)
    → (report_progress now id written chunks s).disk ≡ s.disk
unfolding report_progress
report_progress-disk now id written [] s = refl
report_progress-disk now id written (chunk ∷ chunks) s =
    report_progress-disk now id (written + length chunk) chunks _ ∙ on_transfer-disk id _ s

-- What an upload answers and leaves at its destination.
abbrev pub Outcome : Bool → Bytes → Bytes → HttpResponse × Server → Type 0
Outcome true path bytes (response, s) = (response.status ≡ 200) × (find path s.disk ≡ some bytes)
Outcome false path bytes (response, s) = (response.status ≡ 400) × (find path s.disk ≡ none)

judge_upload-Outcome :
    (now : ℕ) (request : HttpRequest) (a : Accepted) (received : Received) (bytes : Bytes)
    (s : Server)
    → request.chunked ≡ false
    → Takes request.content_length [] bytes received
    → find a.destination s.disk ≡ some (joined received.writes)
    → Outcome
        (leb request.content_length (length bytes))
        a.destination
        (take request.content_length bytes)
        (judge_upload now true request a received s)
unfolding judge_upload failed_upload finish_upload
judge_upload-Outcome now request a received bytes s plain (taken, complete) stored =
    elim (Bool-cases (leb request.content_length (length bytes))) [
      | inl e ↦
          let all_there : (length (joined received.writes) == request.content_length) ≡ true =
            ground (arith, ap length taken, length-take request.content_length bytes) in
          let done : received.complete ≡ true = complete ∙ e in
          rw (e, done, plain, all_there)
            (
              refl,
              ap (find a.destination) (
                    on_transfer-disk a.transfer_id
                      (λ t. (set_status now a.transfer_id completed t).0) s)
                  ∙ (stored ∙ ap some taken),
            )
      | inr e ↦
          let failed : received.complete ≡ false = complete ∙ e in
          rw (e, failed)
            (
              refl,
              ap (find a.destination) (
                    on_transfer-disk a.transfer_id
                      (λ t. (fail now a.transfer_id (codes "incomplete upload") t).0)
                      (record s { disk = erase a.destination s.disk }))
                  ∙ ground (
                    arith,
                    find-erase a.destination a.destination s.disk,
                    beq_iff a.destination a.destination,
                  ),
            )
    ]

-- An upload with a length that passes the checks, to a file that can be opened and written: if as many bytes
-- arrive, those behind the headers included, the answer is 200 and the destination holds exactly the first
-- `content_length` of them, in whatever segments they come; if fewer arrive, the answer is 400 and nothing is
-- left at the destination.
pub handle_upload-Outcome :
    (now : ℕ) (v2 : Bool) (request : HttpRequest) (initial_body : Bytes) (stream : Stream)
    (s : Server) (a : Accepted)
    → check_upload v2 request s ≡ accepted a
    → request.chunked ≡ false
    → length initial_body ≤ request.content_length
    → Outcome
        (leb request.content_length (length (initial_body ++ arrived stream)))
        a.destination
        (take request.content_length (initial_body ++ arrived stream))
        (handle_upload now true true v2 request initial_body stream s)
unfolding handle_upload store_upload
handle_upload-Outcome now v2 request initial_body stream s a checked plain fits =
    let received = receive_body request initial_body stream in
    let written : Server = record s {
      disk = insert a.destination (joined received.writes) s.disk;
    } in
    let bytes = initial_body ++ arrived stream in
    let told = report_progress now a.transfer_id 0 received.writes written in
    let same : handle_upload now true true v2 request initial_body stream s
        ≡ judge_upload now true request a received told =
      ground arith in
    let stored : find a.destination told.disk ≡ some (joined received.writes) =
      ap (find a.destination) (report_progress-disk now a.transfer_id 0 received.writes written)
      ∙ ground (
        arith,
        find-insert a.destination a.destination (joined received.writes) s.disk,
        beq_iff a.destination a.destination,
      ) in
    subst
      (Outcome (leb request.content_length (length bytes)) a.destination
        (take request.content_length bytes))
      (sym same)
      (judge_upload-Outcome now request a received bytes told plain
        (receive_body-Takes request initial_body stream plain fits) stored)
