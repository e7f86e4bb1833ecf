-- ===== src/Http/Server/Inbox.antt =====
-- Where the server of http.cpp writes: uploads, and whole runs of connections.
use localsend_handheld.Prelude.{
  joined, ℕ, ◌+◌, ◌≡◌, ◌∙◌, subst, Bool, true, false, not, ◌&&◌, inl, inr, List, [], ◌∷◌, Option,
  none, some, arith, Bytes, codes, Bool-cases, ◌==◌, beq, beq_iff, length,
}
use localsend_handheld.Prelude.Map.{
  find, insert, erase, alter, find-insert, find-erase, AllValues-alter,
}
use localsend_handheld.Transfer.{TransferStore}
use localsend_handheld.Http.Stream.{Stream, read_remaining_body}
use localsend_handheld.Http.Chunked.{Received}
use localsend_handheld.Http.Server.{HttpRequest, HttpResponse, text_response, Session, Server}
use localsend_handheld.Http.Server.Upload.{
  Accepted, Checked, rejected, accepted, check_upload, on_transfer, report_progress, failed_upload,
  finish_upload, judge_upload, store_upload, handle_upload, mark_complete,
}
use localsend_handheld.Http.Server.Route.{
  Surroundings, Answer, unchanged, is_call, route_is, route, handle_client, Connection, serve,
  route_info, route_info_v1, route_register, route_register_v1, route_prepare_upload,
  route_prepare_upload_v1, route_upload, route_upload_v1, route_cancel, route_cancel_v1,
}
use localsend_handheld.Http.Server.Confined.{
  Inside, FileInside, SessionInside, IsConfined, Keeps, stays, followed, AcceptedInside,
  handle_prepare_upload-Keeps, handle_cancel-Keeps, check_upload-Inside,
}

pub on_transfer-Keeps :
    (id : ℕ) (f : TransferStore → TransferStore) (s t : Server)
    → Keeps s t
    → Keeps s (on_transfer id f t)
on_transfer-Keeps id f s t h = elim (Bool-cases (id == 0)) [
  | inl e ↦ rw e h
  | inr e ↦ rw e (record { inbox = h.inbox; confined = h.confined; disk = h.disk })
]

pub report_progress-Keeps :
    (now id written : ℕ) (chunks : List Bytes) (s t : Server)
    → Keeps s t
    → Keeps s (report_progress now id written chunks t)
unfolding report_progress
report_progress-Keeps now id written [] s t h = h
report_progress-Keeps now id written (chunk ∷ chunks) s t h =
    report_progress-Keeps now id (written + length chunk) chunks s _ (on_transfer-Keeps id _ s t h)

-- A write to a path inside, and a removal.
pub insert-Keeps :
    (path bytes : Bytes) (s t : Server)
    → Inside s.inbox path
    → Keeps s t
    → Keeps s (record t { disk = insert path bytes t.disk })
insert-Keeps path bytes s t inside h = record {
  inbox = h.inbox;
  confined = h.confined;
  disk = λ other. elim (Bool-cases (beq path other)) [
    | inl e ↦ inr (subst (Inside s.inbox) ((beq_iff path other).0 e) inside)
    | inr e ↦
        let same : find other (insert path bytes t.disk) ≡ find other t.disk =
          ground (arith, find-insert path other bytes t.disk) in
        elim (h.disk other) [ inl before ↦ inl (same ∙ before) | inr i ↦ inr i ]
  ];
}

pub erase-Keeps :
    (path : Bytes) (s t : Server)
    → Inside s.inbox path
    → Keeps s t
    → Keeps s (record t { disk = erase path t.disk })
erase-Keeps path s t inside h = record {
  inbox = h.inbox;
  confined = h.confined;
  disk = λ other. elim (Bool-cases (beq path other)) [
    | inl e ↦ inr (subst (Inside s.inbox) ((beq_iff path other).0 e) inside)
    | inr e ↦
        let same : find other (erase path t.disk) ≡ find other t.disk =
          ground (arith, find-erase path other t.disk) in
        elim (h.disk other) [ inl before ↦ inl (same ∙ before) | inr i ↦ inr i ]
  ];
}

failed_upload-Keeps :
    (now : ℕ) (a : Accepted) (status : ℕ) (message : Bytes) (s t : Server)
    → Inside s.inbox a.destination
    → Keeps s t
    → Keeps s (failed_upload now a status message t).1
unfolding failed_upload
failed_upload-Keeps now a status message s t inside h =
    on_transfer-Keeps a.transfer_id _ s _ (erase-Keeps a.destination s t inside h)

mark_complete-Inside :
    (inbox file_id : Bytes) (session : Session)
    → SessionInside inbox session
    → SessionInside inbox (record session { files = alter mark_complete file_id session.files })
mark_complete-Inside inbox file_id session h =
    AllValues-alter (FileInside inbox) mark_complete file_id session.files (λ v k. k) h

finish_upload-Keeps :
    (now : ℕ) (a : Accepted) (s t : Server) → Keeps s t → Keeps s (finish_upload now a t).1
unfolding finish_upload
finish_upload-Keeps now a s t h =
    let done = on_transfer-Keeps a.transfer_id _ s t h in
    record {
      inbox = done.inbox;
      confined =
          AllValues-alter (SessionInside _) _ a.session_id _ (mark_complete-Inside _ a.file_id)
            done.confined;
      disk = done.disk;
    }

pub judge_upload-Keeps :
    (now : ℕ) (writes_ok : Bool) (request : HttpRequest) (a : Accepted) (received : Received)
    (s t : Server)
    → Inside s.inbox a.destination
    → Keeps s t
    → Keeps s (judge_upload now writes_ok request a received t).1
unfolding judge_upload
judge_upload-Keeps now writes_ok request a received s t inside h =
    let failed =
      λ (status : ℕ) (message : Bytes). failed_upload-Keeps now a status message s t inside h in
    let written = length (joined received.writes) in
    elim (Bool-cases (not received.complete)) [
      | inl e ↦ rw e (failed 400 (codes "incomplete upload"))
      | inr e ↦ elim (Bool-cases (not (written == request.content_length) && not request.chunked)) [
        | inl e2 ↦ rw (e, e2) (failed 400 (codes "incomplete upload"))
        | inr e2 ↦ elim (Bool-cases (request.chunked && not (written == a.expected_size))) [
          | inl e3 ↦ rw (e, e2, e3) (failed 400 (codes "file size mismatch"))
          | inr e3 ↦ elim (Bool-cases (not writes_ok)) [
            | inl e4 ↦ rw (e, e2, e3, e4) (failed 500 (codes "failed to write destination"))
            | inr e4 ↦ rw (e, e2, e3, e4) (finish_upload-Keeps now a s t h)
          ]
        ]
      ]
    ]

store_upload-Keeps :
    (now : ℕ) (can_open writes_ok : Bool) (request : HttpRequest) (initial_body : Bytes)
    (stream : Stream) (a : Accepted) (s : Server)
    → Inside s.inbox a.destination
    → IsConfined s
    → Keeps s (store_upload now can_open writes_ok request initial_body stream a s).1
unfolding store_upload
store_upload-Keeps now false writes_ok request initial_body stream a s inside h =
    on_transfer-Keeps a.transfer_id _ s s (stays s h)
store_upload-Keeps now true writes_ok request initial_body stream a s inside h =
    judge_upload-Keeps now writes_ok request a _ s _ inside (
      report_progress-Keeps now a.transfer_id 0 _ s _
        (insert-Keeps a.destination _ s s inside (stays s h)))

handle_upload-Keeps :
    (now : ℕ) (can_open writes_ok v2 : Bool) (request : HttpRequest) (initial_body : Bytes)
    (stream : Stream) (s : Server)
    → IsConfined s
    → Keeps s (handle_upload now can_open writes_ok v2 request initial_body stream s).1
unfolding handle_upload
handle_upload-Keeps now can_open writes_ok v2 request initial_body stream s h =
    kept (check_upload v2 request s) (check_upload-Inside v2 request s h)
  where
    kept :
        (c : Checked)
        → AcceptedInside s.inbox c
        → Keeps s
            (elim c as (λ c. HttpResponse × Server) [
              | rejected response ↦ (response, s)
              | accepted a ↦ store_upload now can_open writes_ok request initial_body stream a s
            ]).1
    kept (rejected response) inside = stays s h
    kept (accepted a) inside =
        store_upload-Keeps now can_open writes_ok request initial_body stream a s inside h

route-Keeps :
    (w : Surroundings) (request : HttpRequest) (s : Server)
    → IsConfined s
    → Keeps s (route w request s).1
unfolding route
route-Keeps w request s h =
    elim (Bool-cases (is_call request (codes "GET") route_info route_info_v1)) [
      | inl e ↦ rw e (stays s h)
      | inr e ↦
          elim (Bool-cases (is_call request (codes "POST") route_register route_register_v1)) [
            | inl e2 ↦ rw (e, e2) (stays s h)
            | inr e2 ↦
                elim (Bool-cases
                  (is_call request (codes "POST") route_prepare_upload route_prepare_upload_v1)) [
                    | inl e3 ↦
                        rw (e, e2, e3)
                          (handle_prepare_upload-Keeps w.now w.session_id w.token
                            (route_is request route_prepare_upload) w.remote_ip w.peer_fingerprint
                            (w.read_prepare_upload request.body) s h)
                    | inr e3 ↦
                        elim (Bool-cases
                          (is_call request (codes "POST") route_upload route_upload_v1)) [
                            | inl e4 ↦ rw (e, e2, e3, e4) (stays s h)
                            | inr e4 ↦
                                elim (Bool-cases
                                  (is_call request (codes "POST") route_cancel route_cancel_v1)) [
                                    | inl e5 ↦
                                        rw (e, e2, e3, e4, e5)
                                          (handle_cancel-Keeps w.now request s h)
                                    | inr e5 ↦ rw (e, e2, e3, e4, e5) (stays s h)
                                  ]
                          ]
                  ]
          ]
    ]

pub handle_client-Keeps :
    (w : Surroundings) (headers : Option (HttpRequest × Bytes)) (stream : Stream) (s : Server)
    → IsConfined s
    → Keeps s (handle_client w headers stream s).1
unfolding handle_client
handle_client-Keeps w none stream s h = stays s h
handle_client-Keeps w (some (request, initial_body)) stream s h =
    elim (Bool-cases (is_call request (codes "POST") route_upload route_upload_v1)) [
      | inl e ↦ rw e (
          handle_upload-Keeps w.now w.can_open w.writes_ok (route_is request route_upload) request
            initial_body stream s h)
      | inr e ↦ rw e (kept (read_remaining_body initial_body request.content_length stream))
    ]
  where
    kept :
        (body : Option Bytes)
        → Keeps s
            (elim body as (λ b. Answer) [
              | none ↦ unchanged s (text_response 400 (codes "bad request body"))
              | some read ↦ route w (record request { body = read }) s
            ]).1
    kept none = stays s h
    kept (some read) = route-Keeps w (record request { body = read }) s h

-- From a server whose sessions hold destinations inside the inbox only, whatever connections come,
-- whatever they send and whatever the file system answers: the inbox stays what it is, the sessions hold such
-- destinations again, and the content of the file system differs at most at paths
-- `inbox / name` with a safe name.
pub serve-Keeps :
    (connections : List Connection) (s : Server) → IsConfined s → Keeps s (serve connections s)
unfolding serve
serve-Keeps [] s h = stays s h
serve-Keeps (c ∷ cs) s h =
    let one = handle_client-Keeps c.surroundings c.headers c.stream s h in
    followed s _ _ one (serve-Keeps cs _ one.confined)
