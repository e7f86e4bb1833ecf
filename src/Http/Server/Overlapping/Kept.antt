-- ===== src/Http/Server/Overlapping/Kept.antt =====
-- What connections of http.cpp that overlap may change: the inbox, and sessions that were cancelled.
use localsend_handheld.Prelude.{
  joined, ℕ, ◌≡◌, refl, subst, true, false, List, [], ◌∷◌, Option, none, some, Bytes, length,
  get_elem?, All, All-set_at, All-remove_at, All-get_elem?,
}
use localsend_handheld.Http.Server.{HttpRequest, Server}
use localsend_handheld.Http.Server.Upload.{Checked, rejected, accepted, check_upload}
use localsend_handheld.Http.Server.Confined.{
  Inside, IsConfined, Keeps, stays, followed, AcceptedInside, check_upload-Inside,
}
use localsend_handheld.Http.Server.Inbox.{
  on_transfer-Keeps, report_progress-Keeps, insert-Keeps, erase-Keeps, judge_upload-Keeps,
  handle_client-Keeps,
}
use localsend_handheld.Http.Server.Overlapping.{
  Upload, Live, leave, Action, opens, writes, ends, act, Event, answers, checks, acts, start,
  act_on, take_event, run_overlapping,
}

-- The upload goes to a file directly in the inbox, under a safe name.
abbrev pub UploadInside : Bytes → Upload → Type 0
UploadInside inbox u = Inside inbox u.checked.destination

-- What steps may do to the server, while all uploads stay inside.
pub record LiveKeeps (s : Server) (l : Live) : Type 0 where
  pub server : Keeps s l.server
  pub uploads : All (UploadInside s.inbox) l.uploads

leave-Keeps :
    (path : Bytes) (left : Option Bytes) (s t : Server)
    → Inside s.inbox path
    → Keeps s t
    → Keeps s (leave path left t)
leave-Keeps path none s t inside h = erase-Keeps path s t inside h
leave-Keeps path (some bytes) s t inside h = insert-Keeps path bytes s t inside h

act-LiveKeeps :
    (action : Action) (i : ℕ) (u : Upload) (out : Option (List Bytes)) (s : Server) (l : Live)
    → UploadInside s.inbox u
    → LiveKeeps s l
    → LiveKeeps s (act action i u out l)
unfolding act
act-LiveKeeps (opens now true) i u none s l inside h = record {
  server = leave-Keeps u.checked.destination (some []) s l.server inside h.server;
  uploads = All-set_at (UploadInside s.inbox) i _ l.uploads inside h.uploads;
}
act-LiveKeeps (opens now false) i u none s l inside h = record {
  server = on_transfer-Keeps u.checked.transfer_id _ s l.server h.server;
  uploads = All-remove_at (UploadInside s.inbox) i l.uploads h.uploads;
}
act-LiveKeeps (opens now can_open) i u (some out) s l inside h = h
act-LiveKeeps (writes now chunk left) i u none s l inside h = h
act-LiveKeeps (writes now chunk left) i u (some out) s l inside h = record {
  server =
      report_progress-Keeps now u.checked.transfer_id (length (joined out)) (chunk ∷ []) s _
        (leave-Keeps u.checked.destination left s l.server inside h.server);
  uploads = All-set_at (UploadInside s.inbox) i _ l.uploads inside h.uploads;
}
act-LiveKeeps (ends now writes_ok complete left) i u none s l inside h = h
act-LiveKeeps (ends now writes_ok complete left) i u (some out) s l inside h = record {
  server =
      judge_upload-Keeps now writes_ok u.request u.checked _ s _ inside
        (leave-Keeps u.checked.destination left s l.server inside h.server);
  uploads = All-remove_at (UploadInside s.inbox) i l.uploads h.uploads;
}

start-LiveKeeps :
    (request : HttpRequest) (c : Checked) (s : Server) (l : Live)
    → AcceptedInside s.inbox c
    → LiveKeeps s l
    → LiveKeeps s (start request c l)
start-LiveKeeps request (rejected response) s l inside h = h
start-LiveKeeps request (accepted a) s l inside h = record {
  server = h.server;
  uploads = (inside, h.uploads);
}

act_on-LiveKeeps :
    (action : Action) (i : ℕ) (u : Option Upload) (s : Server) (l : Live)
    → ((found : Upload) → u ≡ some found → UploadInside s.inbox found)
    → LiveKeeps s l
    → LiveKeeps s (act_on action i u l)
act_on-LiveKeeps action i none s l inside h = h
act_on-LiveKeeps action i (some u) s l inside h =
    act-LiveKeeps action i u u.writes s l (inside u refl) h

take_event-LiveKeeps :
    (e : Event) (s : Server) (l : Live) → LiveKeeps s l → LiveKeeps s (take_event e l)
unfolding take_event
take_event-LiveKeeps (answers c) s l h = record {
  server =
      followed s l.server _ h.server
        (handle_client-Keeps c.surroundings c.headers c.stream l.server h.server.confined);
  uploads = h.uploads;
}
take_event-LiveKeeps (checks v2 request) s l h =
    start-LiveKeeps request (check_upload v2 request l.server) s l
      (subst (λ inbox. AcceptedInside inbox (check_upload v2 request l.server)) h.server.inbox
        (check_upload-Inside v2 request l.server h.server.confined))
      h
take_event-LiveKeeps (acts i action) s l h =
    act_on-LiveKeeps action i (get_elem? l.uploads i) s l
      (λ found e. All-get_elem? (UploadInside s.inbox) i found l.uploads h.uploads e) h

run_overlapping-kept :
    (events : List Event) (s : Server) (l : Live)
    → LiveKeeps s l
    → LiveKeeps s (run_overlapping events l)
unfolding run_overlapping
run_overlapping-kept [] s l h = h
run_overlapping-kept (e ∷ es) s l h =
    run_overlapping-kept es s (take_event e l) (take_event-LiveKeeps e s l h)

-- From a server whose sessions hold destinations inside the inbox only, however the steps of connections and uploads
-- overlap and whatever the file system makes of streams on one file: the inbox stays what it is, the sessions hold
-- such destinations again, as do the uploads that are at work, and the content of the file system differs at most at
-- paths `inbox / name` with a safe name.
pub run_overlapping-LiveKeeps :
    (events : List Event) (s : Server)
    → IsConfined s
    → LiveKeeps s (run_overlapping events (record { server = s; uploads = [] }))
run_overlapping-LiveKeeps events s h =
    run_overlapping-kept events s _ (record { server = stays s h; uploads = tt })
