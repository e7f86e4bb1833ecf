-- ===== src/Http/Server/Overlapping.antt =====
-- Connections of http.cpp that overlap: `accept_loop` starts a thread for each, and the lock is free while the body of
-- an upload is received. An upload is a sequence of steps here, with steps of other connections in between.
pub mod Kept
pub mod Revived
use localsend_handheld.Prelude.{
  joined, ℕ, ◌+◌, Bool, true, false, List, [], ◌∷◌, ◌++◌, Option, none, some, Bytes, codes, length,
  get_elem?, set_at, remove_at,
}
use localsend_handheld.Prelude.Map.{Map, insert, erase}
use localsend_handheld.Transfer.{fail}
use localsend_handheld.Http.Chunked.{Received}
use localsend_handheld.Http.Server.{HttpRequest, Server}
use localsend_handheld.Http.Server.Upload.{
  Accepted, Checked, rejected, accepted, check_upload, on_transfer, report_progress, judge_upload,
}
use localsend_handheld.Http.Server.Route.{Connection, handle_client}

-- An upload that was let through: before its destination is opened there are no writes, then those done so far.
pub record Upload : Type 0 where
  pub request : HttpRequest
  pub checked : Accepted
  pub writes : Option (List Bytes)

-- The server, and the uploads whose threads are at work, the newest first.
pub record Live : Type 0 where
  pub server : Server
  pub uploads : List Upload

-- What the file system leaves at a path when a stream writes to it or closes it: two streams may have the same file
-- open, and one of them may have removed it, so that this is an argument.
abbrev pub leave : Bytes → Option Bytes → Server → Server
leave path none s = record s { disk = erase path s.disk }
leave path (some bytes) s = record s { disk = insert path bytes s.disk }

-- The steps of an upload behind its check: the opening of the destination; one write with its report; and the close,
-- the checks behind the loop and what follows from them.
pub data Action : Type 0 where
  opens : (now : ℕ) (can_open : Bool) → Action
  writes : (now : ℕ) (chunk : Bytes) (left : Option Bytes) → Action
  ends : (now : ℕ) (writes_ok complete : Bool) (left : Option Bytes) → Action

-- A step on upload `i`, by its writes so far: an upload is opened once, and writes and ends after that.
unfoldable pub act : Action → ℕ → Upload → Option (List Bytes) → Live → Live
act (opens now true) i u none l = record {
  server = leave u.checked.destination (some []) l.server;
  uploads = set_at i (record u { writes = some [] }) l.uploads;
}
act (opens now false) i u none l = record {
  server =
      on_transfer u.checked.transfer_id
        (λ t. (fail now u.checked.transfer_id (codes "failed to open destination") t).0) l.server;
  uploads = remove_at i l.uploads;
}
act (opens now can_open) i u (some out) l = l
act (writes now chunk left) i u none l = l
act (writes now chunk left) i u (some out) l = record {
  server =
      report_progress now u.checked.transfer_id (length (joined out)) (chunk ∷ [])
        (leave u.checked.destination left l.server);
  uploads = set_at i (record u { writes = some (out ++ (chunk ∷ [])) }) l.uploads;
}
act (ends now writes_ok complete left) i u none l = l
act (ends now writes_ok complete left) i u (some out) l = record {
  server =
      (judge_upload now writes_ok u.request u.checked (record { writes = out; complete = complete })
        (leave u.checked.destination left l.server)).1;
  uploads = remove_at i l.uploads;
}

-- A connection from its first byte to its last with nothing in between; the check of an upload; a step of an upload.
pub data Event : Type 0 where
  answers : Connection → Event
  checks : (v2 : Bool) (request : HttpRequest) → Event
  acts : ℕ → Action → Event

-- What a check leaves: an upload that is let through starts its work.
abbrev pub start : HttpRequest → Checked → Live → Live
start request (rejected response) l = l
start request (accepted a) l = record l {
  uploads = record { request = request; checked = a; writes = none } ∷ l.uploads;
}

abbrev pub act_on : Action → ℕ → Option Upload → Live → Live
act_on action i none l = l
act_on action i (some u) l = act action i u u.writes l

unfoldable pub take_event : Event → Live → Live
take_event (answers c) l = record l {
  server = (handle_client c.surroundings c.headers c.stream l.server).1;
}
take_event (checks v2 request) l = start request (check_upload v2 request l.server) l
take_event (acts i action) l = act_on action i (get_elem? l.uploads i) l

unfoldable pub run_overlapping : List Event → Live → Live
run_overlapping [] l = l
run_overlapping (e ∷ es) l = run_overlapping es (take_event e l)
