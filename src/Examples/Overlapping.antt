-- ===== src/Examples/Overlapping.antt =====
-- Examples for connections of http.cpp that overlap.
use localsend_handheld.Prelude.{◌≡◌, refl, true, false, List, [], ◌∷◌, none, some, codes}
use localsend_handheld.Http.Server.{text_response, handle_cancel, Server}
use localsend_handheld.Http.Server.Upload.{handle_upload}
use localsend_handheld.Http.Server.Overlapping.{
  Upload, Event, answers, checks, acts, opens, writes, ends, run_overlapping,
}
use localsend_handheld.Http.Server.Overlapping.Kept.{LiveKeeps, run_overlapping-LiveKeeps}
use localsend_handheld.Http.Server.Overlapping.Revived.{run_overlapping-handle_cancel}
use localsend_handheld.Examples.Server.{
  one_session, no_sessions, photo_session, photo_accepted, upload_request, cancel_request,
  prepare_connection, photo_query, photo_file, photo_token, photo_found,
}

-- A file is asked for and let through twice; the second upload removes it while the first is at work.
abbrev events : List Event
events =
    answers prepare_connection
    ∷ checks false upload_request
    ∷ checks false upload_request
    ∷ acts 1 (opens 5 true)
    ∷ acts 1 (writes 5 (codes "x") (some (codes "x")))
    ∷ acts 0 (opens 6 true)
    ∷ acts 0 (ends 6 true false (some []))
    ∷ acts 0 (writes 7 (codes "yz") none)
    ∷ acts 0 (ends 8 true true none)
    ∷ []

run_overlapping-LiveKeeps_example :
    LiveKeeps no_sessions (run_overlapping events (record { server = no_sessions; uploads = [] }))
run_overlapping-LiveKeeps_example = run_overlapping-LiveKeeps events no_sessions tt

-- The upload that is at work when the session is cancelled.
abbrev at_work : Upload
at_work = record {
  request = upload_request;
  checked = photo_accepted;
  writes = some (codes "x" ∷ []);
}

abbrev later_events : List Event
later_events =
    acts 0 (writes 6 (codes "yz") (some (codes "xyz")))
    ∷ answers prepare_connection
    ∷ acts 0 (ends 7 true true (some (codes "xyz")))
    ∷ []

abbrev later_server : Server
later_server =
    (run_overlapping later_events (record {
      server = (handle_cancel 5 cancel_request one_session).1;
      uploads = at_work ∷ [];
    })).server

run_overlapping-handle_cancel_example :
    handle_upload 9 true true true upload_request [] [] later_server
    ≡ (text_response 404 (codes "session not found"), later_server)
run_overlapping-handle_cancel_example =
    run_overlapping-handle_cancel 5 9 cancel_request upload_request (codes "s1") (codes "f1")
      (codes "t1") photo_session one_session later_server (at_work ∷ []) later_events true true []
      [] (tt, tt) photo_query photo_found refl photo_query photo_file photo_token
