-- ===== src/Http/Server/Sessions.antt =====
-- The life of an upload session in http.cpp: a session that is cancelled stays so.
use localsend_handheld.Prelude.{◌≡◌, refl, true, inl, inr, some, arith, Bytes, Bool-cases, beq}
use localsend_handheld.Prelude.Map.{Map, find, alter, emplace, find-alter, IsOrdered}
use localsend_handheld.Prelude.Map.Order.{IsOrdered-emplace, IsOrdered-alter, find-emplace_old}
use localsend_handheld.Http.Server.{Session, cancel_session}
use localsend_handheld.Http.Server.Upload.{mark_complete}

-- The sessions stand in the order of their ids, and the one with this id is there and cancelled.
pub record IsCancelled (id : Bytes) (sessions : Map Session) : Type 0 where
  pub ordered : IsOrdered sessions
  pub session : Session
  pub found : find id sessions ≡ some session
  pub marked : session.cancelled ≡ true

emplace-IsCancelled :
    (id new_id : Bytes) (new : Session) (sessions : Map Session)
    → IsCancelled id sessions
    → IsCancelled id (emplace new_id new sessions)
emplace-IsCancelled id new_id new sessions h = record {
  ordered = IsOrdered-emplace new_id new sessions h.ordered;
  session = h.session;
  found = find-emplace_old new_id id new h.session sessions h.ordered h.found;
  marked = h.marked;
}

-- A change of a session that does not take the mark away.
alter-IsCancelled :
    (f : Session → Session) (id other : Bytes) (sessions : Map Session)
    → ((session : Session) → session.cancelled ≡ true → (f session).cancelled ≡ true)
    → IsCancelled id sessions
    → IsCancelled id (alter f other sessions)
alter-IsCancelled f id other sessions keeps h = elim (Bool-cases (beq other id)) [
  | inl e ↦ record {
    ordered = IsOrdered-alter f other sessions h.ordered;
    session = f h.session;
    found = ground (arith, find-alter f other id sessions, h.found);
    marked = keeps h.session h.marked;
  }
  | inr e ↦ record {
    ordered = IsOrdered-alter f other sessions h.ordered;
    session = h.session;
    found = ground (arith, find-alter f other id sessions, h.found);
    marked = h.marked;
  }
]

-- The mark that `finish_upload` sets.
abbrev pub complete_file : Bytes → Session → Session
complete_file file_id session = record session { files = alter mark_complete file_id session.files }

-- What a handler does to the sessions: nothing, a new session, a cancellation, or the mark on a file.
pub data Change (sessions : Map Session) : Map Session → Type 0 where
  same : Change sessions sessions
  prepared : (id : Bytes) (session : Session) → Change sessions (emplace id session sessions)
  cancelled : (id : Bytes) → Change sessions (alter cancel_session id sessions)
  completed : (id file_id : Bytes) → Change sessions (alter (complete_file file_id) id sessions)

pub Change-IsCancelled :
    (id : Bytes) (before after : Map Session)
    → Change before after
    → IsCancelled id before
    → IsCancelled id after
Change-IsCancelled id before after same h = h
Change-IsCancelled id before after (prepared new session) h =
    emplace-IsCancelled id new session before h
Change-IsCancelled id before after (cancelled other) h =
    alter-IsCancelled cancel_session id other before (λ session k. refl) h
Change-IsCancelled id before after (completed other file_id) h =
    alter-IsCancelled _ id other before (λ session k. k) h
