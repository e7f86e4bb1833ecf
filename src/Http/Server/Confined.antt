-- ===== src/Http/Server/Confined.antt =====
-- The destinations that the server of http.cpp holds, and what a request may change: `prepare-upload`,
-- `cancel` and the checks of `upload`.
use mathlib.Core.Option
use localsend_handheld.Prelude.{
  ℕ, ◌+◌, ◌≡◌, refl, sym, ◌∙◌, subst, Bool, true, false, ◌&&◌, ◌⊎◌, inl, inr, [], ◌∷◌, Option, none,
  some, arith, Bytes, codes, Bool-cases, Option-cases,
}
use localsend_handheld.Prelude.FilePath.{join}
use localsend_handheld.Prelude.Map.{
  Map, find, alter, AllValues, AllValues-emplace, AllValues-alter, AllValues-find,
}
use localsend_handheld.Protocol.{FileDto, PrepareUploadRequestDto}
use localsend_handheld.SafePath.Sanitize.{IsSafeName}
use localsend_handheld.SafePath.Destination.{unique_destination_path-IsDestination}
use localsend_handheld.Http.Server.{
  HttpRequest, text_response, PendingFile, Session, Server, Prepared, exists_on, prepare_file,
  prepare_files, unprepared, handle_prepare_upload, handle_cancel, cancel_session, cancel_files,
  proved_info,
}
use localsend_handheld.Http.Server.Upload.{
  Checked, rejected, accepted, find_session, check_file, check_session, check_upload, is_none,
  missing_query,
}

-- A file directly in the inbox, under a safe name.
pub record Inside (inbox path : Bytes) : Type 0 where
  pub name : Bytes
  pub safe : IsSafeName name
  pub inside : path ≡ join inbox name

abbrev pub FileInside : Bytes → PendingFile → Type 0
FileInside inbox file = Inside inbox file.destination

abbrev pub SessionInside : Bytes → Session → Type 0
SessionInside inbox session = AllValues (FileInside inbox) session.files

-- Every destination that a session holds is inside.
abbrev pub IsConfined : Server → Type 0
IsConfined s = AllValues (SessionInside s.inbox) s.sessions

prepare_files-Inside :
    (now : ℕ) (alias remote_ip inbox : Bytes) (disk : Map Bytes) (token : ℕ → Bytes) (i : ℕ)
    (files : Map FileDto) (p : Prepared)
    → AllValues (FileInside inbox) p.files
    → AllValues
        (FileInside inbox)
        (prepare_files now alias remote_ip inbox disk token i files p).files
unfolding prepare_files prepare_file
prepare_files-Inside now alias remote_ip inbox disk token i [] p h = h
prepare_files-Inside now alias remote_ip inbox disk token i ((key, dto) ∷ files) p h =
    let d = unique_destination_path-IsDestination (exists_on disk) inbox dto.file_name in
    prepare_files-Inside now alias remote_ip inbox disk token (i + 1) files _ (
      AllValues-emplace (FileInside inbox) _ _ p.files
        (record { name = d.name; safe = d.safe; inside = d.inside }) h)

-- What a step may do: the inbox stays, the server stays confined, and another content stands only
-- at paths inside.
pub record Keeps (s t : Server) : Type 0 where
  pub inbox : t.inbox ≡ s.inbox
  pub confined : IsConfined t
  pub disk : (path : Bytes) → (find path t.disk ≡ find path s.disk) ⊎ Inside s.inbox path

pub stays : (s : Server) → IsConfined s → Keeps s s
stays s h = record { inbox = refl; confined = h; disk = λ path. inl refl }

pub followed : (s t u : Server) → Keeps s t → Keeps t u → Keeps s u
followed s t u h k = record {
  inbox = k.inbox ∙ h.inbox;
  confined = k.confined;
  disk = λ path. elim (k.disk path) [
    | inr inside ↦ inr (subst (λ inbox. Inside inbox path) h.inbox inside)
    | inl same ↦ elim (h.disk path) [ inr inside ↦ inr inside | inl before ↦ inl (same ∙ before) ]
  ];
}

pub handle_prepare_upload-Keeps :
    (now : ℕ) (session_id : Bytes) (token : ℕ → Bytes) (v2 : Bool)
    (remote_ip peer_fingerprint : Bytes) (decoded : Bytes ⊎ PrepareUploadRequestDto) (s : Server)
    → IsConfined s
    → Keeps s (handle_prepare_upload now session_id token v2 remote_ip peer_fingerprint decoded s).1
unfolding handle_prepare_upload
handle_prepare_upload-Keeps now session_id token v2 remote_ip peer_fingerprint (inl what) s h =
    stays s h
handle_prepare_upload-Keeps now session_id token v2 remote_ip peer_fingerprint (inr dto) s h =
    record {
      inbox = refl;
      confined =
          AllValues-emplace (SessionInside s.inbox) session_id _ s.sessions
            (prepare_files-Inside now (proved_info peer_fingerprint dto.info).alias remote_ip
              s.inbox s.disk token 0 dto.files (unprepared s.transfers) tt)
            h;
      disk = λ path. inl refl;
    }

pub handle_cancel-Keeps :
    (now : ℕ) (request : HttpRequest) (s : Server)
    → IsConfined s
    → Keeps s (handle_cancel now request s).1
unfolding handle_cancel
handle_cancel-Keeps now request s h = elim (Option-cases (find (codes "sessionId") request.query)) [
  | inl e ↦
      let same : (handle_cancel now request s).1 ≡ s = ground arith in
      subst (Keeps s) (sym same) (stays s h)
  | inr (id, e) ↦ elim (Option-cases (find id s.sessions)) [
    | inl e2 ↦
        let same : (handle_cancel now request s).1 ≡ s = ground arith in
        subst (Keeps s) (sym same) (stays s h)
    | inr (session, e2) ↦
        let cancelled : Server = record s {
          sessions = alter cancel_session id s.sessions;
          transfers = Option.map (cancel_files now session.files) s.transfers;
        } in
        let same : (handle_cancel now request s).1 ≡ cancelled = ground arith in
        subst (Keeps s) (sym same) (record {
          inbox = refl;
          confined =
              AllValues-alter (SessionInside s.inbox) cancel_session id s.sessions (λ v k. k) h;
          disk = λ path. inl refl;
        })
  ]
]

-- The destination of an accepted upload is that of a file of a session.
abbrev pub AcceptedInside : Bytes → Checked → Type 0
AcceptedInside inbox (rejected response) = Unit
AcceptedInside inbox (accepted a) = Inside inbox a.destination

find_session-Inside :
    (inbox : Bytes) (v2 : Bool) (id : Option Bytes) (sessions : Map Session)
    (found : Bytes × Session)
    → AllValues (SessionInside inbox) sessions
    → find_session v2 id sessions ≡ some found
    → SessionInside inbox found.1
unfolding find_session
find_session-Inside inbox true none sessions found h e = cc
find_session-Inside inbox true (some id) sessions found h e =
    elim (Option-cases (find id sessions)) [
      | inl f ↦ ground arith
      | inr (session, f) ↦
          let same : session ≡ found.1 = ground arith in
          subst (SessionInside inbox) same
            (AllValues-find (SessionInside inbox) id sessions session h f)
    ]
find_session-Inside inbox false id [] found h e = cc
find_session-Inside inbox false id ((only, session) ∷ []) found h e =
    let same : session ≡ found.1 = ground arith in subst (SessionInside inbox) same h.0
find_session-Inside inbox false id (a ∷ b ∷ sessions) found h e = cc

check_file-Inside :
    (request : HttpRequest) (session_id file_id token inbox : Bytes) (file : PendingFile)
    → FileInside inbox file
    → AcceptedInside inbox (check_file request session_id file_id token file)
unfolding check_file
check_file-Inside request session_id file_id token inbox file h = ground arith

check_session-Inside :
    (request : HttpRequest) (file_id token inbox : Bytes) (found : Option (Bytes × Session))
    → ((f : Bytes × Session) → found ≡ some f → SessionInside inbox f.1)
    → AcceptedInside inbox (check_session request file_id token found)
unfolding check_session
check_session-Inside request file_id token inbox none h = tt
check_session-Inside request file_id token inbox (some (id, session)) h =
    elim (Bool-cases session.cancelled) [
      | inl c ↦ ground arith
      | inr c ↦ elim (Option-cases (find file_id session.files)) [
        | inl e ↦
            let same : check_session request file_id token (some (id, session))
                ≡ rejected (text_response 404 (codes "file not found")) =
              ground arith in
            subst (AcceptedInside inbox) (sym same) tt
        | inr (file, e) ↦
            let same : check_session request file_id token (some (id, session))
                ≡ check_file request id file_id token file =
              ground arith in
            subst (AcceptedInside inbox) (sym same) (
              check_file-Inside request id file_id token inbox file (
                AllValues-find (FileInside inbox) file_id session.files file (h (id, session) refl)
                  e))
      ]
    ]

pub check_upload-Inside :
    (v2 : Bool) (request : HttpRequest) (s : Server)
    → IsConfined s
    → AcceptedInside s.inbox (check_upload v2 request s)
unfolding check_upload
check_upload-Inside v2 request s h =
    let id = find (codes "sessionId") request.query in
    elim (Bool-cases (v2 && is_none id)) [
      | inl e ↦
          let same : check_upload v2 request s ≡ missing_query = ground arith in
          subst (AcceptedInside s.inbox) (sym same) tt
      | inr e ↦ elim (Option-cases (find (codes "fileId") request.query)) [
        | inl f ↦
            let same : check_upload v2 request s ≡ missing_query = ground arith in
            subst (AcceptedInside s.inbox) (sym same) tt
        | inr (file_id, f) ↦ elim (Option-cases (find (codes "token") request.query)) [
          | inl t ↦
              let same : check_upload v2 request s ≡ missing_query = ground arith in
              subst (AcceptedInside s.inbox) (sym same) tt
          | inr (token, t) ↦
              let same : check_upload v2 request s
                  ≡ check_session request file_id token (find_session v2 id s.sessions) =
                ground arith in
              subst (AcceptedInside s.inbox) (sym same) (
                check_session-Inside request file_id token s.inbox (find_session v2 id s.sessions)
                  (λ f. find_session-Inside s.inbox v2 id s.sessions f h))
        ]
      ]
    ]
