-- ===== src/Http/Server/Permitted.antt =====
-- Which uploads the checks of `handle_upload` in http.cpp let through.
use localsend_handheld.Prelude.{
  ◌≡◌, refl, sym, subst, Bool, true, false, not, ◌&&◌, ◌⊎◌, inl, inr, [], ◌∷◌, Option, none, some,
  arith, Bytes, codes, Bool-cases, Option-cases, beq, beq_iff, beq_refl, ◌↔◌, ◌==◌,
}
use localsend_handheld.Prelude.Map.{Map, find}
use localsend_handheld.Http.Server.{HttpRequest, PendingFile, Session, Server}
use localsend_handheld.Http.Server.Upload.{
  Accepted, accepted, find_session, check_file, check_session, check_upload, is_none,
}

-- The session that the request means: the one with its id, or the only one for the older API.
abbrev pub Means : Bool → HttpRequest → Map Session → Bytes → Session → Type 0
Means true request sessions id session =
    (find (codes "sessionId") request.query ≡ some id) × (find id sessions ≡ some session)
Means false request sessions id session = sessions ≡ (id, session) ∷ []

-- Who may upload what to where.
pub record Permitted (v2 : Bool) (request : HttpRequest) (s : Server) (a : Accepted) : Type 0 where
  pub session : Session
  pub file : PendingFile
  pub means : Means v2 request s.sessions a.session_id session
  pub live : session.cancelled ≡ false
  pub file_named : find (codes "fileId") request.query ≡ some a.file_id
  pub file_found : find a.file_id session.files ≡ some file
  pub token_fits : find (codes "token") request.query ≡ some file.token
  pub size_fits : (request.chunked ≡ true) ⊎ (request.content_length ≡ file.dto.size)
  pub destination : a.destination ≡ file.destination
  pub expected_size : a.expected_size ≡ file.dto.size
  pub transfer_id : a.transfer_id ≡ file.transfer_id

find_session-Means :
    (v2 : Bool) (request : HttpRequest) (sessions : Map Session) (id : Bytes) (session : Session)
    → find_session v2 (find (codes "sessionId") request.query) sessions ≡ some (id, session)
    → Means v2 request sessions id session
unfolding find_session
find_session-Means true request sessions id session e =
    elim (Option-cases (find (codes "sessionId") request.query)) [
      | inl q ↦ ground arith
      | inr (named, q) ↦ elim (Option-cases (find named sessions)) [
        | inl f ↦ ground arith
        | inr (found, f) ↦ ground arith
      ]
    ]
find_session-Means false request [] id session e = cc
find_session-Means false request ((only, found) ∷ []) id session e = ground arith
find_session-Means false request (x ∷ y ∷ sessions) id session e = cc

module _ (v2 : Bool) (request : HttpRequest) (s : Server) (a : Accepted)
    (file_id token : Bytes) where
  check_session-Permitted :
      (found : Option (Bytes × Session))
      → find_session v2 (find (codes "sessionId") request.query) s.sessions ≡ found
      → find (codes "fileId") request.query ≡ some file_id
      → find (codes "token") request.query ≡ some token
      → check_session request file_id token found ≡ accepted a
      → Permitted v2 request s a
  unfolding check_session check_file
  check_session-Permitted none q f g e = cc
  check_session-Permitted (some (id, session)) q f g e = elim (Bool-cases session.cancelled) [
    | inl c ↦ absurd (ground arith)
    | inr c ↦ elim (Option-cases (find file_id session.files)) [
      | inl x ↦ absurd (ground arith)
      | inr (file, x) ↦ elim (Bool-cases (beq file.token token)) [
        | inr t ↦ absurd (ground arith)
        | inl t ↦
            elim (Bool-cases
              (not request.chunked && not (request.content_length == file.dto.size))) [
                | inl z ↦ absurd (ground arith)
                | inr z ↦
                    let result : a ≡ record {
                      destination = file.destination;
                      expected_size = file.dto.size;
                      transfer_id = file.transfer_id;
                      session_id = id;
                      file_id = file_id;
                    } =
                      ground arith in
                    subst (Permitted v2 request s) (sym result) (record {
                      session = session;
                      file = file;
                      means = find_session-Means v2 request s.sessions id session q;
                      live = c;
                      file_named = f;
                      file_found = x;
                      token_fits = ground (arith, beq_iff file.token token);
                      size_fits = ground arith;
                      destination = refl;
                      expected_size = refl;
                      transfer_id = refl;
                    })
              ]
      ]
    ]
  ]

accepted-Permitted :
    (v2 : Bool) (request : HttpRequest) (s : Server) (a : Accepted)
    → check_upload v2 request s ≡ accepted a
    → Permitted v2 request s a
unfolding check_upload
accepted-Permitted v2 request s a e =
    let id = find (codes "sessionId") request.query in
    elim (Bool-cases (v2 && is_none id)) [
      | inl n ↦ absurd (ground arith)
      | inr n ↦ elim (Option-cases (find (codes "fileId") request.query)) [
        | inl f ↦ absurd (ground arith)
        | inr (file_id, f) ↦ elim (Option-cases (find (codes "token") request.query)) [
          | inl t ↦ absurd (ground arith)
          | inr (token, t) ↦
              check_session-Permitted v2 request s a file_id token (find_session v2 id s.sessions)
                refl f t (ground arith)
        ]
      ]
    ]

-- A permitted upload passes the checks of its file.
check_file-Permitted :
    (v2 : Bool) (request : HttpRequest) (s : Server) (a : Accepted) (p : Permitted v2 request s a)
    → check_file request a.session_id a.file_id p.file.token p.file ≡ accepted a
unfolding check_file
check_file-Permitted v2 request s a p =
    let itself = beq_refl p.file.token in
    let made : record {
      destination = p.file.destination;
      expected_size = p.file.dto.size;
      transfer_id = p.file.transfer_id;
      session_id = a.session_id;
      file_id = a.file_id;
    }
        ≡ a =
      rw (sym p.destination, sym p.expected_size, sym p.transfer_id) refl in
    elim p.size_fits [ inl c ↦ ground arith | inr c ↦ ground arith ]

Permitted-accepted :
    (v2 : Bool) (request : HttpRequest) (s : Server) (a : Accepted)
    → Permitted v2 request s a
    → check_upload v2 request s ≡ accepted a
unfolding check_upload check_session find_session
Permitted-accepted true request s a p =
    let means = p.means in
    let live = p.live in
    let named = p.file_named in
    let found = p.file_found in
    let token = p.token_fits in
    let checked = check_file-Permitted true request s a p in ground arith
Permitted-accepted false request s a p =
    let means = p.means in
    let live = p.live in
    let named = p.file_named in
    let found = p.file_found in
    let token = p.token_fits in
    let checked = check_file-Permitted false request s a p in ground arith

-- An upload passes the checks exactly when it is permitted: its session is there (the one it names, or the only one
-- for the older API) and not cancelled, it names a file of that session and carries that file's token, and, unless
-- it is chunked, its length is the announced size; and then it goes to the destination and the transfer that the
-- session holds for that file.
pub check_upload_iff :
    (v2 : Bool) (request : HttpRequest) (s : Server) (a : Accepted)
    → (check_upload v2 request s ≡ accepted a) ↔ Permitted v2 request s a
check_upload_iff v2 request s a =
    (accepted-Permitted v2 request s a, Permitted-accepted v2 request s a)
