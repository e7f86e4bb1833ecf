-- ===== src/Http/Headers/Received.antt =====
-- `recv_until_headers` and `parse_request_headers` of http.cpp on a request of the client, however its bytes
-- arrive.
use mathlib.Core.List.{append_assoc, append-nil}
use localsend_handheld.Prelude.{
  ℕ, zero, suc, ◌+◌, ◌*◌, ◌≤◌, ◌<◌, ◌≡◌, refl, sym, ap, subst, ◌∙◌, true, false, ◌&&◌, [], ◌∷◌,
  ◌++◌, Option, none, some, arith, ltb, ◌==◌, Bytes, is_empty, length, length-append, length-take,
  Bool-cases, Option-cases, inl, inr,
}
use localsend_handheld.Prelude.Int.{ℤ}
use localsend_handheld.Prelude.Result.{Result, ok, err, out_of_fuel, ◌>>=◌}
use localsend_handheld.Transfer.{u64_mod}
use localsend_handheld.Http.Stream.{Stream, read}
use localsend_handheld.Http.Stream.Body.{arrived, Reads, read-Reads}
use localsend_handheld.Http.Server.{HttpRequest}
use localsend_handheld.Http.Headers.{find_blank, recv_rounds, recv_until_headers}
use localsend_handheld.Http.Headers.Request.{
  request_head, parse_head, parse_request_headers, trim_body,
}
use localsend_handheld.Http.Headers.Lines.{one_line}
use localsend_handheld.Http.Headers.RoundTrip.{IsWord, read_back, parse_head-request_head}
use localsend_handheld.Http.Headers.Blank.{request_head-EndsHead}

find_blank-more :
    (b more h r : Bytes) → find_blank b ≡ some (h, r) → find_blank (b ++ more) ≡ some (h, r ++ more)
unfolding find_blank
find_blank-more [] more h r e = cc
find_blank-more (a ∷ []) more h r e = cc
find_blank-more (a ∷ b ∷ []) more h r e = cc
find_blank-more (a ∷ b ∷ c ∷ []) more h r e = cc
find_blank-more (a ∷ b ∷ c ∷ d ∷ s) more h r e =
    elim (Bool-cases (a == 13 && b == 10 && c == 13 && d == 10)) [
      | inl m ↦ ground (arith)
      | inr m ↦ elim (Option-cases (find_blank (b ∷ c ∷ d ∷ s))) [
        | inl f ↦ ground (arith)
        | inr (p, f) ↦
            let more_found = find_blank-more (b ∷ c ∷ d ∷ s) more p.0 p.1 f in ground (arith)
      ]
    ]

find_blank-length : (s h r : Bytes) → find_blank s ≡ some (h, r) → 4 ≤ length h
unfolding find_blank
find_blank-length [] h r e = cc
find_blank-length (a ∷ []) h r e = cc
find_blank-length (a ∷ b ∷ []) h r e = cc
find_blank-length (a ∷ b ∷ c ∷ []) h r e = cc
find_blank-length (a ∷ b ∷ c ∷ d ∷ s) h r e =
    elim (Bool-cases (a == 13 && b == 10 && c == 13 && d == 10)) [
      | inl m ↦ ground arith
      | inr m ↦ elim (Option-cases (find_blank (b ∷ c ∷ d ∷ s))) [
        | inl f ↦ ground arith
        | inr (p, f) ↦ ground (arith, find_blank-length (b ∷ c ∷ d ∷ s) p.0 p.1 f)
      ]
    ]

-- A buffer without the blank line is shorter than the headers.
find_blank-none-length :
    (s more h r : Bytes)
    → find_blank s ≡ none
    → find_blank (s ++ more) ≡ some (h, r)
    → length s < length h
unfolding find_blank
find_blank-none-length [] more h r e f = omega (arith, find_blank-length more h r f)
find_blank-none-length (a ∷ []) more h r e f = omega (arith, find_blank-length (a ∷ more) h r f)
find_blank-none-length (a ∷ b ∷ []) more h r e f =
    omega (arith, find_blank-length (a ∷ b ∷ more) h r f)
find_blank-none-length (a ∷ b ∷ c ∷ []) more h r e f =
    omega (arith, find_blank-length (a ∷ b ∷ c ∷ more) h r f)
find_blank-none-length (a ∷ b ∷ c ∷ d ∷ s) more h r e f =
    elim (Bool-cases (a == 13 && b == 10 && c == 13 && d == 10)) [
      | inl m ↦ ground arith
      | inr m ↦ elim (Option-cases (find_blank (b ∷ c ∷ d ∷ (s ++ more)))) [
        | inl g ↦ ground arith
        | inr (p, g) ↦ elim (Option-cases (find_blank (b ∷ c ∷ d ∷ s))) [
          | inl k ↦ ground (arith, find_blank-none-length (b ∷ c ∷ d ∷ s) more p.0 p.1 k g)
          | inr (q, k) ↦ ground arith
        ]
      ]
    ]

read-le :
    (size : ℕ) (stream : Stream) (got : Bytes) (rest : Stream)
    → read size stream ≡ some (got, rest)
    → length got ≤ size
unfolding read
read-le size [] got rest e = cc
read-le size (segment ∷ stream) got rest e = elim (Bool-cases (is_empty segment)) [
  | inl f ↦ ground arith
  | inr f ↦ elim (Bool-cases (ltb size (length segment))) [
    | inl l ↦ ground (arith, length-take size segment)
    | inr l ↦ ground (arith)
  ]
]

-- What the loop leaves: the headers, and the body split between the buffer and the stream.
abbrev pub Receives : Bytes → Bytes → Option (Bytes × Bytes × Stream) → Type 0
Receives head body none = ⊥
Receives head body (some (found, rest, stream)) = (found ≡ head) × (rest ++ arrived stream ≡ body)

found_now :
    (buffer found rest head body : Bytes) (stream : Stream)
    → find_blank buffer ≡ some (found, rest)
    → find_blank (buffer ++ arrived stream) ≡ some (head, body)
    → (found ≡ head) × (rest ++ arrived stream ≡ body)
found_now buffer found rest head body stream e f =
    let more = find_blank-more buffer (arrived stream) found rest e in
    let same : some (found, rest ++ arrived stream) ≡ some (head, body) = sym more ∙ f in
    (ground arith, ground arith)

pub recv_rounds-Receives :
    (fuel : ℕ) (buffer : Bytes) (stream : Stream) (head body : Bytes)
    → find_blank (buffer ++ arrived stream) ≡ some (head, body)
    → length head + 4096 ≤ 1024 * 1024
    → length head ≤ length buffer + fuel
    → Receives head body (recv_rounds fuel buffer stream)
unfolding recv_rounds
recv_rounds-Receives zero buffer stream head body e small enough =
    elim (Option-cases (find_blank buffer)) [
      | inl f ↦
          let short = find_blank-none-length buffer (arrived stream) head body f e in
          absurd (omega arith)
      | inr (p, f) ↦ rw f (found_now buffer p.0 p.1 head body stream f e)
    ]
recv_rounds-Receives (suc fuel) buffer stream head body e small enough =
    elim (Option-cases (find_blank buffer)) [
      | inr (p, f) ↦ rw (recv_rounds, f) (found_now buffer p.0 p.1 head body stream f e)
      | inl f ↦
          let short = find_blank-none-length buffer (arrived stream) head body f e in
          elim (Option-cases (read 4096 stream)) [
            | inl g ↦
                let dry : arrived stream ≡ [] =
                  subst (Reads stream) g (read-Reads 4096 stream (omega arith)) in
                let whole : find_blank buffer ≡ some (head, body) =
                  ap find_blank (sym (append-nil buffer) ∙ ap (λ s. buffer ++ s) (sym dry)) ∙ e in
                let no : none ≡ some (head, body) = sym f ∙ whole in cc
            | inr (q, g) ↦
                let reads = subst (Reads stream) g (read-Reads 4096 stream (omega arith)) in
                let bounded = read-le 4096 stream q.0 q.1 g in
                let sum = length-append buffer q.0 in
                let fits : ltb (1024 * 1024) (length (buffer ++ q.0)) ≡ false = ground arith in
                let whole : find_blank ((buffer ++ q.0) ++ arrived q.1) ≡ some (head, body) =
                  ap find_blank
                    (append_assoc buffer q.0 (arrived q.1) ∙ ap (λ s. buffer ++ s) reads.1)
                  ∙ e in
                rw (recv_rounds, f, g, fits)
                  (recv_rounds-Receives fuel (buffer ++ q.0) q.1 head body whole small
                    (omega arith))
          ]
    ]

-- What `parse_request_headers` gives on a request of the client: the request, what came with its headers, cut to
-- the size that they give, and the rest of the stream.
abbrev pub IsRead : HttpRequest → Bytes → Result (Option (HttpRequest × Bytes × Stream)) → Type 0
IsRead request body (err what) = ⊥
IsRead request body out_of_fuel = ⊥
IsRead request body (ok none) = ⊥
IsRead request body (ok (some (found, initial_body, stream))) =
    (found ≡ request)
    × ((rest : Bytes) × (initial_body ≡ trim_body request rest) × (rest ++ arrived stream ≡ body))

received-IsRead :
    (head body : Bytes) (request : HttpRequest) (received : Option (Bytes × Bytes × Stream))
    → parse_head head ≡ ok request
    → Receives head body received
    → IsRead request body (elim received as (λ r. Result (Option (HttpRequest × Bytes × Stream))) [
      | none ↦ ok none
      | some (head, initial_body, rest) ↦
          parse_head head >>= λ request. ok (some (request, trim_body request initial_body, rest))
    ])
received-IsRead head body request none e h = elim h [ ]
received-IsRead head body request (some (found, rest, stream)) e h =
    let parsed : parse_head found ≡ ok request = ap parse_head h.0 ∙ e in
    rw parsed (refl, (rest, refl, h.1))

-- However the bytes of a request of the client arrive, `parse_request_headers` reads its headers: the method and
-- the target, split at its query, the size of the body, and not chunked; of the body it gives what came
-- with the headers, cut to that size, and the rest is still in the stream. For a method and a target that are
-- not empty and hold no white space, a host and a type without line ends, a size of 64 bits, and headers
-- that are 4096 bytes below the limit of one MiB at least.
pub parse_request_headers-IsRead :
    (method path host : Bytes) (port : ℤ) (size : ℕ) (content_type body : Bytes) (stream : Stream)
    → IsWord method
    → IsWord path
    → one_line host ≡ true
    → one_line content_type ≡ true
    → size < u64_mod
    → length (request_head method path host port size content_type) + 4096 ≤ 1024 * 1024
    → arrived stream ≡ request_head method path host port size content_type ++ body
    → IsRead (read_back method path size) body (parse_request_headers stream)
unfolding parse_request_headers recv_until_headers
parse_request_headers-IsRead method path host port size content_type body stream m p h t k small
      all_bytes =
    let head = request_head method path host port size content_type in
    let found : find_blank ([] ++ arrived stream) ≡ some (head, body) =
      ap find_blank all_bytes
      ∙ request_head-EndsHead method path host port size content_type m p h t body in
    received-IsRead head body (read_back method path size) (recv_rounds (1024 * 1024 + 1) [] stream)
      (parse_head-request_head method path host port size content_type m p h t k)
      (recv_rounds-Receives (1024 * 1024 + 1) [] stream head body found small (omega arith))
