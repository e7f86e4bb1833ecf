-- ===== src/Http/Stream/Body.antt =====
-- The loops that read a body of known length in http.cpp: what they return, however the bytes arrive.
use mathlib.Core.Option
use mathlib.Core.List.{append_assoc}
use localsend_handheld.Prelude.{
  ℕ, zero, suc, ◌+◌, ◌≤◌, ◌<◌, ◌≡◌, refl, sym, ap, subst, ◌∙◌, true, false, [], ◌∷◌, ◌++◌, Option,
  none, some, arith, ltb, leb, if◌then◌else◌, Bytes, is_empty, length, take, drop, take-append-drop,
  length-append, length-take, ltb→lt, Bool-cases, Option-cases, inl, inr,
}
use localsend_handheld.Http.Stream.{
  Stream, read, read_to, read_body, transfer_buffer_size, read_remaining_body,
}

-- The bytes that reads can give, in all.
abbrev pub arrived : Stream → Bytes
arrived [] = []
arrived (segment ∷ stream) = if is_empty segment then [] else segment ++ arrived stream

abbrev pub Reads : Stream → Option (Bytes × Stream) → Type 0
Reads stream none = arrived stream ≡ []
Reads stream (some (got, rest)) = (0 < length got) × (got ++ arrived rest ≡ arrived stream)

filled : (s : Bytes) → is_empty s ≡ false → 0 < length s
filled [] h = cc
filled (c ∷ s) h = omega arith

pub arrived_filled :
    (s : Bytes) (stream : Stream) → 0 < length s → arrived (s ∷ stream) ≡ s ++ arrived stream
arrived_filled [] stream h = absurd (omega arith)
arrived_filled (c ∷ s) stream h = refl

drop_filled : (n : ℕ) (s : Bytes) → n < length s → 0 < length (drop n s)
drop_filled n s h =
    omega (
      arith,
      ap length (take-append-drop n s),
      length-append (take n s) (drop n s),
      length-take n s,
    )

read_part :
    (size : ℕ) (segment : Bytes) (stream : Stream)
    → size < length segment
    → take size segment ++ arrived (drop size segment ∷ stream) ≡ arrived (segment ∷ stream)
read_part size segment stream h =
    ap (◌++◌ (take size segment))
      (arrived_filled (drop size segment) stream (drop_filled size segment h))
    ∙ sym (append_assoc (take size segment) (drop size segment) (arrived stream))
    ∙ ap (λ s. s ++ arrived stream) (take-append-drop size segment)
    ∙ sym (arrived_filled segment stream (omega arith))

-- A read of at least one byte loses nothing.
pub read-Reads : (size : ℕ) (stream : Stream) → 0 < size → Reads stream (read size stream)
unfolding read
read-Reads size [] h = refl
read-Reads size (segment ∷ stream) h = elim (Bool-cases (is_empty segment)) [
  | inl e ↦ rw e (rw e)
  | inr e ↦
      let full = filled segment e in
      elim (Bool-cases (ltb size (length segment))) [
        | inl l ↦
            rw (e, l)
              (
                omega (arith, length-take size segment, ltb→lt size (length segment) l),
                read_part size segment stream (ltb→lt size (length segment) l),
              )
        | inr l ↦ rw (e, l) (full, sym (arrived_filled segment stream full))
      ]
]

take_prefix : (n : ℕ) (s t : Bytes) → n ≤ length s → take n (s ++ t) ≡ take n s
take_prefix zero s t h = refl
take_prefix (suc n) [] t h = absurd (omega arith)
take_prefix (suc n) (c ∷ s) t h = ap (◌∷◌ c) (take_prefix n s t (omega arith))

-- The body, if enough bytes arrive.
abbrev pub body_of : ℕ → Bytes → Option Bytes
body_of size s = if leb size (length s) then some (take size s) else none

read_to_long :
    (size : ℕ) (body s : Bytes)
    → size ≤ length body
    → some (take size body) ≡ body_of size (body ++ s)
read_to_long size body s h = ground (arith, length-append body s, take_prefix size body s h)

module _ (fuel chunk size : ℕ) (body : Bytes) (stream : Stream) where
  read_to_enough :
      ltb (length body) size ≡ false → read_to (suc fuel) chunk size body stream ≡ some body
  unfolding read_to
  read_to_enough h = ground arith

  read_to_end :
      ltb (length body) size ≡ true
      → read chunk stream ≡ none
      → read_to (suc fuel) chunk size body stream ≡ none
  unfolding read_to
  read_to_end h e = ground arith

  read_to_more :
      (got : Bytes) (rest : Stream)
      → ltb (length body) size ≡ true
      → read chunk stream ≡ some (got, rest)
      → read_to (suc fuel) chunk size body stream ≡ read_to fuel chunk size (body ++ got) rest
  unfolding read_to
  read_to_more got rest h e = ground arith

body_of_short : (size : ℕ) (s : Bytes) → length s < size → body_of size s ≡ none
body_of_short size s h = ground arith

read_to_lem :
    (fuel chunk size : ℕ) (body : Bytes) (stream : Stream)
    → 0 < chunk
    → size ≤ length body + fuel
    → Option.map (take size) (read_to fuel chunk size body stream)
      ≡ body_of size (body ++ arrived stream)
unfolding read_to
read_to_lem zero chunk size body stream p h = read_to_long size body (arrived stream) (omega arith)
read_to_lem (suc fuel) chunk size body stream p h = elim (Bool-cases (ltb (length body) size)) [
  | inr enough ↦
      ap (Option.map (take size)) (read_to_enough fuel chunk size body stream enough)
      ∙ read_to_long size body (arrived stream) (ground arith)
  | inl short ↦ elim (Option-cases (read chunk stream)) [
    | inl e ↦
        let nothing = subst (Reads stream) e (read-Reads chunk stream p) in
        ap (Option.map (take size)) (read_to_end fuel chunk size body stream short e)
        ∙ sym (
            body_of_short size (body ++ arrived stream) (
              omega (
                arith,
                ltb→lt (length body) size short,
                length-append body (arrived stream),
                ap length nothing,
              )))
    | inr ((got, rest), e) ↦
        let reads = subst (Reads stream) e (read-Reads chunk stream p) in
        ap (Option.map (take size)) (read_to_more fuel chunk size body stream got rest short e)
        ∙ read_to_lem fuel chunk size (body ++ got) rest p
            (omega (arith, length-append body got, reads.0))
        ∙ ap (body_of size) (append_assoc body got (arrived rest) ∙ ap (◌++◌ body) reads.1)
  ]
]

-- However the bytes arrive, the body is the first `size` of them, those that came with the headers
-- first; the reading fails exactly when fewer arrive before the end or an error. Its fuel is
-- enough.
pub read_remaining_body_lem :
    (initial_body : Bytes) (size : ℕ) (stream : Stream)
    → (read_remaining_body initial_body size stream ≡ body_of size (initial_body ++ arrived stream))
      × (read_body initial_body size stream ≡ body_of size (initial_body ++ arrived stream))
unfolding read_remaining_body read_body
read_remaining_body_lem initial_body size stream = (
  read_to_lem size transfer_buffer_size size initial_body stream (omega arith) (omega arith),
  read_to_lem size 8192 size initial_body stream (omega arith) (omega arith),
)
