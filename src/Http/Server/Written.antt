-- ===== src/Http/Server/Written.antt =====
-- What the loop of `handle_upload` of http.cpp writes for a body with a length.
use mathlib.Core.List.{append_assoc, append-nil}
use localsend_handheld.Prelude.{
  joined, joined-append, ℕ, zero, suc, ◌+◌, ◌-◌, ◌≤◌, ◌<◌, ◌≡◌, refl, sym, ap, ◌∙◌, subst, min,
  true, false, inl, inr, List, [], ◌∷◌, ◌++◌, none, some, arith, ltb, leb, ltb→lt, Bytes, is_empty,
  Bool-cases, Option-cases, length, take, length-append, length-take,
}
use localsend_handheld.Http.Stream.{Stream, read, transfer_buffer_size}
use localsend_handheld.Http.Stream.Body.{arrived, Reads, read-Reads}
use localsend_handheld.Http.Chunked.{Received}
use localsend_handheld.Http.Server.{HttpRequest}
use localsend_handheld.Http.Server.Upload.{receive_plain, first_write, receive_body}

joined-first_write : (s : Bytes) → joined (first_write s) ≡ s
joined-first_write [] = refl
joined-first_write (c ∷ s) = append-nil (c ∷ s)

-- A read gives no more than was asked for.
read_le :
    (n : ℕ) (stream rest : Stream) (got : Bytes) → read n stream ≡ some (got, rest) → length got ≤ n
unfolding read
read_le n [] rest got e = cc
read_le n (segment ∷ stream) rest got e = elim (Bool-cases (is_empty segment)) [
  | inl q ↦ ground arith
  | inr q ↦ elim (Bool-cases (ltb n (length segment))) [
    | inl l ↦
        let same : take n segment ≡ got = ground arith in
        omega (arith, ap length same, length-take n segment)
    | inr l ↦ let same : segment ≡ got = ground arith in ground (arith, ap length same)
  ]
]

take_past : (n : ℕ) (s t : Bytes) → length s ≤ n → take n (s ++ t) ≡ s ++ take (n - length s) t
take_past zero [] t h = let same : zero ≡ zero - 0 = omega arith in ap (λ k. take k t) same
take_past (suc n) [] t h = let same : suc n ≡ suc n - 0 = omega arith in ap (λ k. take k t) same
take_past zero (c ∷ s) t h = absurd (omega arith)
take_past (suc n) (c ∷ s) t h =
    let same : suc n - length (c ∷ s) ≡ n - length s = omega arith in
    rw same (ap (◌∷◌ c) (take_past n s t (omega arith)))

take_none : (n : ℕ) (s : Bytes) → s ≡ [] → take n s ≡ []
take_none zero s h = refl
take_none (suc n) s h = rw h refl

-- What the loop gives when `wanted` bytes are missing.
abbrev pub Takes : ℕ → List Bytes → Bytes → Received → Type 0
Takes wanted out bytes r =
    (joined r.writes ≡ joined out ++ take wanted bytes) × (r.complete ≡ leb wanted (length bytes))

module _ (fuel size written : ℕ) (stream : Stream) (out : List Bytes) where
  receive_plain_enough :
      ltb written size ≡ false
      → receive_plain (suc fuel) size written stream out ≡ record { writes = out; complete = true }
  unfolding receive_plain
  receive_plain_enough h = ground arith

  receive_plain_end :
      ltb written size ≡ true
      → read (min transfer_buffer_size (size - written)) stream ≡ none
      → receive_plain (suc fuel) size written stream out ≡ record { writes = out; complete = false }
  unfolding receive_plain
  receive_plain_end h e = ground arith

  receive_plain_more :
      (got : Bytes) (rest : Stream)
      → ltb written size ≡ true
      → read (min transfer_buffer_size (size - written)) stream ≡ some (got, rest)
      → receive_plain (suc fuel) size written stream out
        ≡ receive_plain fuel size (written + length got) rest (out ++ got ∷ [])
  unfolding receive_plain
  receive_plain_more got rest h e = ground arith

Takes-enough :
    (size written : ℕ) (out : List Bytes) (bytes : Bytes)
    → size ≤ written
    → Takes (size - written) out bytes (record { writes = out; complete = true })
Takes-enough size written out bytes h =
    let gone : size - written ≡ 0 = omega arith in
    rw gone (sym (append-nil (joined out)), ground arith)

receive_plain-Takes :
    (fuel size written : ℕ) (stream : Stream) (out : List Bytes)
    → size ≤ written + fuel
    → Takes (size - written) out (arrived stream) (receive_plain fuel size written stream out)
unfolding receive_plain
receive_plain-Takes zero size written stream out h =
    let over : ltb written size ≡ false = ground arith in
    rw over (Takes-enough size written out (arrived stream) (omega arith))
receive_plain-Takes (suc fuel) size written stream out h = elim (Bool-cases (ltb written size)) [
  | inr enough ↦
      subst (Takes (size - written) out (arrived stream))
        (sym (receive_plain_enough fuel size written stream out enough))
        (Takes-enough size written out (arrived stream) (ground arith))
  | inl short ↦
      let asked = min transfer_buffer_size (size - written) in
      let some_asked : 0 < asked = omega (arith, ltb→lt written size short) in
      elim (Option-cases (read asked stream)) [
        | inl e ↦
            let nothing : arrived stream ≡ [] =
              subst (Reads stream) e (read-Reads asked stream some_asked) in
            subst (Takes (size - written) out (arrived stream))
              (sym (receive_plain_end fuel size written stream out short e))
              (rw nothing (
                sym (
                    ap (◌++◌ (joined out)) (take_none (size - written) [] refl)
                    ∙ append-nil (joined out)),
                ground (arith, ltb→lt written size short),
              ))
        | inr ((got, rest), e) ↦
            let reads : (0 < length got) × (got ++ arrived rest ≡ arrived stream) =
              subst (Reads stream) e (read-Reads asked stream some_asked) in
            let fits = read_le asked stream rest got e in
            let left : size - (written + length got) ≡ size - written - length got = omega arith in
            let (taken, complete) : Takes (size - (written + length got)) (out ++ got ∷ [])
                (arrived rest)
                (receive_plain fuel size (written + length got) rest (out ++ got ∷ [])) =
              receive_plain-Takes fuel size (written + length got) rest (out ++ got ∷ [])
                (omega arith) in
            subst (Takes (size - written) out (arrived stream))
              (sym (receive_plain_more fuel size written stream out got rest short e))
              (
                taken
                    ∙ ap (λ s. s ++ take (size - (written + length got)) (arrived rest))
                        (joined-append out got)
                    ∙ append_assoc (joined out) got
                        (take (size - (written + length got)) (arrived rest))
                    ∙ ap (λ n. joined out ++ (got ++ take n (arrived rest))) left
                    ∙ ap (◌++◌ (joined out))
                        (sym (take_past (size - written) got (arrived rest) (omega arith)))
                    ∙ ap (λ s. joined out ++ take (size - written) s) reads.1,
                ground (arith, length-append got (arrived rest), ap length reads.1),
              )
      ]
]

pub receive_body-Takes :
    (request : HttpRequest) (initial_body : Bytes) (stream : Stream)
    → request.chunked ≡ false
    → length initial_body ≤ request.content_length
    → Takes request.content_length []
        (initial_body ++ arrived stream)
        (receive_body request initial_body stream)
unfolding receive_body
receive_body-Takes request initial_body stream plain fits =
    let size = request.content_length in
    let (taken, complete) : Takes (size - length initial_body) (first_write initial_body)
        (arrived stream)
        (receive_plain size size (length initial_body) stream (first_write initial_body)) =
      receive_plain-Takes size size (length initial_body) stream (first_write initial_body)
        (omega arith) in
    rw plain (
      taken
          ∙ ap (λ s. s ++ take (size - length initial_body) (arrived stream))
              (joined-first_write initial_body)
          ∙ sym (take_past size initial_body (arrived stream) fits),
      ground (arith, length-append initial_body (arrived stream)),
    )
