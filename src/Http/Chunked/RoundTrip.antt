-- ===== src/Http/Chunked/RoundTrip.antt =====
-- A chunked body, from the chunks of the client to those of the server.
use mathlib.Core.List.{append_assoc, append-nil}
use localsend_handheld.Prelude.{
  ℕ, zero, suc, ◌+◌, ◌^◌, ◌≤◌, ◌<◌, ◌≡◌, refl, sym, ap, ◌∙◌, true, false, List, [], ◌∷◌, ◌++◌, some,
  ◌==◌, Option-cases, inl, inr, Bytes, All, take, drop, length, length-append, take-append,
  drop-append, arith,
}
use localsend_handheld.Prelude.Hex.{hex_digit}
use localsend_handheld.Http.Stream.{Stream}
use localsend_handheld.Http.Stream.Body.{arrived}
use localsend_handheld.Http.Chunked.{
  Received, chunk_size_of, hex_text, read_line, skip_trailer, fill_stream_buffer, size_fits,
  read_chunks, total, read_chunked_body, render_chunk, render_chunks,
}
use localsend_handheld.Http.Chunked.Size.{chunk_size_of-hex_text, hex_text-has_no}
use localsend_handheld.Http.Chunked.Lines.{
  append_split, Filled, fill_stream_buffer-Filled, LineRead, read_line-LineRead,
}

-- A chunk that does not end the body.
abbrev pub IsChunk : Bytes → Type 0
IsChunk chunk = (0 < length chunk) × (length chunk < 2 ^ 63)

abbrev size_line : Bytes → Bytes
size_line chunk = hex_text (suc (length chunk)) (length chunk)

render_chunks-cons :
    (chunk : Bytes) (chunks : List Bytes)
    → render_chunks (chunk ∷ chunks)
      ≡ size_line chunk ++ (13 ∷ 10 ∷ (chunk ++ (13 ∷ 10 ∷ render_chunks chunks)))
unfolding render_chunks render_chunk
render_chunks-cons chunk chunks =
    append_assoc (size_line chunk) (13 ∷ 10 ∷ (chunk ++ (13 ∷ 10 ∷ []))) (render_chunks chunks)
    ∙ ap (λ t. size_line chunk ++ (13 ∷ 10 ∷ t))
        (append_assoc chunk (13 ∷ 10 ∷ []) (render_chunks chunks))

skip_trailer_end :
    (fuel : ℕ) (buffer : Bytes) (stream : Stream)
    → 2 < fuel
    → buffer ++ arrived stream ≡ 13 ∷ 10 ∷ []
    → skip_trailer fuel buffer stream ≡ true
unfolding skip_trailer
skip_trailer_end zero buffer stream h e = absurd (omega arith)
skip_trailer_end (suc fuel) buffer stream h e =
    let line =
      read_line-LineRead (suc fuel) buffer [] [] stream refl e (omega arith) (omega arith) in
    elim (Option-cases (read_line (suc fuel) buffer stream)) [
      | inl none_read ↦ absurd (rw none_read at line)
      | inr ((found, rest, stream'), got) ↦
          let is : LineRead [] [] (some (found, rest, stream')) = rw got at line in
          rw (skip_trailer, got, is.0) refl
    ]

-- The bytes of a chunk in the filled buffer, and what stands behind its end.
chunk_in :
    (chunk filled behind : Bytes) (stream : Stream)
    → length chunk + 2 ≤ length filled
    → filled ++ arrived stream ≡ chunk ++ (13 ∷ 10 ∷ behind)
    → (rest : Bytes) × (take (length chunk) filled ≡ chunk)
      × (drop (length chunk) filled ≡ 13 ∷ 10 ∷ rest)
      × (drop (length chunk + 2) filled ≡ rest)
      × (rest ++ arrived stream ≡ behind)
chunk_in chunk filled behind stream h e =
    let end = 13 ∷ 10 ∷ [] in
    let (rest, front, back) =
      append_split (chunk ++ end) behind filled (arrived stream)
        (append_assoc chunk end behind ∙ sym e) (omega (arith, length-append chunk end)) in
    let whole : filled ≡ chunk ++ (13 ∷ 10 ∷ rest) = front ∙ append_assoc chunk end rest in
    (
      rest,
      ap (take (length chunk)) whole ∙ take-append chunk _ (length chunk) refl,
      ap (drop (length chunk)) whole ∙ drop-append chunk _ (length chunk) refl,
      ap (drop (length chunk + 2)) front
          ∙ drop-append (chunk ++ end) rest (length chunk + 2)
              (omega (arith, length-append chunk end)),
      back,
    )

read_chunks_end :
    (fuel : ℕ) (buffer : Bytes) (stream : Stream) (out : List Bytes)
    → 4 < fuel
    → buffer ++ arrived stream ≡ render_chunks []
    → read_chunks fuel buffer stream out ≡ record { writes = out; complete = true }
unfolding read_chunks render_chunks hex_text hex_digit
read_chunks_end zero buffer stream out h e = absurd (omega arith)
read_chunks_end (suc fuel) buffer stream out h e =
    let line =
      read_line-LineRead (suc fuel) buffer (b'0' ∷ []) (13 ∷ 10 ∷ []) stream refl e (omega arith)
        (omega arith) in
    let size : chunk_size_of (b'0' ∷ []) ≡ 0 =
      chunk_size_of-hex_text 1 0 (omega arith) (omega arith) in
    elim (Option-cases (read_line (suc fuel) buffer stream)) [
      | inl none_read ↦ absurd (rw none_read at line)
      | inr ((found, rest, stream'), got) ↦
          let is : LineRead (b'0' ∷ []) (13 ∷ 10 ∷ []) (some (found, rest, stream')) =
            rw got at line in
          rw (read_chunks, got, is.0, size, skip_trailer_end fuel rest stream' (omega arith) is.1)
            refl
    ]

module _ (fuel : ℕ) (buffer chunk : Bytes) (stream : Stream) (out : List Bytes) where
  -- One round of the loop takes one chunk.
  read_chunks_step :
      (line rest filled after : Bytes) (stream' stream'' : Stream)
      → read_line (suc fuel) buffer stream ≡ some (line, rest, stream')
      → chunk_size_of line ≡ length chunk
      → 0 < length chunk
      → length chunk < 2 ^ 63
      → fill_stream_buffer (length chunk + 2) (length chunk + 2) rest stream'
        ≡ some (filled, stream'')
      → take (length chunk) filled ≡ chunk
      → drop (length chunk) filled ≡ 13 ∷ 10 ∷ after
      → drop (length chunk + 2) filled ≡ after
      → read_chunks (suc fuel) buffer stream out
        ≡ read_chunks fuel after stream'' (out ++ (chunk ∷ []))
  unfolding read_chunks
  read_chunks_step line rest filled after stream' stream'' got size some_bytes small fill front end
        behind =
      let counted : (length chunk == 0) ≡ false = ground arith in
      let fits : size_fits (length chunk) ≡ true = ground arith in
      rw (read_chunks, got, size, counted, size, fits, fill, size, end, size, behind, front) refl

abbrev pub received : List Bytes → Received
received writes = record { writes = writes; complete = true }

length-render_chunks :
    (chunk : Bytes) (chunks : List Bytes)
    → length (render_chunks (chunk ∷ chunks))
      ≡ length (size_line chunk) + 2 + length chunk + 2 + length (render_chunks chunks)
length-render_chunks chunk chunks = omega (
  arith,
  ap length (render_chunks-cons chunk chunks),
  length-append (size_line chunk) (13 ∷ 10 ∷ (chunk ++ (13 ∷ 10 ∷ render_chunks chunks))),
  length-append chunk (13 ∷ 10 ∷ render_chunks chunks),
)

read_chunks-render_chunks :
    (chunks : List Bytes) (fuel : ℕ) (buffer : Bytes) (stream : Stream) (out : List Bytes)
    → All IsChunk chunks
    → buffer ++ arrived stream ≡ render_chunks chunks
    → length (render_chunks chunks) < fuel
    → read_chunks fuel buffer stream out ≡ received (out ++ chunks)
read_chunks-render_chunks [] fuel buffer stream out h e lt =
    read_chunks_end fuel buffer stream out (unfold render_chunks in omega arith) e
    ∙ ap received (sym (append-nil out))
read_chunks-render_chunks (chunk ∷ chunks) zero buffer stream out h e lt = absurd (omega arith)
read_chunks-render_chunks (chunk ∷ chunks) (suc fuel) buffer stream out h e lt =
    let rendered = render_chunks chunks in
    let n = length chunk in
    let behind = chunk ++ (13 ∷ 10 ∷ rendered) in
    let sizes = length-render_chunks chunk chunks in
    let line =
      read_line-LineRead (suc fuel) buffer (size_line chunk) behind stream
        (hex_text-has_no 13 (suc n) n refl) (e ∙ render_chunks-cons chunk chunks) (omega arith)
        (omega (arith, sizes)) in
    elim (Option-cases (read_line (suc fuel) buffer stream)) [
      | inl none_read ↦ absurd (rw none_read at line)
      | inr ((found, rest, stream'), got) ↦
          let is : LineRead (size_line chunk) behind (some (found, rest, stream')) =
            rw got at line in
          let size : chunk_size_of found ≡ n =
            ap chunk_size_of is.0
            ∙ chunk_size_of-hex_text (suc n) n (omega arith) (omega (arith, h.0.1)) in
          let filling =
            fill_stream_buffer-Filled (n + 2) (n + 2) rest behind stream' is.1 (omega arith)
              (omega (arith, length-append chunk (13 ∷ 10 ∷ rendered))) in
          elim (Option-cases (fill_stream_buffer (n + 2) (n + 2) rest stream')) [
            | inl none_left ↦ absurd (rw none_left at filling)
            | inr ((filled, stream''), fill) ↦
                let full : Filled (n + 2) behind (some (filled, stream'')) = rw fill at filling in
                let (after, front, end, back, next) =
                  chunk_in chunk filled rendered stream'' full.0 full.1 in
                read_chunks_step fuel buffer chunk stream out found rest filled after stream'
                  stream'' got size h.0.0 h.0.1 fill front end back
                ∙ read_chunks-render_chunks chunks fuel after stream'' (out ++ (chunk ∷ [])) h.1
                    next (omega (arith, sizes))
                ∙ ap received (append_assoc out (chunk ∷ []) chunks)
          ]
    ]

length-arrived-le : (stream : Stream) → length (arrived stream) ≤ total stream
length-arrived-le [] = omega arith
length-arrived-le ([] ∷ stream) = omega arith
length-arrived-le ((c ∷ segment) ∷ stream) =
    omega (arith, length-append segment (arrived stream), length-arrived-le stream)

-- However the bytes of a chunked body arrive, the server receives the chunks that the client wrote, one write for
-- each, and takes the body for complete, for chunks that are not empty and shorter than 2^63 bytes.
pub read_chunked_body-render_chunks :
    (chunks : List Bytes) (initial_body : Bytes) (stream : Stream)
    → All IsChunk chunks
    → initial_body ++ arrived stream ≡ render_chunks chunks
    → read_chunked_body initial_body stream ≡ received chunks
unfolding read_chunked_body
read_chunked_body-render_chunks chunks initial_body stream h e =
    read_chunks-render_chunks chunks (suc (length initial_body + total stream)) initial_body stream
      [] h e
      (omega
        (arith, ap length e, length-append initial_body (arrived stream), length-arrived-le stream))
