-- ===== src/Http/Chunked/Lines.antt =====
-- Lines and counted bytes out of the buffer of a chunked body, which is filled as the bytes arrive.
use mathlib.Core.List.{append_assoc}
use localsend_handheld.Prelude.{
  ℕ, zero, suc, ◌+◌, ◌≤◌, ◌<◌, ◌≡◌, refl, sym, ap, subst, ◌∙◌, true, [], ◌∷◌, ◌++◌, Option, none,
  some, ltb, leb, Bool-cases, Option-cases, inl, inr, Bytes, has_no, length, length-append, ltb→lt,
  leb→le, arith,
}
use localsend_handheld.Http.Stream.{Stream, read}
use localsend_handheld.Http.Stream.Body.{arrived, Reads, read-Reads}
use localsend_handheld.Http.Chunked.{fill_stream_buffer, find_line, read_line}

-- Where one text is cut in two ways, the longer front is the shorter one and a part of what follows that.
pub append_split :
    (a b xs ys : Bytes)
    → a ++ b ≡ xs ++ ys
    → length a ≤ length xs
    → (c : Bytes) × (xs ≡ a ++ c) × (c ++ ys ≡ b)
append_split [] b xs ys e h = (xs, refl, sym e)
append_split (x ∷ a) b [] ys e h = absurd (omega arith)
append_split (x ∷ a) b (y ∷ xs) ys e h =
    let parts : (x ≡ y) × (a ++ b ≡ xs ++ ys) = (cc, cc) in
    let (c, front, back) = append_split a b xs ys parts.1 (omega arith) in
    (c, cc (parts.0, front), back)

-- A buffer that is filled has the wanted bytes, and none is lost.
abbrev pub Filled : ℕ → Bytes → Option (Bytes × Stream) → Type 0
Filled need whole none = ⊥
Filled need whole (some (buffer, stream)) =
    (need ≤ length buffer) × (buffer ++ arrived stream ≡ whole)

pub fill_stream_buffer-Filled :
    (fuel need : ℕ) (buffer whole : Bytes) (stream : Stream)
    → buffer ++ arrived stream ≡ whole
    → need ≤ length buffer + fuel
    → need ≤ length whole
    → Filled need whole (fill_stream_buffer fuel need buffer stream)
unfolding fill_stream_buffer
fill_stream_buffer-Filled zero need buffer whole stream e h k = (omega arith, e)
fill_stream_buffer-Filled (suc fuel) need buffer whole stream e h k =
    elim (Bool-cases (ltb (length buffer) need)) [
      | inr enough ↦ rw (fill_stream_buffer, enough) (ground arith, e)
      | inl short ↦ elim (Option-cases (read 8192 stream)) [
        | inl end ↦
            let nothing = subst (Reads stream) end (read-Reads 8192 stream (omega arith)) in
            absurd (
              omega (
                arith,
                ap length e,
                length-append buffer (arrived stream),
                ap length nothing,
                ltb→lt (length buffer) need short,
              ))
        | inr ((got, rest), more) ↦
            let reads = subst (Reads stream) more (read-Reads 8192 stream (omega arith)) in
            rw (fill_stream_buffer, short, more)
              (fill_stream_buffer-Filled fuel need (buffer ++ got) whole rest
                (append_assoc buffer got (arrived rest) ∙ ap (◌++◌ buffer) reads.1 ∙ e)
                (omega (arith, length-append buffer got, reads.0)) k)
      ]
    ]

find_line-append :
    (line rest : Bytes)
    → has_no 13 line ≡ true
    → find_line (line ++ (13 ∷ 10 ∷ rest)) ≡ some (line, rest)
unfolding find_line
find_line-append [] rest h = refl
find_line-append (c ∷ []) rest h = ground arith
find_line-append (c ∷ d ∷ line) rest h = ground (arith, find_line-append (d ∷ line) rest)

find_line-short :
    (line buffer behind : Bytes)
    → has_no 13 line ≡ true
    → line ++ (13 ∷ []) ≡ buffer ++ behind
    → find_line buffer ≡ none
unfolding find_line
find_line-short line [] behind h e = refl
find_line-short line (a ∷ []) behind h e = refl
find_line-short [] (a ∷ b ∷ buffer) behind h e = cc
find_line-short (c ∷ line) (a ∷ b ∷ buffer) behind h e =
    let parts : (c ≡ a) × (line ++ (13 ∷ []) ≡ (b ∷ buffer) ++ behind) = (cc, cc) in
    ground (arith, parts.0, find_line-short line (b ∷ buffer) behind (ground arith) parts.1)

-- A line that is read, with what follows it.
abbrev pub LineRead : Bytes → Bytes → Option (Bytes × Bytes × Stream) → Type 0
LineRead line behind none = ⊥
LineRead line behind (some (found, buffer, stream)) =
    (found ≡ line) × (buffer ++ arrived stream ≡ behind)

-- A line without a carriage return is read, however its bytes arrive: each round adds a byte at least.
pub read_line-LineRead :
    (fuel : ℕ) (buffer line behind : Bytes) (stream : Stream)
    → has_no 13 line ≡ true
    → buffer ++ arrived stream ≡ line ++ (13 ∷ 10 ∷ behind)
    → 0 < fuel
    → length line + 2 < length buffer + fuel
    → LineRead line behind (read_line fuel buffer stream)
unfolding read_line
read_line-LineRead zero buffer line behind stream h e some_fuel lt = absurd (omega arith)
read_line-LineRead (suc fuel) buffer line behind stream h e some_fuel lt =
    elim (Bool-cases (leb (length line + 2) (length buffer))) [
      | inl long ↦
          let (rest, front, back) =
            append_split (line ++ (13 ∷ 10 ∷ [])) behind buffer (arrived stream)
              (append_assoc line (13 ∷ 10 ∷ []) behind ∙ sym e)
              (omega (arith, length-append line (13 ∷ 10 ∷ []), leb→le _ _ long)) in
          let whole : buffer ≡ line ++ (13 ∷ 10 ∷ rest) =
            front ∙ append_assoc line (13 ∷ 10 ∷ []) rest in
          rw (read_line, whole, find_line-append line rest h) (refl, back)
      | inr short ↦
          let (rest, front, back) =
            append_split buffer (arrived stream) (line ++ (13 ∷ [])) (10 ∷ behind)
              (e ∙ sym (append_assoc line (13 ∷ []) (10 ∷ behind)))
              (ground (arith, length-append line (13 ∷ []))) in
          let shut = find_line-short line buffer rest h front in
          let need = length buffer + 1 in
          let whole = line ++ (13 ∷ 10 ∷ behind) in
          let filled =
            fill_stream_buffer-Filled 1 need buffer whole stream e (omega arith)
              (ground (arith, length-append line (13 ∷ 10 ∷ behind))) in
          elim (Option-cases (fill_stream_buffer 1 need buffer stream)) [
            | inl none_left ↦ absurd (rw none_left at filled)
            | inr ((more, rest'), got) ↦
                let more_filled : Filled need whole (some (more, rest')) = rw got at filled in
                rw (read_line, shut, got)
                  (read_line-LineRead fuel more line behind rest' h more_filled.1 (ground arith)
                    (omega (arith, more_filled.0)))
          ]
    ]
