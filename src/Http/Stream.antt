-- ===== src/Http/Stream.antt =====
-- `HttpStream` of http.cpp as the segments in which the peer's bytes arrive, and the loops that read a
-- body of known length. A read gives what has arrived, at most as much as was asked for; an empty
-- segment, or no more segments, is a read that fails or meets the end.
pub mod Body
use mathlib.Core.Option
use localsend_handheld.Prelude.{
  ℕ, zero, suc, ◌+◌, ◌-◌, ◌*◌, Bool, true, false, List, [], ◌∷◌, ◌++◌, Option, none, some, min, ltb,
  if◌then◌else◌, Bytes, is_empty, length, take, drop,
}

abbrev pub Stream : Type 0
Stream = List Bytes

unfoldable pub read : ℕ → Stream → Option (Bytes × Stream)
read size [] = none
read size (segment ∷ stream) =
    if is_empty segment
    then none
    else if ltb size (length segment)
    then some (take size segment, drop size segment ∷ stream)
    else some (segment, stream)

-- The loop of `read_body` and of `read_remaining_body`, which differ in the size of their chunk, on
-- fuel; when the fuel is gone the body is long enough.
unfoldable pub read_to : ℕ → ℕ → ℕ → Bytes → Stream → Option Bytes
read_to zero chunk size body stream = some body
read_to (suc fuel) chunk size body stream = elim (ltb (length body) size) [
  | false ↦ some body
  | true ↦ elim (read chunk stream) [
    | none ↦ none
    | some (got, rest) ↦ read_to fuel chunk size (body ++ got) rest
  ]
]

-- `kTransferBufferSize`.
abbrev pub transfer_buffer_size : ℕ
transfer_buffer_size = 64 * 1024

-- The body starts as what came with the headers, and is cut to its length at the end.
unfoldable pub read_body : Bytes → ℕ → Stream → Option Bytes
read_body initial_body size stream =
    Option.map (take size) (read_to size 8192 size initial_body stream)

unfoldable pub read_remaining_body : Bytes → ℕ → Stream → Option Bytes
read_remaining_body initial_body size stream =
    Option.map (take size) (read_to size transfer_buffer_size size initial_body stream)
