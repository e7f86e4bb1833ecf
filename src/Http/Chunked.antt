-- ===== src/Http/Chunked.antt =====
-- `read_chunked_body_to_stream` and `fill_stream_buffer` of http.cpp, and the chunks that
-- `post_chunked_raw` writes. The buffer is the part of the source's `buffer` from `pos` on, which is
-- all that its loops look at. What the source writes to its stream, one call of `write` and of
-- `progress` for each chunk, is the list of chunks here.
pub mod Size
pub mod Lines
pub mod RoundTrip
use localsend_handheld.Prelude.{
  ℕ, zero, suc, ◌+◌, ◌-◌, ◌*◌, ◌/◌, ◌%◌, Bool, true, false, ◌&&◌, ◌||◌, List, [], ◌∷◌, ◌++◌, Option,
  none, some, ltb, ◌==◌, if◌then◌else◌, Bytes, codes, is_empty, length, take, drop, cut,
}
use localsend_handheld.Transfer.{u64_mod}
use localsend_handheld.Prelude.Hex.{hex_value, hex_digit}
use localsend_handheld.Http.Url.{is_space}
use localsend_handheld.Http.Stream.{Stream, read}

-- `fill_stream_buffer`: at least `need` bytes. When the fuel is gone there are enough.
unfoldable pub fill_stream_buffer : ℕ → ℕ → Bytes → Stream → Option (Bytes × Stream)
fill_stream_buffer zero need buffer stream = some (buffer, stream)
fill_stream_buffer (suc fuel) need buffer stream = elim (ltb (length buffer) need) [
  | false ↦ some (buffer, stream)
  | true ↦ elim (read 8192 stream) [
    | none ↦ none
    | some (got, rest) ↦ fill_stream_buffer fuel need (buffer ++ got) rest
  ]
]

-- `find("\r\n", pos)`: the line, and what is behind its end.
unfoldable pub find_line : Bytes → Option (Bytes × Bytes)
find_line [] = none
find_line (a ∷ []) = none
find_line (a ∷ b ∷ s) = elim (a == 13 && b == 10) [
  | true ↦ some ([], s)
  | false ↦ elim (find_line (b ∷ s)) [ none ↦ none | some (line, rest) ↦ some (a ∷ line, rest) ]
]

-- The loop that fills the buffer by one read at a time until it holds a line.
unfoldable pub read_line : ℕ → Bytes → Stream → Option (Bytes × Bytes × Stream)
read_line zero buffer stream = none
read_line (suc fuel) buffer stream = elim (find_line buffer) [
  | some (line, rest) ↦ some (line, rest, stream)
  | none ↦ elim (fill_stream_buffer 1 (length buffer + 1) buffer stream) [
    | none ↦ none
    | some (more, stream') ↦ read_line fuel more stream'
  ]
]

-- The digits that `strtoull` reads: the value stays at 2^64 - 1 once it is beyond it.
unfoldable pub hex_digits : ℕ → Bytes → ℕ
hex_digits value [] = value
hex_digits value (c ∷ s) = elim (hex_value c) [
  | none ↦ value
  | some digit ↦
      hex_digits (if ltb (value * 16 + digit) u64_mod then value * 16 + digit else u64_mod) s
]

abbrev pub saturate : ℕ → ℕ
saturate value = if ltb value u64_mod then value else u64_mod - 1

-- The prefix `0x` counts only with a digit behind it.
unfoldable pub hex_prefixed : Bytes → ℕ
hex_prefixed (zero_digit ∷ x ∷ c ∷ s) =
    if zero_digit == b'0' && (x == b'x' || x == b'X')
    then elim (hex_value c) [ none ↦ 0 | some digit ↦ hex_digits 0 (c ∷ s) ]
    else hex_digits 0 (zero_digit ∷ x ∷ c ∷ s)
hex_prefixed s = hex_digits 0 s

-- A minus sign negates a value that fits.
unfoldable pub hex_signed : Bytes → ℕ
hex_signed [] = 0
hex_signed (c ∷ s) =
    let value = hex_prefixed s in
    if c == b'-'
    then (if ltb value u64_mod then (u64_mod - value) % u64_mod else u64_mod - 1)
    else if c == b'+'
    then saturate value
    else saturate (hex_prefixed (c ∷ s))

-- `std::strtoull(text, nullptr, 16)`
unfoldable pub strtoull_hex : Bytes → ℕ
strtoull_hex [] = 0
strtoull_hex (c ∷ s) = let rest = strtoull_hex s in if is_space c then rest else hex_signed (c ∷ s)

-- The size line up to its extensions.
unfoldable pub chunk_size_of : Bytes → ℕ
chunk_size_of line = elim (cut b';' line) [
  | none ↦ strtoull_hex line
  | some (size_text, rest) ↦ strtoull_hex size_text
]

-- The trailer: lines up to an empty one.
unfoldable pub skip_trailer : ℕ → Bytes → Stream → Bool
skip_trailer zero buffer stream = false
skip_trailer (suc fuel) buffer stream = elim (read_line (suc fuel) buffer stream) [
  | none ↦ false
  | some (line, rest, stream') ↦ elim (is_empty line) [
    | true ↦ true
    | false ↦ skip_trailer fuel rest stream'
  ]
]

-- What was written, and whether the body was complete.
pub record Received : Type 0 where
  pub writes : List Bytes
  pub complete : Bool

abbrev pub starts_with_crlf : Bytes → Bool
starts_with_crlf (a ∷ b ∷ s) = a == 13 && b == 10
starts_with_crlf _ = false

-- `chunk_size + 2` wraps in the source for the two largest sizes: then its `write` of a negative count
-- breaks the output stream, and the upload fails. Here the reading fails at once.
abbrev pub size_fits : ℕ → Bool
size_fits chunk_size = ltb (chunk_size + 2) u64_mod

-- The outer loop, on fuel. An outer round, and a round of each inner loop, takes a byte at least.
unfoldable pub read_chunks : ℕ → Bytes → Stream → List Bytes → Received
read_chunks zero buffer stream out = record { writes = out; complete = false }
read_chunks (suc fuel) buffer stream out = elim (read_line (suc fuel) buffer stream) [
  | none ↦ record { writes = out; complete = false }
  | some (line, rest, stream') ↦
      let size = chunk_size_of line in
      elim (size == 0) [
        | true ↦ record { writes = out; complete = skip_trailer fuel rest stream' }
        | false ↦
            elim (if size_fits size
              then fill_stream_buffer (size + 2) (size + 2) rest stream'
              else none) [
                | none ↦ record { writes = out; complete = false }
                | some (filled, stream'') ↦
                    let out' = out ++ take size filled ∷ [] in
                    elim (starts_with_crlf (drop size filled)) [
                      | false ↦ record { writes = out'; complete = false }
                      | true ↦ read_chunks fuel (drop (size + 2) filled) stream'' out'
                    ]
              ]
      ]
]

abbrev pub total : Stream → ℕ
total [] = 0
total (segment ∷ stream) = length segment + total stream

-- Each round takes at least the two bytes of a line's end.
unfoldable pub read_chunked_body : Bytes → Stream → Received
read_chunked_body initial_body stream =
    read_chunks (suc (length initial_body + total stream)) initial_body stream []

-- `std::hex`
unfoldable pub hex_text : ℕ → ℕ → Bytes
hex_text zero n = []
hex_text (suc fuel) n =
    let rest = hex_text fuel (n / 16) ++ hex_digit (n % 16) ∷ [] in
    if ltb n 16 then hex_digit n ∷ [] else rest

-- One chunk as the client writes it, and the whole body.
unfoldable pub render_chunk : Bytes → Bytes
render_chunk chunk =
    hex_text (suc (length chunk)) (length chunk) ++ (codes "\r\n" ++ (chunk ++ codes "\r\n"))

unfoldable pub render_chunks : List Bytes → Bytes
render_chunks [] = codes "0\r\n\r\n"
render_chunks (chunk ∷ chunks) = render_chunk chunk ++ render_chunks chunks
