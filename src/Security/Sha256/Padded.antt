-- ===== src/Security/Sha256/Padded.antt =====
-- The padding of a message: whole blocks, from which the message can be read back.
use localsend_handheld.Prelude.{
  ℕ, zero, suc, ◌+◌, ◌-◌, ◌*◌, ◌/◌, ◌%◌, ◌^◌, ◌≤◌, ◌<◌, ◌≡◌, sym, ap, ◌∙◌, true, false, [], ◌∷◌,
  ◌++◌, ◌==◌, Bytes, length, take, drop, length-append, take-append, drop-append, arith,
}
use mathlib.Core.List.{append-nil, append_assoc}
use localsend_handheld.Security.Sha256.{push_zeros, length_bytes, bit_len_of, pad_message}

abbrev pub zeros : ℕ → Bytes
zeros zero = []
zeros (suc k) = 0 ∷ zeros k

length-zeros : (k : ℕ) → length (zeros k) ≡ k
length-zeros zero = omega arith
length-zeros (suc k) = omega (arith, length-zeros k)

push_zeros-zeros :
    (k fuel : ℕ) (padded : Bytes)
    → (length padded + k) % 64 ≡ 56
    → k < 64
    → k ≤ fuel
    → push_zeros fuel padded ≡ padded ++ zeros k
unfolding push_zeros
push_zeros-zeros zero zero padded e h f = sym (append-nil padded)
push_zeros-zeros zero (suc fuel) padded e h f =
    let stop : (length padded % 64 == 56) ≡ true = ground arith in
    rw (push_zeros, stop) (sym (append-nil padded))
push_zeros-zeros (suc k) zero padded e h f = absurd (omega arith)
push_zeros-zeros (suc k) (suc fuel) padded e h f =
    let more : (length padded % 64 == 56) ≡ false = ground arith in
    rw (push_zeros, more)
      (push_zeros-zeros k fuel (padded ++ (0 ∷ [])) (omega (arith, length-append padded (0 ∷ [])))
          (omega arith) (omega arith)
        ∙ append_assoc padded (0 ∷ []) (zeros k))

-- How many zeros stand behind a message.
abbrev pub zero_count : Bytes → ℕ
zero_count message = (119 - length message % 64) % 64

-- The message and the bytes that are put behind it, without a loop.
pub pad_message-append :
    (message : Bytes)
    → pad_message message
      ≡ (message ++ (0x80 ∷ zeros (zero_count message))) ++ length_bytes 8 (bit_len_of message)
unfolding pad_message
pad_message-append message =
    ap (λ t. t ++ length_bytes 8 (bit_len_of message))
      (push_zeros-zeros (zero_count message) 64 (message ++ (0x80 ∷ []))
          (omega (arith, length-append message (0x80 ∷ []))) (omega arith) (omega arith)
        ∙ append_assoc message (0x80 ∷ []) (zeros (zero_count message)))

-- The number that bytes stand for, the highest first, behind those that are read into `n`.
unfoldable pub number_from : ℕ → Bytes → ℕ
number_from n [] = n
number_from n (byte ∷ bytes) = number_from (n * 256 + byte) bytes

-- What a receiver of a padded message takes the message to be: its last eight bytes are the length in bits.
unfoldable pub read_message : Bytes → Bytes
read_message padded = take (number_from 0 (drop (length padded - 8) padded) / 8) padded

number_from-length_bytes : (n : ℕ) → n < 2 ^ 64 → number_from 0 (length_bytes 8 n) ≡ n
unfolding number_from length_bytes
number_from-length_bytes n h = omega arith

length-pad_message :
    (message : Bytes) → length (pad_message message) ≡ length message + 1 + zero_count message + 8
unfolding length_bytes
length-pad_message message =
    let front = message ++ (0x80 ∷ zeros (zero_count message)) in
    ap length (pad_message-append message)
    ∙ omega (
      arith,
      length-append front (length_bytes 8 (bit_len_of message)),
      length-append message (0x80 ∷ zeros (zero_count message)),
      length-zeros (zero_count message),
    )

-- A padded message is whole blocks of 64 bytes, and unless the length in bits overflows the message is read back.
pub read_message-pad_message :
    (message : Bytes)
    → length message < 2 ^ 61
    → (length (pad_message message) % 64 ≡ 0) × (read_message (pad_message message) ≡ message)
unfolding read_message bit_len_of
read_message-pad_message message h =
    let front = message ++ (0x80 ∷ zeros (zero_count message)) in
    let bits = length_bytes 8 (bit_len_of message) in
    let lengths = length-pad_message message in
    let last : drop (length (pad_message message) - 8) (pad_message message) ≡ bits =
      ap (drop (length (pad_message message) - 8)) (pad_message-append message)
      ∙ drop-append front bits (length (pad_message message) - 8) (
          omega (
            arith,
            lengths,
            length-append message (0x80 ∷ zeros (zero_count message)),
            length-zeros (zero_count message),
          )) in
    let size : number_from 0 bits / 8 ≡ length message =
      omega (arith, number_from-length_bytes (bit_len_of message) (omega arith)) in
    (
      omega (arith, lengths),
      ap (λ (t : Bytes). take (number_from 0 t / 8) (pad_message message)) last
          ∙ ap (take (number_from 0 bits / 8))
              (pad_message-append message ∙ append_assoc message _ bits)
          ∙ take-append message _ (number_from 0 bits / 8) size,
    )
