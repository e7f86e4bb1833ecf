-- ===== src/Http/Client/Post/Rounds.antt =====
-- What the loop of `post_file_raw` of http.cpp has written when it ends.
use mathlib.Core.List.{append_assoc}
use localsend_handheld.Prelude.{
  joined, joined-append, ℕ, zero, suc, ◌+◌, ◌-◌, ◌≤◌, ◌<◌, ◌≡◌, refl, ap, ◌∙◌, true, false, inl,
  inr, List, [], ◌∷◌, ◌++◌, ltb, ltb→lt, Bool-cases, Bytes, All, is_empty, take, drop,
  take-append-drop, length, length-append, arith,
}
use localsend_handheld.Http.Stream.{transfer_buffer_size}
use localsend_handheld.Http.Client.Post.{Link, Posting, after_write, post_rounds}

-- What was written completely is the first part of the text, all of it if the loop ended well, and no more progress was
-- told than there is content.
pub record IsPosted (text : Bytes) (size : ℕ) (p : Posting) : Type 0 where
  pub left : Bytes
  pub written : joined p.sent ++ left ≡ text
  pub whole : p.is_ok ≡ true → left ≡ []
  pub told : All (λ bytes. bytes ≤ size) p.progress

All-snoc : (P : ℕ → Type 0) (xs : List ℕ) (x : ℕ) → All P xs → P x → All P (xs ++ (x ∷ []))
All-snoc P [] x h k = (k, tt)
All-snoc P (y ∷ xs) x h k = (h.0, All-snoc P xs x h.1 k)

take_nothing : (n : ℕ) (s : Bytes) → is_empty (take (suc n) s) ≡ true → s ≡ []
take_nothing n [] h = refl
take_nothing n (c ∷ s) h = cc

drop_nothing : (n : ℕ) (s : Bytes) → length (take n s) < n → drop n s ≡ []
drop_nothing zero s h = absurd (omega arith)
drop_nothing (suc n) [] h = refl
drop_nothing (suc n) (c ∷ s) h = drop_nothing n s (omega arith)

filled : (s : Bytes) → is_empty s ≡ false → 0 < length s
filled [] h = cc
filled (c ∷ s) h = omega arith

-- No cancellation and no write that fails.
pub record IsCalm (link : Link) : Type 0 where
  pub goes_on : (i : ℕ) → link.cancelled i ≡ false
  pub writes : (i : ℕ) → link.writes i ≡ true

module _ (link : Link) (text : Bytes) (size : ℕ) where
  -- One write more.
  after_write-written :
      (p : Posting) (got rest : Bytes) (uploaded : ℕ)
      → joined p.sent ++ (got ++ rest) ≡ text
      → joined (after_write got uploaded p).sent ++ rest ≡ text
  after_write-written p got rest uploaded e =
      ap (λ s. s ++ rest) (joined-append p.sent got) ∙ append_assoc (joined p.sent) got rest ∙ e

  pub post_rounds-IsPosted :
      (fuel i uploaded : ℕ) (rest : Bytes) (p : Posting)
      → joined p.sent ++ rest ≡ text
      → uploaded + length rest ≡ size
      → All (λ bytes. bytes ≤ size) p.progress
      → length rest < fuel
      → IsPosted text size (post_rounds link fuel i rest uploaded p)
  unfolding post_rounds
  post_rounds-IsPosted zero i uploaded rest p e k h lt = absurd (omega arith)
  post_rounds-IsPosted (suc fuel) i uploaded rest p e k h lt =
      let got = take transfer_buffer_size rest in
      let behind = drop transfer_buffer_size rest in
      let total = uploaded + length got in
      let cut = take-append-drop transfer_buffer_size rest in
      let lengths : length got + length behind ≡ length rest =
        omega (arith, ap length cut, length-append got behind) in
      let next = after_write-written p got behind total (ap (◌++◌ (joined p.sent)) cut ∙ e) in
      let told = All-snoc (λ bytes. bytes ≤ size) p.progress total h (omega arith) in
      elim (Bool-cases (link.cancelled i)) [
        | inl c ↦
            rw (post_rounds, c) (record { left = rest; written = e; whole = λ f. cc; told = h })
        | inr c ↦ elim (Bool-cases (is_empty got)) [
          | inl empty ↦
              rw (post_rounds, c, empty)
                (record {
                  left = rest;
                  written = e;
                  whole = λ f. take_nothing (transfer_buffer_size - 1) rest empty;
                  told = h;
                })
          | inr full ↦ elim (Bool-cases (link.writes (suc i))) [
            | inr w ↦
                rw (post_rounds, c, full, w)
                  (record { left = rest; written = e; whole = λ f. cc; told = h })
            | inl w ↦ elim (Bool-cases (ltb (length got) transfer_buffer_size)) [
              | inl short ↦
                  rw (post_rounds, c, full, w, short)
                    (record {
                      left = behind;
                      written = next;
                      whole = λ f. drop_nothing transfer_buffer_size rest (ltb→lt _ _ short);
                      told = told;
                    })
              | inr long ↦
                  rw (post_rounds, c, full, w, long)
                    (post_rounds-IsPosted fuel (i + 1) total behind (after_write got total p) next
                      (omega (arith, lengths)) told (omega (arith, lengths, filled got full)))
            ]
          ]
        ]
      ]

  pub post_rounds-is_ok :
      (fuel i uploaded : ℕ) (rest : Bytes) (p : Posting)
      → IsCalm link
      → p.is_ok ≡ true
      → (post_rounds link fuel i rest uploaded p).is_ok ≡ true
  unfolding post_rounds
  post_rounds-is_ok zero i uploaded rest p calm h = h
  post_rounds-is_ok (suc fuel) i uploaded rest p calm h =
      let got = take transfer_buffer_size rest in
      let total = uploaded + length got in
      elim (Bool-cases (is_empty got)) [
        | inl empty ↦ rw (post_rounds, calm.goes_on i, empty) h
        | inr full ↦ elim (Bool-cases (ltb (length got) transfer_buffer_size)) [
          | inl short ↦ rw (post_rounds, calm.goes_on i, full, calm.writes (suc i), short) h
          | inr long ↦
              rw (post_rounds, calm.goes_on i, full, calm.writes (suc i), long)
                (post_rounds-is_ok fuel (i + 1) total (drop transfer_buffer_size rest)
                  (after_write got total p) calm h)
        ]
      ]
