-- ===== src/SafePath/Candidate.antt =====
-- The numbered names of `unique_destination_path` in safe_path.cpp are safe too.
use localsend_handheld.Prelude.{
  ℕ, ◌≡◌, ◌≢◌, refl, sym, subst, ◌∙◌, true, false, not, ◌||◌, [], ◌∷◌, ◌++◌, arith, ◌==◌, Bytes,
  codes, all, all-append,
}
use localsend_handheld.Prelude.Decimal.{to_string, to_string-is_digit, is_digit}
use localsend_handheld.Prelude.FilePath.{
  stem, extension, stem-append-extension, stem-filled, filename_whole,
}
use localsend_handheld.SafePath.{numbered_name}
use localsend_handheld.SafePath.Sanitize.{
  is_name_byte, IsSafeName, has_dots, front_trimmed, back_trimmed,
}

-- A byte that is no dot keeps what stands on its sides apart.
has_dots-append_cons :
    (c : ℕ) (s t : Bytes) → (c == b'.') ≡ false → has_dots (s ++ c ∷ t) ≡ (has_dots s || has_dots t)
has_dots-append_cons c [] [] h = refl
has_dots-append_cons c [] (d ∷ t) h = ground arith
has_dots-append_cons c (a ∷ []) [] h = ground arith
has_dots-append_cons c (a ∷ []) (d ∷ t) h = ground arith
has_dots-append_cons c (a ∷ b ∷ s) t h = ground (arith, has_dots-append_cons c (b ∷ s) t h)

has_dots-append :
    (s t : Bytes) → has_dots (s ++ t) ≡ false → (has_dots s ≡ false) × (has_dots t ≡ false)
has_dots-append [] t h = (refl, h)
has_dots-append (a ∷ []) [] h = (refl, refl)
has_dots-append (a ∷ []) (b ∷ t) h = (refl, ground arith)
has_dots-append (a ∷ b ∷ s) t h = ground (arith, has_dots-append (b ∷ s) t)

digits-has_dots : (s : Bytes) → all is_digit s ≡ true → has_dots s ≡ false
digits-has_dots [] h = refl
digits-has_dots (a ∷ []) h = refl
digits-has_dots (a ∷ b ∷ s) h = ground (arith, digits-has_dots (b ∷ s))

digits-allowed : (s : Bytes) → all is_digit s ≡ true → all is_name_byte s ≡ true
digits-allowed [] h = refl
digits-allowed (a ∷ s) h = ground (arith, digits-allowed s)

front_trimmed-append : (s t : Bytes) → s ≢ [] → front_trimmed (s ++ t) ≡ front_trimmed s
front_trimmed-append [] t h = absurd (h refl)
front_trimmed-append (c ∷ s) t h = refl

back_trimmed-append_cons :
    (s : Bytes) (c : ℕ) (t : Bytes) → back_trimmed (s ++ c ∷ t) ≡ back_trimmed (c ∷ t)
back_trimmed-append_cons [] c t = refl
back_trimmed-append_cons (a ∷ []) c t = refl
back_trimmed-append_cons (a ∷ b ∷ s) c t = back_trimmed-append_cons (b ∷ s) c t

-- ")" with the extension behind it ends well.
back_trimmed_extension :
    (s t : Bytes) → back_trimmed (s ++ t) ≡ true → back_trimmed (b')' ∷ t) ≡ true
back_trimmed_extension s [] h = refl
back_trimmed_extension s (c ∷ t) h = sym (back_trimmed-append_cons s c t) ∙ h

append-filled : (s t : Bytes) → s ≢ [] → s ++ t ≢ []
append-filled [] t h = absurd (h refl)
append-filled (c ∷ s) t h = λ e. cc

module _ (s t d : Bytes) (filled : s ≢ []) (digits : all is_digit d ≡ true)
    (v : IsSafeName (s ++ t)) where
  parts_allowed : (all is_name_byte s ≡ true) × (all is_name_byte t ≡ true)
  parts_allowed = ground (arith, all-append is_name_byte s t, v.allowed)

  -- A safe name stays safe with a number in parentheses between its stem and its extension.
  numbered-IsSafeName : IsSafeName (s ++ (codes " (" ++ (d ++ (codes ")" ++ t))))
  numbered-IsSafeName = record {
    filled = append-filled s _ filled;
    allowed = ground (
      arith,
      parts_allowed,
      all-append is_name_byte s (codes " (" ++ (d ++ (codes ")" ++ t))),
      all-append is_name_byte d (codes ")" ++ t),
      digits-allowed d digits,
    );
    no_dots = ground (
      arith,
      has_dots-append s t v.no_dots,
      has_dots-append_cons b' ' s (b'(' ∷ (d ++ (codes ")" ++ t))),
      has_dots-append_cons b'(' [] (d ++ (codes ")" ++ t)),
      has_dots-append_cons b')' d t,
      digits-has_dots d digits,
    );
    front = front_trimmed-append s _ filled ∙ sym (front_trimmed-append s t filled) ∙ v.front;
    back =
        back_trimmed-append_cons s b' ' (b'(' ∷ (d ++ (codes ")" ++ t)))
        ∙ back_trimmed-append_cons (b' ' ∷ b'(' ∷ d) b')' t
        ∙ back_trimmed_extension s t v.back;
  }

pub all-allowed-slash :
    (s : Bytes) → all is_name_byte s ≡ true → all (λ x. not (x == b'/')) s ≡ true
all-allowed-slash [] h = refl
all-allowed-slash (c ∷ s) h = ground (arith, all-allowed-slash s)

-- Every name that is tried is safe.
pub numbered_name-IsSafeName :
    (clean : Bytes) (i : ℕ) → IsSafeName clean → IsSafeName (numbered_name clean i)
unfolding numbered_name
numbered_name-IsSafeName clean i v =
    let whole = filename_whole clean (all-allowed-slash clean v.allowed) in
    numbered-IsSafeName (stem clean) (extension clean) (to_string i)
      (stem-filled clean (subst (λ s. s ≢ []) (sym whole) v.filled)) (to_string-is_digit i)
      (subst IsSafeName (sym (stem-append-extension clean ∙ whole)) v)
