-- ===== src/SafePath/Sanitize.antt =====
-- What `sanitize_filename` of safe_path.cpp returns.
use mathlib.Core.Option
use localsend_handheld.Prelude.{
  ℕ, zero, suc, ◌≤◌, ◌<◌, ◌≡◌, ◌≢◌, refl, ◌∙◌, ◌↔◌, subst, Bool, true, false, not, ◌&&◌, ◌||◌, [],
  ◌∷◌, Option, none, some, arith, ◌==◌, ltb, Bytes, codes, is_empty, keep_if, length, all,
  Bool-cases, Option-cases, inl, inr,
}
use localsend_handheld.SafePath.{
  is_allowed, erase_dots, collapse_dots, trim_front, trim_back, sanitize_filename,
}

-- `..` stands somewhere.
abbrev pub has_dots : Bytes → Bool
has_dots [] = false
has_dots (a ∷ []) = false
has_dots (a ∷ b ∷ s) = (a == b'.' && b == b'.') || has_dots (b ∷ s)

abbrev pub front_trimmed : Bytes → Bool
front_trimmed [] = true
front_trimmed (c ∷ s) = not (c == 0x20 || c == 0x2E)

abbrev pub back_trimmed : Bytes → Bool
back_trimmed [] = true
back_trimmed (c ∷ []) = not (c == 0x20 || c == 0x2E)
back_trimmed (c ∷ d ∷ s) = back_trimmed (d ∷ s)

-- Neither a control byte nor a separator of any system.
abbrev pub is_name_byte : ℕ → Bool
is_name_byte c = not (ltb c 0x20 || c == 0x7F || c == 0x2F || c == 0x5C)

-- A name that names one file in a directory: not empty, with no control byte, separator or `..`, and
-- with no space or dot at its ends.
pub record IsSafeName (s : Bytes) : Type 0 where
  pub filled : s ≢ []
  pub allowed : all is_name_byte s ≡ true
  pub no_dots : has_dots s ≡ false
  pub front : front_trimmed s ≡ true
  pub back : back_trimmed s ≡ true

all-keep_if : (p : ℕ → Bool) (s : Bytes) → all p (keep_if p s) ≡ true
all-keep_if p [] = refl
all-keep_if p (c ∷ s) = ground (arith, all-keep_if p s)

-- An erasure takes two bytes, and keeps what all bytes satisfy.
abbrev Erased : Bytes → Option Bytes → Type 0
Erased s none = has_dots s ≡ false
Erased s (some t) = (length t < length s) × ((p : ℕ → Bool) → all p s ≡ true → all p t ≡ true)

erase_dots-Erased : (s : Bytes) → Erased s (erase_dots s)
unfolding erase_dots
erase_dots-Erased [] = refl
erase_dots-Erased (a ∷ []) = refl
erase_dots-Erased (a ∷ b ∷ s) = elim (Bool-cases (a == b'.' && b == b'.')) [
  | inl e ↦ rw e (omega arith, λ p h. ground arith)
  | inr e ↦ rw e (later a (b ∷ s) (erase_dots (b ∷ s)) (ground arith) (erase_dots-Erased (b ∷ s)))
]
  where
    later :
        (a : ℕ) (s : Bytes) (o : Option Bytes)
        → has_dots (a ∷ s) ≡ has_dots s
        → Erased s o
        → Erased (a ∷ s) (Option.map (◌∷◌ a) o)
    later a s none same h = same ∙ h
    later a s (some t) same h = (omega (arith, h.0), λ p q. ground (arith, h.1 p))

collapse_dots_stop : (fuel : ℕ) (s : Bytes) → erase_dots s ≡ none → collapse_dots (suc fuel) s ≡ s
unfolding collapse_dots
collapse_dots_stop fuel s e = ground arith

collapse_dots_go :
    (fuel : ℕ) (s t : Bytes)
    → erase_dots s ≡ some t
    → collapse_dots (suc fuel) s ≡ collapse_dots fuel t
unfolding collapse_dots
collapse_dots_go fuel s t e = ground arith

-- The fuel is enough: with as many rounds as bytes no `..` is left.
collapse_dots-has_dots :
    (fuel : ℕ) (s : Bytes) → length s ≤ fuel → has_dots (collapse_dots fuel s) ≡ false
unfolding collapse_dots
collapse_dots-has_dots zero [] h = refl
collapse_dots-has_dots zero (c ∷ s) h = elim h [ ]
collapse_dots-has_dots (suc fuel) s h = elim (Option-cases (erase_dots s)) [
  | inl e ↦ rw (collapse_dots_stop fuel s e) (subst (Erased s) e (erase_dots-Erased s))
  | inr (t, e) ↦
      let erased = subst (Erased s) e (erase_dots-Erased s) in
      rw (collapse_dots_go fuel s t e) (collapse_dots-has_dots fuel t (omega (arith, erased.0)))
]

collapse_dots-all :
    (p : ℕ → Bool) (fuel : ℕ) (s : Bytes) → all p s ≡ true → all p (collapse_dots fuel s) ≡ true
unfolding collapse_dots
collapse_dots-all p zero s h = h
collapse_dots-all p (suc fuel) s h = elim (Option-cases (erase_dots s)) [
  | inl e ↦ rw (collapse_dots_stop fuel s e) h
  | inr (t, e) ↦
      let erased = subst (Erased s) e (erase_dots-Erased s) in
      rw (collapse_dots_go fuel s t e) (collapse_dots-all p fuel t (erased.1 p h))
]

-- The trimming loops keep these facts.
has_dots-tail : (c : ℕ) (s : Bytes) → has_dots (c ∷ s) ≡ false → has_dots s ≡ false
has_dots-tail c [] h = refl
has_dots-tail c (d ∷ s) h = ground arith

trim_front-all : (p : ℕ → Bool) (s : Bytes) → all p s ≡ true → all p (trim_front s) ≡ true
unfolding trim_front
trim_front-all p [] h = refl
trim_front-all p (c ∷ s) h = ground (arith, trim_front-all p s)

trim_front-has_dots : (s : Bytes) → has_dots s ≡ false → has_dots (trim_front s) ≡ false
unfolding trim_front
trim_front-has_dots [] h = refl
trim_front-has_dots (c ∷ s) h = ground (arith, has_dots-tail c s, trim_front-has_dots s)

trim_front-front_trimmed : (s : Bytes) → front_trimmed (trim_front s) ≡ true
unfolding trim_front
trim_front-front_trimmed [] = refl
trim_front-front_trimmed (c ∷ s) = ground (arith, trim_front-front_trimmed s)

trim_back-all : (p : ℕ → Bool) (s : Bytes) → all p s ≡ true → all p (trim_back s) ≡ true
unfolding trim_back
trim_back-all p [] h = refl
trim_back-all p (c ∷ s) h = ground (arith, trim_back-all p s)

-- The byte in front of a trimmed rest makes no `..` that was not there.
has_dots-cons_trim_back :
    (c : ℕ) (s : Bytes) → has_dots (c ∷ s) ≡ false → has_dots (c ∷ trim_back s) ≡ false
unfolding trim_back
has_dots-cons_trim_back c [] h = refl
has_dots-cons_trim_back c (d ∷ s) h = ground (arith, has_dots-cons_trim_back d s)

trim_back-has_dots : (s : Bytes) → has_dots s ≡ false → has_dots (trim_back s) ≡ false
unfolding trim_back
trim_back-has_dots [] h = refl
trim_back-has_dots (c ∷ s) h = ground (arith, has_dots-cons_trim_back c s h)

trim_back-front_trimmed : (s : Bytes) → front_trimmed s ≡ true → front_trimmed (trim_back s) ≡ true
unfolding trim_back
trim_back-front_trimmed [] h = refl
trim_back-front_trimmed (c ∷ s) h = ground arith

back_trimmed-cons : (c : ℕ) (s : Bytes) → is_empty s ≡ false → back_trimmed (c ∷ s) ≡ back_trimmed s
back_trimmed-cons c [] h = cc
back_trimmed-cons c (d ∷ s) h = refl

trim_back-back_trimmed : (s : Bytes) → back_trimmed (trim_back s) ≡ true
unfolding trim_back
trim_back-back_trimmed [] = refl
trim_back-back_trimmed (c ∷ s) =
    ground (arith, trim_back-back_trimmed s, back_trimmed-cons c (trim_back s))

file_name-IsSafeName : IsSafeName (codes "file")
file_name-IsSafeName = record {
  filled = λ e. cc;
  allowed = refl;
  no_dots = refl;
  front = refl;
  back = refl;
}

-- Whatever name a peer sends, the sanitized name names one file: it is not empty, has no control byte,
-- separator or `..`, and no space or dot at its ends.
pub sanitize_filename-IsSafeName : (filename : Bytes) → IsSafeName (sanitize_filename filename)
unfolding sanitize_filename
sanitize_filename-IsSafeName filename =
    let kept = keep_if is_allowed filename in
    let collapsed = collapse_dots (length kept) kept in
    let out = trim_back (trim_front collapsed) in
    elim (Bool-cases (is_empty out)) [
      | inl e ↦ rw e file_name-IsSafeName
      | inr e ↦ rw e (record {
        filled = λ q. ground arith;
        allowed = trim_back-all is_allowed (trim_front collapsed) (
            trim_front-all is_allowed collapsed
              (collapse_dots-all is_allowed (length kept) kept (all-keep_if is_allowed filename)));
        no_dots = trim_back-has_dots (trim_front collapsed) (
            trim_front-has_dots collapsed
              (collapse_dots-has_dots (length kept) kept (omega arith)));
        front = trim_back-front_trimmed (trim_front collapsed) (trim_front-front_trimmed collapsed);
        back = trim_back-back_trimmed (trim_front collapsed);
      })
    ]

-- A safe name is left as it is.
keep_if-all : (p : ℕ → Bool) (s : Bytes) → all p s ≡ true → keep_if p s ≡ s
keep_if-all p [] h = refl
keep_if-all p (c ∷ s) h = ground (arith, keep_if-all p s)

erase_dots-none : (s : Bytes) → has_dots s ≡ false → erase_dots s ≡ none
unfolding erase_dots
erase_dots-none [] h = refl
erase_dots-none (a ∷ []) h = refl
erase_dots-none (a ∷ b ∷ s) h = ground (arith, erase_dots-none (b ∷ s))

collapse_dots_none : (fuel : ℕ) (s : Bytes) → has_dots s ≡ false → collapse_dots fuel s ≡ s
unfolding collapse_dots
collapse_dots_none zero s h = refl
collapse_dots_none (suc fuel) s h = collapse_dots_stop fuel s (erase_dots-none s h)

trim_front_trimmed : (s : Bytes) → front_trimmed s ≡ true → trim_front s ≡ s
unfolding trim_front
trim_front_trimmed [] h = refl
trim_front_trimmed (c ∷ s) h = ground arith

trim_back_trimmed : (s : Bytes) → back_trimmed s ≡ true → trim_back s ≡ s
unfolding trim_back
trim_back_trimmed [] h = refl
trim_back_trimmed (c ∷ []) h = ground arith
trim_back_trimmed (c ∷ d ∷ s) h = ground (arith, trim_back_trimmed (d ∷ s))

is_empty-filled : (s : Bytes) → s ≢ [] → is_empty s ≡ false
is_empty-filled [] h = absurd (h refl)
is_empty-filled (c ∷ s) h = refl

sanitize_filename_safe : (s : Bytes) → IsSafeName s → sanitize_filename s ≡ s
sanitize_filename_safe s v =
    unfold sanitize_filename in
    simp (
      keep_if-all is_allowed s v.allowed,
      collapse_dots_none (length s) s v.no_dots,
      trim_front_trimmed s v.front,
      trim_back_trimmed s v.back,
      is_empty-filled s v.filled,
    )

-- Sanitizing leaves a name as it is exactly when the name is safe; what it gives is always safe; and sanitizing
-- that again changes nothing.
pub sanitize_filename_iff :
    (s : Bytes)
    → ((sanitize_filename s ≡ s) ↔ IsSafeName s)
      × IsSafeName (sanitize_filename s)
      × (sanitize_filename (sanitize_filename s) ≡ sanitize_filename s)
sanitize_filename_iff s =
    let safe = sanitize_filename-IsSafeName s in
    (
      (λ e. subst IsSafeName e safe, sanitize_filename_safe s),
      safe,
      sanitize_filename_safe (sanitize_filename s) safe,
    )
