-- ===== src/Prelude/FilePath.antt =====
-- The members of `std::filesystem::path` that the source uses, as POSIX has them, on the byte string
-- of a path.
use Prim.Native.Nat.{ℕ}
use mathlib.Core.Path.{◌≡◌, refl, ap}
use mathlib.Core.Bool.{Bool, true, false, ◌||◌, not}
use mathlib.Core.List.{[], ◌∷◌, ◌++◌, append-nil}
use mathlib.Core.Logic.{inl, inr, ◌≢◌}
use mathlib.Core.Option.{Option, none, some}
use native.Mathlib.Omega.{arith}
use localsend_handheld.Prelude.Tests.{Bool-cases, ◌==◌, if◌then◌else◌}
use localsend_handheld.Prelude.Lists.{all}
use localsend_handheld.Prelude.Text.{Bytes, codes, beq}

-- The part behind the last `c`.
unfoldable pub after_last : ℕ → Bytes → Option Bytes
after_last c [] = none
after_last c (x ∷ s) = elim (after_last c s) [
  | some r ↦ some r
  | none ↦ if x == c then some s else none
]

-- `last` is the split of `s`.
rsplit_cons : ℕ → ℕ → Bytes → Option (Bytes × Bytes) → Option (Bytes × Bytes)
rsplit_cons c x s (some (before, rest)) = some (x ∷ before, rest)
rsplit_cons c x s none = if x == c then some ([], x ∷ s) else none

-- The part before the last `c`, and the part from it on.
unfoldable pub rsplit : ℕ → Bytes → Option (Bytes × Bytes)
unfolding rsplit_cons
rsplit c [] = none
rsplit c (x ∷ s) = rsplit_cons c x s (rsplit c s)

-- `p.filename()`
unfoldable pub filename : Bytes → Bytes
filename p = elim (after_last b'/' p) [ some r ↦ r | none ↦ p ]

-- A leading dot begins no extension.
abbrev split_name : Bytes → Option (Bytes × Bytes) → Bytes × Bytes
split_name name none = (name, [])
split_name name (some ([], rest)) = (name, [])
split_name name (some (c ∷ before, rest)) = (c ∷ before, rest)

-- The stem and the extension of a file name.
unfoldable pub stem_extension : Bytes → Bytes × Bytes
stem_extension name =
    if beq name (codes ".") || beq name (codes "..")
    then (name, [])
    else split_name name (rsplit b'.' name)

-- `p.stem()` and `p.extension()`
unfoldable pub stem : Bytes → Bytes
stem p = (stem_extension (filename p)).0

unfoldable pub extension : Bytes → Bytes
extension p = (stem_extension (filename p)).1

unfoldable pub ends_with_slash : Bytes → Bool
ends_with_slash [] = false
ends_with_slash (c ∷ []) = c == b'/'
ends_with_slash (c ∷ d ∷ s) = ends_with_slash (d ∷ s)

-- `d / p`: an absolute `p` replaces, and a separator is put where `d` has a file name.
unfoldable pub join : Bytes → Bytes → Bytes
join [] p = p
join (c ∷ d) [] = if ends_with_slash (c ∷ d) then c ∷ d else (c ∷ d) ++ b'/' ∷ []
join (c ∷ d) (x ∷ p) =
    if x == b'/'
    then x ∷ p
    else if ends_with_slash (c ∷ d)
    then (c ∷ d) ++ (x ∷ p)
    else (c ∷ d) ++ (b'/' ∷ x ∷ p)

abbrev Rejoins : Bytes → Option (Bytes × Bytes) → Type 0
Rejoins s none = Unit
Rejoins s (some (before, rest)) = before ++ rest ≡ s

rsplit_cons-Rejoins :
    (c x : ℕ) (s : Bytes) (o : Option (Bytes × Bytes))
    → Rejoins s o
    → Rejoins (x ∷ s) (rsplit_cons c x s o)
unfolding rsplit_cons
rsplit_cons-Rejoins c x s (some (before, rest)) h = ap (◌∷◌ x) h
rsplit_cons-Rejoins c x s none h = elim (Bool-cases (x == c)) [ inl e ↦ rw e | inr e ↦ rw e tt ]

rsplit-Rejoins : (c : ℕ) (s : Bytes) → Rejoins s (rsplit c s)
unfolding rsplit
rsplit-Rejoins c [] = tt
rsplit-Rejoins c (x ∷ s) = rsplit_cons-Rejoins c x s (rsplit c s) (rsplit-Rejoins c s)

split_name-append :
    (name : Bytes) (o : Option (Bytes × Bytes))
    → Rejoins name o
    → (split_name name o).0 ++ (split_name name o).1 ≡ name
split_name-append name none h = append-nil name
split_name-append name (some ([], rest)) h = append-nil name
split_name-append name (some (c ∷ before, rest)) h = h

pub stem_extension-append :
    (name : Bytes) → (stem_extension name).0 ++ (stem_extension name).1 ≡ name
unfolding stem_extension
stem_extension-append name = elim (Bool-cases (beq name (codes ".") || beq name (codes ".."))) [
  | inl e ↦ rw (e, stem_extension) (append-nil name)
  | inr e ↦
      rw (e, stem_extension) (split_name-append name (rsplit b'.' name) (rsplit-Rejoins b'.' name))
]

-- The stem and the extension make up the file name.
pub stem-append-extension : (p : Bytes) → stem p ++ extension p ≡ filename p
unfolding stem extension
stem-append-extension p = stem_extension-append (filename p)

-- A name with no separator is its own file name.
after_last-none : (c : ℕ) (s : Bytes) → all (λ x. not (x == c)) s ≡ true → after_last c s ≡ none
unfolding after_last
after_last-none c [] h = refl
after_last-none c (x ∷ s) h = ground (arith, after_last-none c s)

pub filename_whole : (s : Bytes) → all (λ x. not (x == b'/')) s ≡ true → filename s ≡ s
unfolding filename
filename_whole s h = ground (arith, after_last-none b'/' s h)

split_name-filled :
    (name : Bytes) (o : Option (Bytes × Bytes)) → name ≢ [] → (split_name name o).0 ≢ []
split_name-filled name none h = h
split_name-filled name (some ([], rest)) h = h
split_name-filled name (some (c ∷ before, rest)) h = λ e. cc

stem_extension-filled : (name : Bytes) → name ≢ [] → (stem_extension name).0 ≢ []
unfolding stem_extension
stem_extension-filled name h = elim (Bool-cases (beq name (codes ".") || beq name (codes ".."))) [
  | inl e ↦ rw (e, stem_extension) h
  | inr e ↦ rw (e, stem_extension) (split_name-filled name (rsplit b'.' name) h)
]

-- The stem of a name is not empty.
pub stem-filled : (s : Bytes) → filename s ≢ [] → stem s ≢ []
unfolding stem
stem-filled s h = stem_extension-filled (filename s) h

after_last-append_cons :
    (c : ℕ) (s t : Bytes) → all (λ x. not (x == c)) t ≡ true → after_last c (s ++ c ∷ t) ≡ some t
unfolding after_last
after_last-append_cons c [] t h = ground (arith, after_last-none c t h)
after_last-append_cons c (x ∷ s) t h = ground (arith, after_last-append_cons c s t h)

after_last_slash :
    (s t : Bytes)
    → ends_with_slash s ≡ true
    → all (λ x. not (x == b'/')) t ≡ true
    → after_last b'/' (s ++ t) ≡ some t
unfolding after_last ends_with_slash
after_last_slash [] t h k = cc
after_last_slash (c ∷ []) t h k = ground (arith, after_last-none b'/' t k)
after_last_slash (c ∷ d ∷ s) t h k = ground (arith, after_last_slash (d ∷ s) t h k)

-- A name with no separator is the file name of the path that it is put behind.
pub filename-join :
    (d s : Bytes) → s ≢ [] → all (λ x. not (x == b'/')) s ≡ true → filename (join d s) ≡ s
unfolding join
filename-join [] s h k = filename_whole s k
filename-join (c ∷ d) [] h k = absurd (h refl)
filename-join (c ∷ d) (x ∷ s) h k =
    unfold filename in
    ground (arith, after_last_slash (c ∷ d) (x ∷ s), after_last-append_cons b'/' (c ∷ d) (x ∷ s) k)
