-- ===== src/Prelude/Text.antt =====
-- `std::string` as the list of its bytes, with comparison and the searches of the source.
use Prim.Native.Nat.{ℕ, ◌+◌}
use Prim.Native.Char.{code}
use Prim.Native.String.{String}
use mathlib.Core.Path.{◌≡◌, refl}
use mathlib.Core.Logic.{◌↔◌}
use mathlib.Core.Bool.{Bool, true, false, not, ◌&&◌}
use mathlib.Core.List.{List, [], ◌∷◌, ◌++◌, map}
use mathlib.Core.Option
use mathlib.Core.Option.{Option, none, some}
use native.Mathlib.Omega.{arith}
use localsend_handheld.Prelude.Tests.{ltb, leb, ◌==◌, if◌then◌else◌}

abbrev pub Bytes : Type 0
Bytes = List ℕ

-- The code points of a literal: its bytes, since the source's literals are ASCII.
abbrev pub codes : String → Bytes
codes String.[] = []
codes (String.◌∷◌ c s) = code c ∷ codes s

-- `std::string::empty`.
abbrev pub is_empty {ℓ} : {A : Type ℓ} → List A → Bool
is_empty [] = true
is_empty (x ∷ xs) = false

-- `operator==` of `std::string`.
unfoldable pub beq : Bytes → Bytes → Bool
beq [] [] = true
beq [] (y ∷ ys) = false
beq (x ∷ xs) [] = false
beq (x ∷ xs) (y ∷ ys) = x == y && beq xs ys

-- `operator<` of `std::string`: lexicographic on unsigned bytes.
unfoldable pub blt : Bytes → Bytes → Bool
blt [] [] = false
blt [] (y ∷ ys) = true
blt (x ∷ xs) [] = false
blt (x ∷ xs) (y ∷ ys) = let rest = blt xs ys in if x == y then rest else ltb x y

-- `std::tolower` in the "C" locale.
unfoldable pub to_lower : ℕ → ℕ
to_lower c = if leb b'A' c && leb c b'Z' then c + 32 else c

-- `lower_ascii` of http.cpp and file_browser.cpp, and the transform of `mime_from_filename`.
unfoldable pub lower_ascii : Bytes → Bytes
unfolding to_lower
lower_ascii = map to_lower

pub beq-eq : (a b : Bytes) → beq a b ≡ true → a ≡ b
unfolding beq
beq-eq [] [] h = refl
beq-eq [] (y ∷ ys) h = cc
beq-eq (x ∷ xs) [] h = cc
beq-eq (x ∷ xs) (y ∷ ys) h = ground (arith, beq-eq xs ys)

pub beq_refl : (a : Bytes) → beq a a ≡ true
unfolding beq
beq_refl [] = refl
beq_refl (x ∷ xs) = ground (arith, beq_refl xs)

pub beq_iff : (a b : Bytes) → (beq a b ≡ true) ↔ (a ≡ b)
beq_iff a b = (beq-eq a b, λ e. rw e (beq_refl b))

pub blt_irrefl : (a : Bytes) → blt a a ≡ false
unfolding blt
blt_irrefl [] = refl
blt_irrefl (x ∷ xs) = ground (arith, blt_irrefl xs)

pub blt_trans : (a b c : Bytes) → blt a b ≡ true → blt b c ≡ true → blt a c ≡ true
unfolding blt
blt_trans [] b [] h k = ground arith
blt_trans [] b (z ∷ zs) h k = refl
blt_trans (x ∷ xs) [] c h k = cc
blt_trans (x ∷ xs) (y ∷ ys) [] h k = cc
blt_trans (x ∷ xs) (y ∷ ys) (z ∷ zs) h k = ground (arith, blt_trans xs ys zs)

pub blt_total : (a b : Bytes) → beq a b ≡ false → blt b a ≡ false → blt a b ≡ true
unfolding beq blt
blt_total [] [] h k = cc
blt_total [] (y ∷ ys) h k = refl
blt_total (x ∷ xs) [] h k = cc
blt_total (x ∷ xs) (y ∷ ys) h k = ground (arith, blt_total xs ys)

pub blt_asymm : (a b : Bytes) → blt a b ≡ true → blt b a ≡ false
unfolding blt
blt_asymm [] [] h = refl
blt_asymm [] (y ∷ ys) h = refl
blt_asymm (x ∷ xs) [] h = cc
blt_asymm (x ∷ xs) (y ∷ ys) h = ground (arith, blt_asymm xs ys)

pub lower_ascii_idem : (s : Bytes) → lower_ascii (lower_ascii s) ≡ lower_ascii s
unfolding lower_ascii
lower_ascii_idem [] = refl
lower_ascii_idem (c ∷ s) = ground (arith, lower_ascii_idem s)

-- `find(c)`: the text before the first `c` and the text behind it.
unfoldable pub cut : ℕ → Bytes → Option (Bytes × Bytes)
cut c [] = none
cut c (x ∷ s) =
    let rest = Option.map (λ p. (x ∷ p.0, p.1)) (cut c s) in if x == c then some ([], s) else rest

abbrev cons_head : ℕ → List Bytes → List Bytes
cons_head x [] = (x ∷ []) ∷ []
cons_head x (part ∷ parts) = (x ∷ part) ∷ parts

-- The parts between the separators, one more than there are separators.
unfoldable pub split_on : ℕ → Bytes → List Bytes
split_on c [] = [] ∷ []
split_on c (x ∷ s) = let parts = split_on c s in if x == c then [] ∷ parts else cons_head x parts

abbrev pub has_no : ℕ → Bytes → Bool
has_no c [] = true
has_no c (x ∷ s) = not (x == c) && has_no c s

pub cut-append : (c : ℕ) (a b : Bytes) → has_no c a ≡ true → cut c (a ++ c ∷ b) ≡ some (a, b)
unfolding cut
cut-append c [] b h = ground arith
cut-append c (x ∷ a) b h = ground (arith, cut-append c a b)

pub cut-none : (c : ℕ) (a : Bytes) → has_no c a ≡ true → cut c a ≡ none
unfolding cut
cut-none c [] h = refl
cut-none c (x ∷ a) h = ground (arith, cut-none c a)

pub split_on-has_no : (c : ℕ) (a : Bytes) → has_no c a ≡ true → split_on c a ≡ a ∷ []
unfolding split_on
split_on-has_no c [] h = refl
split_on-has_no c (x ∷ a) h = ground (arith, split_on-has_no c a)

pub split_on-append :
    (c : ℕ) (a b : Bytes) → has_no c a ≡ true → split_on c (a ++ c ∷ b) ≡ a ∷ split_on c b
unfolding split_on
split_on-append c [] b h = ground arith
split_on-append c (x ∷ a) b h = ground (arith, split_on-append c a b)

pub has_no-append : (c : ℕ) (a b : Bytes) → has_no c (a ++ b) ≡ (has_no c a && has_no c b)
has_no-append c [] b = refl
has_no-append c (x ∷ a) b = ground (arith, has_no-append c a b)
