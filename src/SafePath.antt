-- ===== src/SafePath.antt =====
-- src/core/safe_path.cpp: the name under which a received file is stored. Whether a path exists is
-- asked of the file system, which is the parameter `exists` here.
pub mod Sanitize
pub mod Candidate
pub mod Destination
use mathlib.Core.Option
use localsend_handheld.Prelude.{
  ℕ, zero, suc, ◌+◌, Bool, true, false, not, ◌&&◌, ◌||◌, List, [], ◌∷◌, ◌++◌, Option, none, some,
  ltb, leb, ◌==◌, if◌then◌else◌, Bytes, codes, is_empty, keep_if, length,
}
use localsend_handheld.Prelude.Decimal.{to_string}
use localsend_handheld.Prelude.FilePath.{join, stem, extension}

-- What the first loop of `sanitize_filename` keeps: no control byte, no `/` and no `\`.
abbrev pub is_allowed : ℕ → Bool
is_allowed c = not (ltb c 0x20 || c == 0x7F || c == b'/' || c == b'\\')

-- `out.erase(out.find(".."), 2)`, or nothing if `..` is not there.
unfoldable pub erase_dots : Bytes → Option Bytes
erase_dots [] = none
erase_dots (a ∷ []) = none
erase_dots (a ∷ b ∷ s) =
    if a == b'.' && b == b'.' then some s else Option.map (◌∷◌ a) (erase_dots (b ∷ s))

-- The loop that erases `..`, on fuel: each round takes two bytes away.
unfoldable pub collapse_dots : ℕ → Bytes → Bytes
collapse_dots zero s = s
collapse_dots (suc fuel) s = elim (erase_dots s) [ none ↦ s | some t ↦ collapse_dots fuel t ]

abbrev pub is_trimmed : ℕ → Bool
is_trimmed c = c == b' ' || c == b'.'

-- The loops that erase spaces and dots at the front and at the back.
unfoldable pub trim_front : Bytes → Bytes
trim_front [] = []
trim_front (c ∷ s) = let rest = trim_front s in if is_trimmed c then rest else c ∷ s

unfoldable pub trim_back : Bytes → Bytes
trim_back [] = []
trim_back (c ∷ s) = let rest = trim_back s in if is_empty rest && is_trimmed c then [] else c ∷ rest

unfoldable pub sanitize_filename : Bytes → Bytes
sanitize_filename filename =
    let kept = keep_if is_allowed filename in
    let out = trim_back (trim_front (collapse_dots (length kept) kept)) in
    if is_empty out then codes "file" else out

-- `stem + " (" + std::to_string(i) + ")" + extension`
unfoldable pub numbered_name : Bytes → ℕ → Bytes
numbered_name clean i =
    stem clean ++ (codes " (" ++ (to_string i ++ (codes ")" ++ extension clean)))

-- The loop from `i` on, with `rounds` rounds left.
unfoldable pub first_free : (Bytes → Bool) → Bytes → Bytes → ℕ → ℕ → Option Bytes
first_free exists directory clean zero i = none
first_free exists directory clean (suc rounds) i =
    let rest = first_free exists directory clean rounds (i + 1) in
    let candidate = join directory (numbered_name clean i) in
    if not (exists candidate) then some candidate else rest

unfoldable pub unique_destination_path : (Bytes → Bool) → Bytes → Bytes → Bytes
unique_destination_path exists directory requested_name =
    let clean = sanitize_filename requested_name in
    let free = first_free exists directory clean 9999 1 in
    let candidate = join directory clean in
    if not (exists candidate)
    then candidate
    else elim free [ some path ↦ path | none ↦ join directory (numbered_name clean 9999) ]
