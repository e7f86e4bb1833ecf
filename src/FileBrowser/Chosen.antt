-- ===== src/FileBrowser/Chosen.antt =====
-- The file that an index chooses.
use localsend_handheld.Prelude.{
  ℕ, zero, suc, ◌+◌, ◌%◌, ◌<◌, ◌≡◌, refl, sym, ap, ◌∙◌, false, not, List, [], ◌∷◌, some, Bool-cases,
  inl, inr, Bytes, length, get_elem?, get_elem?-lt, keep_if, map, arith,
}
use mathlib.Core.List.{Mem, mem-cons, mem-cons_self}
use mathlib.Core.Logic.Or
use native.Mathlib.Nat.{mod-lt, mod-eq_of_lt, add-mod_right}
use localsend_handheld.Prelude.Result.{ok}
use localsend_handheld.FileBrowser.{
  FileEntry, DirectoryListing, Directory, list_directory, selectable_files, file_at,
  selectable_file_at,
}

abbrev Entries : Type 0
Entries = List FileEntry

file_at-lt :
    (files : List Bytes) (index : ℕ)
    → 0 < length files
    → file_at files index ≡ get_elem? files (index % length files)
file_at-lt [] index h = absurd (omega arith)
file_at-lt (f ∷ files) index h = refl

abbrev paths : Entries → List Bytes
paths entries =
    map (λ (e : FileEntry). e.path) (keep_if (λ (e : FileEntry). not e.directory) entries)

abbrev Behind : Entries → Bytes → Type 0
Behind entries path = (e : FileEntry) × Mem e entries × (e.directory ≡ false) × (e.path ≡ path)

cons-Behind :
    (e : FileEntry) (entries : Entries) (path : Bytes)
    → Behind entries path
    → Behind (e ∷ entries) path
cons-Behind e entries path (f, m, d, p) = (f, mem-cons.1 (Or.inr m), d, p)

found-Behind :
    (e : FileEntry) (entries : Entries) (i : ℕ) (path : Bytes)
    → e.directory ≡ false
    → get_elem? (e.path ∷ paths entries) i ≡ some path
    → ((j : ℕ) → get_elem? (paths entries) j ≡ some path → Behind entries path)
    → Behind (e ∷ entries) path
found-Behind e entries zero path d h k = (e, mem-cons_self, d, cc)
found-Behind e entries (suc i) path d h k = cons-Behind e entries path (k i h)

-- A file found in the list of the files comes from an entry that is no directory.
get_elem?-Behind :
    (entries : Entries) (i : ℕ) (path : Bytes)
    → get_elem? (paths entries) i ≡ some path
    → Behind entries path
get_elem?-Behind [] i path h = cc
get_elem?-Behind (e ∷ entries) i path h = elim (Bool-cases e.directory) [
  | inl d ↦ cons-Behind e entries path (get_elem?-Behind entries i path (rw d at h))
  | inr d ↦ found-Behind e entries i path d (rw d at h) (λ j. get_elem?-Behind entries j path)
]

-- In a directory with files, every index chooses one of them, that of an entry which is no directory; as many
-- steps on as there are files the same one is chosen, and each file is chosen by its own position.
pub selectable_file_at-cycles :
    (sort : Entries → Entries) (d : Directory) (path : Bytes) (listing : DirectoryListing)
    (index : ℕ)
    → list_directory sort d path ≡ ok listing
    → 0 < length (selectable_files listing)
    → (file : Bytes) × (selectable_file_at sort d path index ≡ ok (some file))
      × (selectable_file_at sort d path (index + length (selectable_files listing))
          ≡ ok (some file))
      × (index < length (selectable_files listing)
          → get_elem? (selectable_files listing) index ≡ some file)
      × ((e : FileEntry) × Mem e listing.entries × (e.directory ≡ false) × (e.path ≡ file))
unfolding selectable_file_at selectable_files
selectable_file_at-cycles sort d path listing index h lt =
    let files = selectable_files listing in
    let n = length files in
    let at = get_elem?-lt files (index % n) (mod-lt index lt) in
    let file = at.0 in
    let found = at.1 in
    let chosen = file_at-lt files index lt ∙ found in
    let again : (index + n) % n ≡ index % n = add-mod_right index n in
    (
      file,
      rw (h, chosen) refl,
      rw h (ap ok (file_at-lt files (index + n) lt ∙ rw again found)),
      λ small. ap (get_elem? files) (sym (mod-eq_of_lt small)) ∙ found,
      get_elem?-Behind listing.entries (index % n) file found,
    )
