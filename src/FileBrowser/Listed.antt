-- ===== src/FileBrowser/Listed.antt =====
-- The listing of a directory: what it holds, and in which order.
use localsend_handheld.Prelude.{
  ℕ, ◌≡◌, ◌≢◌, ◌⊎◌, refl, sym, ap, subst, ◌∙◌, Option, none, is_empty, codes, Bool, true, false,
  List, [], ◌∷◌, some, inl, inr, Bool-cases, Option-cases, Bytes, beq, beq-eq, blt, blt_trans,
  blt_total, blt_asymm, lower_ascii, arith,
}
use mathlib.Core.Logic.Or
use mathlib.Core.Logic.{∥∥₁_elim}
use mathlib.Core.List.{Mem, Perm, Pairwise, mem-cons, mem-cons_self, not-mem-nil}
use mathlib.Core.List.Perm
use mathlib.Core.List.Pairwise
use localsend_handheld.Prelude.FilePath.{filename}
use localsend_handheld.Prelude.Result.{ok}
use localsend_handheld.FileBrowser.{
  FileEntry, DirectoryListing, entry_less, Item, Directory, entry_of, entries_of, list_directory,
  is_skipped, size_of,
}

-- What `std::sort` asks of the comparison that it is given.
pub record IsStrictWeakOrder {A : Type 0} (less : A → A → Bool) : Type 0 where
  pub asymm : (a b : A) → less a b ≡ true → less b a ≡ false
  pub trans : (a b c : A) → less a b ≡ true → less b c ≡ true → less a c ≡ true
  pub between : (a b c : A) → less a b ≡ false → less b c ≡ false → less a c ≡ false

blt_between : (a b c : Bytes) → blt a b ≡ false → blt b c ≡ false → blt a c ≡ false
blt_between a b c h k = elim (Bool-cases (blt a c)) [
  | inr e ↦ e
  | inl e ↦ elim (Bool-cases (beq b a)) [
    | inl same ↦ rw (← beq-eq b a same) k
    | inr other ↦ cc (k, blt_trans b a c (blt_total b a other h) e)
  ]
]

-- The comparison of entries is a strict weak order, as the sort needs it.
entry_less-IsStrictWeakOrder : IsStrictWeakOrder entry_less
unfolding entry_less
entry_less-IsStrictWeakOrder = record {
  asymm = λ a b h. ground (arith, blt_asymm (lower_ascii a.name) (lower_ascii b.name));
  trans = λ a b c h k.
      ground (arith, blt_trans (lower_ascii a.name) (lower_ascii b.name) (lower_ascii c.name));
  between = λ a b c h k.
      ground (arith, blt_between (lower_ascii a.name) (lower_ascii b.name) (lower_ascii c.name));
}

-- Two entries in their order: no file before a directory, and names ascending but for the case of letters.
pub record InOrder (a b : FileEntry) : Type 0 where
  pub directories : b.directory ≡ true → a.directory ≡ true
  pub names : a.directory ≡ b.directory → blt (lower_ascii b.name) (lower_ascii a.name) ≡ false

entry_less-InOrder : (a b : FileEntry) → entry_less b a ≡ false → InOrder a b
unfolding entry_less
entry_less-InOrder a b h = record { directories = λ e. ground arith; names = λ e. ground arith }

-- The size that is shown: that of a regular file whose size can be asked for, and else nothing.
abbrev pub HasSize : Item → FileEntry → Type 0
HasSize item e =
    ((e.directory ≡ false) × (item.is_regular_file ≡ true) × (item.file_size ≡ some e.size))
    ⊎ (((e.directory ≡ true) ⊎ ((item.is_regular_file ≡ false) ⊎ (item.file_size ≡ none)))
        × (e.size ≡ 0))

-- What an item of the directory is shown as: it has a name, which is neither `.` nor `..`, and can be asked whether
-- it is a directory.
pub record Shows (item : Item) (e : FileEntry) : Type 0 where
  pub path : e.path ≡ item.path
  pub name : e.name ≡ filename item.path
  pub directory : item.is_directory ≡ some e.directory
  pub size : HasSize item e
  pub named : filename item.path ≢ []
  pub not_itself : filename item.path ≢ codes "."
  pub not_parent : filename item.path ≢ codes ".."

is_empty-eq : (s : Bytes) → is_empty s ≡ true → s ≡ []
is_empty-eq [] h = refl
is_empty-eq (c ∷ s) h = cc

named-is_skipped :
    (name : Bytes) → name ≢ [] → name ≢ codes "." → name ≢ codes ".." → is_skipped name ≡ false
named-is_skipped name a b c = elim (Bool-cases (is_empty name)) [
  | inl e ↦ absurd (a (is_empty-eq name e))
  | inr e ↦ elim (Bool-cases (beq name (codes "."))) [
    | inl f ↦ absurd (b (beq-eq name (codes ".") f))
    | inr f ↦ elim (Bool-cases (beq name (codes ".."))) [
      | inl g ↦ absurd (c (beq-eq name (codes "..") g))
      | inr g ↦ rw (e, f, g) refl
    ]
  ]
]

size_of-HasSize :
    (item : Item) (directory regular : Bool) (size : Option ℕ)
    → item.is_regular_file ≡ regular
    → item.file_size ≡ size
    → HasSize item (record {
      path = item.path;
      name = filename item.path;
      directory = directory;
      size = size_of item directory;
    })
size_of-HasSize item true regular size r z = inr (inl refl, refl)
size_of-HasSize item false false size r z = inr (inr (inl r), rw r refl)
size_of-HasSize item false true none r z = inr (inr (inr z), rw (r, z) refl)
size_of-HasSize item false true (some n) r z = inl (refl, r, z ∙ ap some (sym (rw (r, z) refl)))

HasSize-size_of : (item : Item) (e : FileEntry) → HasSize item e → e.size ≡ size_of item e.directory
HasSize-size_of item e (inl (d, r, z)) = rw (d, r, z) refl
HasSize-size_of item e (inr (inl d, z)) = z ∙ rw d refl
HasSize-size_of item e (inr (inr (inl r), z)) = z ∙ ground arith
HasSize-size_of item e (inr (inr (inr f), z)) = z ∙ ground arith

dots_skipped : (is_skipped (codes ".") ≡ true) × (is_skipped (codes "..") ≡ true)
unfolding beq
dots_skipped = (refl, refl)

entry_of-Shows : (item : Item) (e : FileEntry) → entry_of item ≡ some e → Shows item e
unfolding entry_of
entry_of-Shows item e h = elim (Bool-cases (is_skipped (filename item.path))) [
  | inl s ↦ absurd (cc (rw (entry_of, s) at h))
  | inr s ↦ elim (Option-cases item.is_directory) [
    | inl d ↦ absurd (cc (rw (entry_of, s, d) at h))
    | inr (directory, d) ↦
        let shown : FileEntry = record {
          path = item.path;
          name = filename item.path;
          directory = directory;
          size = size_of item directory;
        } in
        let same : some shown ≡ some e = rw (entry_of, s, d) at h in
        let shows : Shows item shown = record {
          path = refl;
          name = refl;
          directory = d;
          size = size_of-HasSize item directory item.is_regular_file item.file_size refl refl;
          named = λ f. cc (s, ap is_skipped f);
          not_itself = λ f. let skipped = sym s ∙ ap is_skipped f ∙ dots_skipped.0 in cc;
          not_parent = λ f. let skipped = sym s ∙ ap is_skipped f ∙ dots_skipped.1 in cc;
        } in
        let equal : shown ≡ e = cc in subst (Shows item) equal shows
  ]
]

Shows-entry_of : (item : Item) (e : FileEntry) → Shows item e → entry_of item ≡ some e
unfolding entry_of
Shows-entry_of item e h =
    let s = named-is_skipped (filename item.path) h.named h.not_itself h.not_parent in
    rw (entry_of, s, h.directory) (ground (arith, h.path, h.name, HasSize-size_of item e h.size))

-- An entry that an item of the directory is shown as.
abbrev pub IsGiven : List Item → FileEntry → Type 0
IsGiven items e = ∥ ((item : Item) × Mem item items × Shows item e) ∥₁

cons-IsGiven :
    (item : Item) (items : List Item) (e : FileEntry) → IsGiven items e → IsGiven (item ∷ items) e
cons-IsGiven item items e h = ∥∥₁_elim h (hlevel) (λ g. ∣ (g.0, mem-cons.1 (Or.inr g.1), g.2) ∣₁)

entries_of-IsGiven :
    (items : List Item) (e : FileEntry) → Mem e (entries_of items) → IsGiven items e
unfolding entries_of
entries_of-IsGiven [] e m = absurd (not-mem-nil m)
entries_of-IsGiven (item ∷ items) e m = elim (Option-cases (entry_of item)) [
  | inl f ↦ cons-IsGiven item items e (entries_of-IsGiven items e (rw (entries_of, f) at m))
  | inr (new, f) ↦ ∥∥₁_elim (mem-cons.0 (rw (entries_of, f) at m)) (hlevel) (λ o. elim o [
    | inl same ↦ ∣ (item, mem-cons_self, entry_of-Shows item e (f ∙ ap some (sym same))) ∣₁
    | inr behind ↦ cons-IsGiven item items e (entries_of-IsGiven items e behind)
  ])
]

entry_listed :
    (items : List Item) (item : Item) (e : FileEntry)
    → Mem item items
    → entry_of item ≡ some e
    → Mem e (entries_of items)
unfolding entries_of
entry_listed [] item e m f = absurd (not-mem-nil m)
entry_listed (first ∷ items) item e m f = ∥∥₁_elim (mem-cons.0 m) (hlevel) (λ o. elim o [
  | inl same ↦ rw (entries_of, ← same, f) mem-cons_self
  | inr behind ↦ elim (Option-cases (entry_of first)) [
    | inl g ↦ rw (entries_of, g) (entry_listed items item e behind f)
    | inr (new, g) ↦ rw (entries_of, g) (mem-cons.1 (Or.inr (entry_listed items item e behind f)))
  ]
])

-- For a sort that rearranges the entries and leaves none that is less than one before it, a listing has its
-- directories first and the names of each kind ascending but for the case of letters, and it shows exactly the items of
-- the directory that have a name, neither `.` nor `..`, and can be asked whether they are directories, each with its
-- path, its name, its kind, and its size if it is a regular file whose size can be asked for.
pub list_directory-InOrder :
    (sort : List FileEntry → List FileEntry) (d : Directory) (path : Bytes)
    (listing : DirectoryListing)
    → Perm (sort (entries_of d.items)) (entries_of d.items)
    → Pairwise (λ a b. entry_less b a ≡ false) (sort (entries_of d.items))
    → list_directory sort d path ≡ ok listing
    → Pairwise InOrder listing.entries
      × ((e : FileEntry) → Mem e listing.entries → IsGiven d.items e)
      × ((item : Item) (e : FileEntry) → Mem item d.items → Shows item e → Mem e listing.entries)
unfolding list_directory
list_directory-InOrder sort d path listing perm sorted h =
    let same : listing.entries ≡ sort (entries_of d.items) = ground arith in
    rw same (
      Pairwise.imp (λ a b. entry_less-InOrder a b) sorted,
      λ e m. entries_of-IsGiven d.items e ((Perm.mem_iff perm).0 m),
      λ item e m f. (Perm.mem_iff perm).1 (entry_listed d.items item e m (Shows-entry_of item e f)),
    )
