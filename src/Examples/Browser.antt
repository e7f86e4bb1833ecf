-- ===== src/Examples/Browser.antt =====
-- Examples for the model of file_browser.cpp.
use localsend_handheld.Prelude.{
  ◌+◌, ◌<◌, ◌≡◌, refl, true, false, List, [], ◌∷◌, none, some, Bytes, beq, codes, length, get_elem?,
  arith,
}
use mathlib.Core.List.{Mem, Perm, Pairwise, Pairwise-singleton, forall_mem-cons, not-mem-nil}
use mathlib.Core.List.Perm
use localsend_handheld.Prelude.Decimal.{to_string}
use localsend_handheld.Prelude.FilePath.{filename, after_last}
use localsend_handheld.Prelude.Result.{ok}
use localsend_handheld.FileBrowser.{
  FileEntry, DirectoryListing, entry_less, Item, Directory, entry_of, entries_of, list_directory,
  selectable_files, selectable_file_at, unit_of, size_number, format_file_size,
}
use localsend_handheld.FileBrowser.Listed.{InOrder, Shows, IsGiven, list_directory-InOrder}
use localsend_handheld.FileBrowser.Chosen.{selectable_file_at-cycles}

abbrev folder : FileEntry
folder = record { path = codes "out/Zoo"; name = codes "Zoo"; directory = true; size = 0 }

abbrev beta : FileEntry
beta = record { path = codes "out/beta.txt"; name = codes "beta.txt"; directory = false; size = 4 }

-- A file, an item that cannot be asked, and a directory.
abbrev outbox : Directory
outbox = record {
  canonical = some (codes "/out");
  parent_path = λ path. codes "/";
  items =
      record {
        path = beta.path;
        is_directory = some false;
        is_regular_file = true;
        file_size = some 4;
      }
      ∷ record {
        path = codes "out/lost";
        is_directory = none;
        is_regular_file = false;
        file_size = none;
      }
      ∷ record {
        path = folder.path;
        is_directory = some true;
        is_regular_file = false;
        file_size = none;
      }
      ∷ [];
  advance_error = none;
}

-- What a sort makes of these two.
abbrev sorted : List FileEntry → List FileEntry
sorted entries = folder ∷ beta ∷ []

abbrev listing : DirectoryListing
listing = record {
  path = codes "/out";
  parent = codes "/";
  has_parent = true;
  entries = folder ∷ beta ∷ [];
}

entries_of_outbox : entries_of outbox.items ≡ beta ∷ folder ∷ []
unfolding entries_of entry_of filename after_last beq
entries_of_outbox = refl

listed : list_directory sorted outbox (codes "out") ≡ ok listing
unfolding list_directory beq
listed = refl

rearranged : Perm (sorted (entries_of outbox.items)) (entries_of outbox.items)
rearranged = rw entries_of_outbox (Perm.swap _ _ _)

ascending : Pairwise (λ a b. entry_less b a ≡ false) (folder ∷ beta ∷ [])
unfolding entry_less
ascending =
    Pairwise.cons ((forall_mem-cons (hlevel)).1 (refl, λ x m. absurd (not-mem-nil m)))
      (Pairwise-singleton _ beta)

kibibytes : format_file_size 1536 ≡ codes "1.5 KiB"
unfolding format_file_size size_number unit_of to_string
kibibytes = refl

list_directory-InOrder_example :
    Pairwise InOrder listing.entries
    × ((e : FileEntry) → Mem e listing.entries → IsGiven outbox.items e)
    × ((item : Item) (e : FileEntry) → Mem item outbox.items → Shows item e → Mem e listing.entries)
list_directory-InOrder_example =
    list_directory-InOrder sorted outbox (codes "out") listing rearranged ascending listed

selectable_file_at-cycles_example :
    (file : Bytes) × (selectable_file_at sorted outbox (codes "out") 2 ≡ ok (some file))
    × (selectable_file_at sorted outbox (codes "out") (2 + length (selectable_files listing))
        ≡ ok (some file))
    × (2 < length (selectable_files listing) → get_elem? (selectable_files listing) 2 ≡ some file)
    × ((e : FileEntry) × Mem e listing.entries × (e.directory ≡ false) × (e.path ≡ file))
unfolding selectable_files
selectable_file_at-cycles_example =
    selectable_file_at-cycles sorted outbox (codes "out") listing 2 listed (omega arith)
