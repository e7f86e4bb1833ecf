-- ===== src/FileBrowser.antt =====
-- src/core/file_browser.cpp: the files of the outbox that can be chosen. What the file system answers and
-- `std::sort` are parameters.
pub mod Listed
pub mod Chosen
use localsend_handheld.Prelude.{
  ℕ, zero, suc, ◌+◌, ◌-◌, ◌*◌, ◌/◌, ◌%◌, ◌^◌, Bool, true, false, not, ◌&&◌, ◌||◌, List, [], ◌∷◌,
  ◌++◌, Option, none, some, ltb, leb, ◌==◌, if◌then◌else◌, differs, Bytes, codes, is_empty, beq,
  blt, lower_ascii, length, get_elem?, keep_if, map,
}
use localsend_handheld.Prelude.Decimal.{to_string}
use localsend_handheld.Prelude.FilePath.{filename, join}
use localsend_handheld.Prelude.Result.{Result, ok, err, out_of_fuel, ◌>>=◌}

pub record FileEntry : Type 0 where
  pub path : Bytes
  pub name : Bytes
  pub directory : Bool
  pub size : ℕ

pub record DirectoryListing : Type 0 where
  pub path : Bytes
  pub parent : Bytes
  pub has_parent : Bool
  pub entries : List FileEntry

unfoldable pub entry_less : FileEntry → FileEntry → Bool
entry_less lhs rhs =
    if differs lhs.directory rhs.directory
    then lhs.directory
    else blt (lower_ascii lhs.name) (lower_ascii rhs.name)

-- What the iterator gives, and the answers for it: `none` stands for an error. A test for a regular file that
-- fails answers `false`.
pub record Item : Type 0 where
  pub path : Bytes
  pub is_directory : Option Bool
  pub is_regular_file : Bool
  pub file_size : Option ℕ

-- The answers for a directory: its canonical path and the parent of that, its items as far as the iterator comes,
-- and the text of the exception if it cannot advance. A directory that cannot be opened has no items.
pub record Directory : Type 0 where
  pub canonical : Option Bytes
  pub parent_path : Bytes → Bytes
  pub items : List Item
  pub advance_error : Option Bytes

abbrev pub is_skipped : Bytes → Bool
is_skipped name = is_empty name || beq name (codes ".") || beq name (codes "..")

abbrev pub size_of : Item → Bool → ℕ
size_of item directory =
    if not directory && item.is_regular_file
    then elim item.file_size [ some size ↦ size | none ↦ 0 ]
    else 0

-- The body of the loop: an entry, or `continue`.
unfoldable pub entry_of : Item → Option FileEntry
entry_of item = elim (is_skipped (filename item.path)) [
  | true ↦ none
  | false ↦ elim item.is_directory [
    | none ↦ none
    | some directory ↦ some (record {
      path = item.path;
      name = filename item.path;
      directory = directory;
      size = size_of item directory;
    })
  ]
]

unfoldable pub entries_of : List Item → List FileEntry
entries_of [] = []
entries_of (item ∷ items) = elim (entry_of item) [
  | none ↦ entries_of items
  | some entry ↦ entry ∷ entries_of items
]

abbrev pub path_of : Directory → Bytes → Bytes
path_of d path = elim d.canonical [ some canonical ↦ canonical | none ↦ path ]

-- `sort` stands for `std::sort` with `entry_less`.
unfoldable pub list_directory :
    (List FileEntry → List FileEntry) → Directory → Bytes → Result DirectoryListing
list_directory sort d path =
    let listed = path_of d path in
    let parent = d.parent_path listed in
    elim d.advance_error [
      | some what ↦ err what
      | none ↦ ok (record {
        path = listed;
        parent = parent;
        has_parent = not (is_empty parent) && not (beq parent listed);
        entries = sort (entries_of d.items);
      })
    ]

unfoldable pub selectable_files : DirectoryListing → List Bytes
selectable_files listing =
    map (λ (e : FileEntry). e.path) (keep_if (λ (e : FileEntry). not e.directory) listing.entries)

-- `files[index % files.size()]`
abbrev pub file_at : List Bytes → ℕ → Option Bytes
file_at files index = if is_empty files then none else get_elem? files (index % length files)

unfoldable pub selectable_file_at :
    (List FileEntry → List FileEntry) → Directory → Bytes → ℕ → Result (Option Bytes)
selectable_file_at sort d path index = do
  listing ← list_directory sort d path
  ok (file_at (selectable_files listing) index)

unfoldable pub first_selectable_file :
    (List FileEntry → List FileEntry) → Directory → Bytes → Result (Option Bytes)
first_selectable_file sort d path = selectable_file_at sort d path 0

-- The loop of `format_file_size`: how often the value is divided by 1024 while it is not below it, at most
-- three times. `value` is the size over 1024 ^ `unit`, which a double holds exactly for a size below 2 ^ 53.
unfoldable pub unit_of : ℕ → ℕ → ℕ → ℕ
unit_of zero unit size = unit
unit_of (suc rounds) unit size = elim (leb (1024 ^ (unit + 1)) size) [
  | true ↦ unit_of rounds (unit + 1) size
  | false ↦ unit
]

abbrev unit_name : ℕ → Bytes
unit_name zero = codes "B"
unit_name (suc zero) = codes "KiB"
unit_name (suc (suc zero)) = codes "MiB"
unit_name (suc (suc (suc unit))) = codes "GiB"

-- `size` over `scale` in tenths, to the nearest and in the middle to the even one, as `precision(1)` rounds.
abbrev pub tenths_of : ℕ → ℕ → ℕ
tenths_of size scale =
    let tenths = size * 10 / scale in
    let rest = size * 10 % scale in
    if ltb scale (2 * rest) || (2 * rest == scale && tenths % 2 == 1) then tenths + 1 else tenths

-- The number: in bytes, to the nearest whole one from 100 on, or with one decimal.
unfoldable pub size_number : ℕ → ℕ → Bytes
size_number zero size = to_string size
size_number (suc unit) size =
    let scale = 1024 ^ suc unit in
    let tenths = tenths_of size scale in
    if leb (100 * scale) size
    then to_string ((2 * size + scale) / (2 * scale))
    else to_string (tenths / 10) ++ (b'.' ∷ to_string (tenths % 10))

unfoldable pub format_file_size : ℕ → Bytes
format_file_size size =
    let unit = unit_of 3 0 size in size_number unit size ++ (b' ' ∷ unit_name unit)

abbrev pub choice_text : List Bytes → (Bytes → Option ℕ) → ℕ → Bytes → Bytes
choice_text files file_size selected file =
    let size : Bytes = elim (file_size file) [
      | some s ↦ codes ", " ++ format_file_size s
      | none ↦ []
    ] in
    filename file
    ++ (codes " ("
        ++ (to_string (selected + 1)
            ++ (codes "/" ++ (to_string (length files) ++ (size ++ codes ")")))))

-- `file_size` answers for the selected file, `none` with an error.
unfoldable pub format_file_choice :
    (List FileEntry → List FileEntry) → Directory → (Bytes → Option ℕ) → Bytes → ℕ → Result Bytes
format_file_choice sort d file_size path index = do
  listing ← list_directory sort d path
  let files = selectable_files listing
  ok (elim (file_at files index) [
    | none ↦ codes "No selectable files"
    | some file ↦ choice_text files file_size (index % length files) file
  ])

pub record OutboxStatus : Type 0 where
  pub path : Bytes
  pub sample_file : Bytes
  pub directory_ready : Bool
  pub sample_ready : Bool
  pub selectable_count : ℕ
  pub error : Bytes

-- The answers that `prepare_outbox` gets: what may throw, and the test for the sample file behind its creation
-- (`true`) or without (`false`), with the directory as it is then.
pub record Outbox : Type 0 where
  pub create_directories : Option Bytes
  pub is_directory : Result Bool
  pub exists : Bytes → Result Bool
  pub is_regular_file : Bool → Result Bool
  pub contents : Bool → Directory

abbrev failed : OutboxStatus → Bytes → OutboxStatus
failed status what = record status { error = what }

-- `catch`: the error is kept with what was set before.
abbrev caught_in {ℓ} : {A : Type ℓ} → OutboxStatus → Result A → (A → OutboxStatus) → OutboxStatus
caught_in status (ok a) rest = rest a
caught_in status (err what) rest = failed status what
caught_in status out_of_fuel rest = status

unfoldable pub count_selectable :
    (List FileEntry → List FileEntry) → Directory → OutboxStatus → OutboxStatus
count_selectable sort d status =
    caught_in status (list_directory sort d status.path)
      (λ listing. record status { selectable_count = length (selectable_files listing) })

abbrev check_sample :
    (List FileEntry → List FileEntry) → Outbox → Bool → OutboxStatus → OutboxStatus
check_sample sort o created status =
    caught_in status (o.is_regular_file created)
      (λ ready. count_selectable sort (o.contents created) (record status { sample_ready = ready }))

abbrev create_sample :
    (List FileEntry → List FileEntry) → Outbox → Bool → OutboxStatus → OutboxStatus
create_sample sort o create_sample_file status =
    if create_sample_file
    then caught_in status (o.exists status.sample_file)
        (λ found. check_sample sort o (not found) status)
    else check_sample sort o false status

unfoldable pub prepare_outbox :
    (List FileEntry → List FileEntry) → Outbox → Bytes → Bool → OutboxStatus
prepare_outbox sort o path create_sample_file =
    let status : OutboxStatus = record {
      path = path;
      sample_file = join path (codes "localsend-handheld-test.txt");
      directory_ready = false;
      sample_ready = false;
      selectable_count = 0;
      error = [];
    } in
    elim o.create_directories [
      | some what ↦ failed status what
      | none ↦ caught_in status o.is_directory (λ ready.
          create_sample sort o create_sample_file (record status { directory_ready = ready }))
    ]
