-- ===== src/Examples/Paths.antt =====
-- Examples for the model of safe_path.cpp.
use localsend_handheld.Prelude.{◌≡◌, ◌↔◌, refl, Bool, Bytes, codes, beq, ◌||◌}
use localsend_handheld.Prelude.Decimal.{to_string}
use localsend_handheld.Prelude.FilePath.{
  stem, extension, filename, stem_extension, rsplit, after_last,
}
use localsend_handheld.SafePath.{
  sanitize_filename, collapse_dots, erase_dots, trim_front, trim_back, unique_destination_path,
  numbered_name,
}
use localsend_handheld.SafePath.Sanitize.{IsSafeName, sanitize_filename_iff}
use localsend_handheld.SafePath.Destination.{IsDestination, unique_destination_path-IsDestination}

-- A name that tries to leave the directory.
abbrev hostile : Bytes
hostile = codes "../.. /a..b\\.txt. "

sanitize_hostile : sanitize_filename hostile ≡ codes "ab.txt"
unfolding sanitize_filename collapse_dots erase_dots trim_front trim_back
sanitize_hostile = refl

sanitize_dots : sanitize_filename (codes "....") ≡ codes "file"
unfolding sanitize_filename collapse_dots erase_dots trim_front trim_back
sanitize_dots = refl

-- The inbox already holds `a.txt` and `a (1).txt`.
abbrev inbox_exists : Bytes → Bool
inbox_exists path = beq path (codes "in/a.txt") || beq path (codes "in/a (1).txt")

numbered_a : numbered_name (codes "a.tar.gz") 12 ≡ codes "a.tar (12).gz"
unfolding numbered_name stem extension filename after_last stem_extension rsplit beq to_string
numbered_a = refl

sanitize_filename_iff_example :
    ((sanitize_filename (codes "../a b. ") ≡ codes "../a b. ") ↔ IsSafeName (codes "../a b. "))
    × IsSafeName (sanitize_filename (codes "../a b. "))
    × (sanitize_filename (sanitize_filename (codes "../a b. "))
        ≡ sanitize_filename (codes "../a b. "))
sanitize_filename_iff_example = sanitize_filename_iff (codes "../a b. ")

unique_destination_path-IsDestination_example :
    IsDestination inbox_exists
      (codes "in/")
      (sanitize_filename (codes "/a.txt"))
      (unique_destination_path inbox_exists (codes "in/") (codes "/a.txt"))
unique_destination_path-IsDestination_example =
    unique_destination_path-IsDestination inbox_exists (codes "in/") (codes "/a.txt")
