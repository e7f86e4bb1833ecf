-- ===== src/SafePath/Destination.antt =====
-- `unique_destination_path` of safe_path.cpp: where a received file goes.
use localsend_handheld.Prelude.{
  ℕ, zero, suc, ◌+◌, ◌<◌, ◌≡◌, refl, sym, subst, Bool, true, false, Option, none, some, arith,
  Bytes, Bool-cases, inl, inr, ◌⊎◌,
}
use localsend_handheld.Prelude.FilePath.{filename, join, filename-join}
use localsend_handheld.SafePath.{
  sanitize_filename, numbered_name, first_free, unique_destination_path,
}
use localsend_handheld.SafePath.Sanitize.{IsSafeName, sanitize_filename-IsSafeName}
use localsend_handheld.SafePath.Candidate.{numbered_name-IsSafeName, all-allowed-slash}

-- `path` is the first free one of the candidates.
abbrev pub Free : (Bytes → Bool) → Bytes → Bytes → ℕ → ℕ → Option Bytes → Type 0
Free exists directory clean rounds i none =
    (k : ℕ) → k < rounds → exists (join directory (numbered_name clean (i + k))) ≡ true
Free exists directory clean rounds i (some path) =
    (k : ℕ) × (k < rounds)
    × (path ≡ join directory (numbered_name clean (i + k)))
    × (exists path ≡ false)
    × ((m : ℕ) → m < k → exists (join directory (numbered_name clean (i + m))) ≡ true)

Free-next :
    (exists : Bytes → Bool) (directory clean : Bytes) (rounds i : ℕ) (r : Option Bytes)
    → exists (join directory (numbered_name clean i)) ≡ true
    → Free exists directory clean rounds (i + 1) r
    → Free exists directory clean (suc rounds) i r
Free-next exists directory clean rounds i none taken h = taken_before (suc rounds)
  where
    taken_before :
        (n : ℕ) (k : ℕ)
        → k < suc rounds
        → exists (join directory (numbered_name clean (i + k))) ≡ true
    taken_before n zero l = let same : i + 0 ≡ i = omega arith in rw same taken
    taken_before n (suc k) l =
        let same : i + suc k ≡ i + 1 + k = omega arith in rw same (h k (omega arith))
Free-next exists directory clean rounds i (some path) taken (k, l, e, free, before) = (
  suc k,
  omega arith,
  (let same : i + suc k ≡ i + 1 + k = omega arith in rw same e),
  free,
  taken_before,
)
  where
    taken_before :
        (m : ℕ) → m < suc k → exists (join directory (numbered_name clean (i + m))) ≡ true
    taken_before zero u = let same : i + 0 ≡ i = omega arith in rw same taken
    taken_before (suc m) u =
        let same : i + suc m ≡ i + 1 + m = omega arith in rw same (before m (omega arith))

first_free-Free :
    (exists : Bytes → Bool) (directory clean : Bytes) (rounds i : ℕ)
    → Free exists directory clean rounds i (first_free exists directory clean rounds i)
unfolding first_free
first_free-Free exists directory clean zero i = λ k l. absurd (omega arith)
first_free-Free exists directory clean (suc rounds) i =
    let candidate = join directory (numbered_name clean i) in
    elim (Bool-cases (exists candidate)) [
      | inl e ↦ rw e (
          Free-next exists directory clean rounds i _ e
            (first_free-Free exists directory clean rounds (i + 1)))
      | inr e ↦ rw e (
        zero,
        omega arith,
        (let same : i + 0 ≡ i = omega arith in rw same),
        e,
        λ m u. absurd (omega arith),
      )
    ]

-- Where the file goes: under a safe name directly in the directory, and not onto an existing file
-- unless every name that is tried is taken.
pub record IsDestination (exists : Bytes → Bool) (directory clean path : Bytes) : Type 0 where
  pub name : Bytes
  pub safe : IsSafeName name
  pub inside : path ≡ join directory name
  pub file : filename path ≡ name
  pub unused :
      (exists path ≡ false)
      ⊎ ((exists (join directory clean) ≡ true)
          × ((k : ℕ) → k < 9999 → exists (join directory (numbered_name clean (1 + k))) ≡ true))

module _ (exists : Bytes → Bool) (directory clean : Bytes) (v : IsSafeName clean) where
  named :
      (name : Bytes)
      → IsSafeName name
      → (exists (join directory name) ≡ false)
        ⊎ ((exists (join directory clean) ≡ true)
            × ((k : ℕ) → k < 9999 → exists (join directory (numbered_name clean (1 + k))) ≡ true))
      → IsDestination exists directory clean (join directory name)
  named name w u = record {
    name = name;
    safe = w;
    inside = refl;
    file = filename-join directory name w.filled (all-allowed-slash name w.allowed);
    unused = u;
  }

  fallback : Option Bytes → Bytes
  fallback o = elim o [ some path ↦ path | none ↦ join directory (numbered_name clean 9999) ]

  fallback-IsDestination :
      (o : Option Bytes)
      → exists (join directory clean) ≡ true
      → Free exists directory clean 9999 1 o
      → IsDestination exists directory clean (fallback o)
  unfolding fallback
  fallback-IsDestination none taken h =
      named (numbered_name clean 9999) (numbered_name-IsSafeName clean 9999 v) (inr (taken, h))
  fallback-IsDestination (some path) taken (k, l, e, free, before) = rw e (
      named (numbered_name clean (1 + k)) (numbered_name-IsSafeName clean (1 + k) v)
        (inl (rw e at free)))

module _ (exists : Bytes → Bool) (directory requested_name : Bytes) where
  free_path :
      exists (join directory (sanitize_filename requested_name)) ≡ false
      → unique_destination_path exists directory requested_name
        ≡ join directory (sanitize_filename requested_name)
  unfolding unique_destination_path
  free_path e = ground arith

  taken_path :
      exists (join directory (sanitize_filename requested_name)) ≡ true
      → unique_destination_path exists directory requested_name
        ≡ fallback exists directory
            (sanitize_filename requested_name)
            (sanitize_filename-IsSafeName requested_name)
            (first_free exists directory (sanitize_filename requested_name) 9999 1)
  unfolding unique_destination_path fallback
  taken_path e = ground arith

-- A received file goes under a safe name directly in the directory, whatever name the peer asks for,
-- and onto a path that does not exist, unless the sanitized name and all its 9999 numbered
-- forms exist.
pub unique_destination_path-IsDestination :
    (exists : Bytes → Bool) (directory requested_name : Bytes)
    → IsDestination exists directory
        (sanitize_filename requested_name)
        (unique_destination_path exists directory requested_name)
unique_destination_path-IsDestination exists directory requested_name =
    let clean = sanitize_filename requested_name in
    let v = sanitize_filename-IsSafeName requested_name in
    elim (Bool-cases (exists (join directory clean))) [
      | inl e ↦
          subst (IsDestination exists directory clean)
            (sym (taken_path exists directory requested_name e))
            (fallback-IsDestination exists directory clean v
              (first_free exists directory clean 9999 1) e
              (first_free-Free exists directory clean 9999 1))
      | inr e ↦
          subst (IsDestination exists directory clean)
            (sym (free_path exists directory requested_name e))
            (named exists directory clean v clean v (inl e))
    ]
