-- ===== src/DeviceStore/Sorted.antt =====
-- `snapshot` of device_store.cpp: the order of the list that the user sees.
use localsend_handheld.Prelude.{
  ℕ, ◌≤◌, ◌≡◌, refl, ◌∙◌, true, false, List, [], ◌∷◌, arith, ◌==◌, if◌then◌else◌, keep_if,
}
use localsend_handheld.DeviceStore.{
  DeviceEntry, DeviceStore, is_manual, entry_before, insert_entry, stable_sort, snapshot,
}

-- The place of an entry in the order: manual before discovered, and online before offline in each.
unfoldable pub rank : DeviceEntry → ℕ
rank x = if is_manual x.source then (if x.online then 0 else 1) else (if x.online then 2 else 3)

abbrev pub IsRanked : List DeviceEntry → Type 0
IsRanked [] = Unit
IsRanked (x ∷ []) = Unit
IsRanked (x ∷ y ∷ rest) = (rank x ≤ rank y) × IsRanked (y ∷ rest)

entry_before-rank : (x y : DeviceEntry) → entry_before x y ≡ true → rank x ≤ rank y
unfolding entry_before rank
entry_before-rank x y h = ground arith

not-entry_before-rank : (x y : DeviceEntry) → entry_before x y ≡ false → rank y ≤ rank x
unfolding entry_before rank
not-entry_before-rank x y h = ground arith

entry_before-ne-rank : (x y : DeviceEntry) → entry_before x y ≡ true → (rank x == rank y) ≡ false
unfolding entry_before rank
entry_before-ne-rank x y h = ground arith

-- The entries of one rank, in their order.
abbrev pub with_rank : ℕ → List DeviceEntry → List DeviceEntry
with_rank r = keep_if (λ x. rank x == r)

insert_entry-IsRanked :
    (x : DeviceEntry) (ys : List DeviceEntry) → IsRanked ys → IsRanked (insert_entry x ys)
unfolding insert_entry
insert_entry-IsRanked x [] h = tt
insert_entry-IsRanked x (y ∷ []) h =
    ground (arith, entry_before-rank y x, not-entry_before-rank y x)
insert_entry-IsRanked x (y ∷ z ∷ ys) h = ground (
  arith,
  entry_before-rank y x,
  not-entry_before-rank y x,
  entry_before-rank z x,
  not-entry_before-rank z x,
  insert_entry-IsRanked x (z ∷ ys) h.1,
)

insert_entry-with_rank :
    (r : ℕ) (x : DeviceEntry) (ys : List DeviceEntry)
    → with_rank r (insert_entry x ys) ≡ with_rank r (x ∷ ys)
unfolding insert_entry
insert_entry-with_rank r x [] = refl
insert_entry-with_rank r x (y ∷ ys) =
    ground (arith, entry_before-ne-rank y x, insert_entry-with_rank r x ys)

stable_sort-IsRanked : (xs : List DeviceEntry) → IsRanked (stable_sort xs)
unfolding stable_sort
stable_sort-IsRanked [] = tt
stable_sort-IsRanked (x ∷ xs) = insert_entry-IsRanked x (stable_sort xs) (stable_sort-IsRanked xs)

stable_sort-with_rank :
    (r : ℕ) (xs : List DeviceEntry) → with_rank r (stable_sort xs) ≡ with_rank r xs
unfolding stable_sort
stable_sort-with_rank r [] = refl
stable_sort-with_rank r (x ∷ xs) =
    insert_entry-with_rank r x (stable_sort xs) ∙ ground (arith, stable_sort-with_rank r xs)

-- The snapshot lists manual before discovered entries, and online before offline ones within each;
-- the entries of each of the four kinds are those of the store, in the store's order.
pub snapshot-IsRanked :
    (s : DeviceStore) → IsRanked (snapshot s) × ((r : ℕ) → with_rank r (snapshot s) ≡ with_rank r s)
unfolding snapshot
snapshot-IsRanked s = (stable_sort-IsRanked s, λ r. stable_sort-with_rank r s)
