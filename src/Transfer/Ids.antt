-- ===== src/Transfer/Ids.antt =====
-- The identifiers of the items of transfer.cpp: they ascend along the list and stay below `next_id_`.
use localsend_handheld.Prelude.{
  ℕ, suc, ◌≤◌, ◌<◌, ◌≡◌, refl, Bool, List, [], ◌∷◌, ◌++◌, none, arith, keep_if,
}
use localsend_handheld.Transfer.{TransferItem, find_locked, write_locked}

-- Every id is at least `lo`, they ascend, and all are below `hi`.
abbrev pub Ascending : ℕ → ℕ → List TransferItem → Type 0
Ascending lo hi [] = lo ≤ hi
Ascending lo hi (item ∷ items) = (lo ≤ item.id) × Ascending (suc item.id) hi items

pub Ascending-le : (lo hi : ℕ) (items : List TransferItem) → Ascending lo hi items → lo ≤ hi
Ascending-le lo hi [] h = h
Ascending-le lo hi (item ∷ items) h = omega (arith, Ascending-le (suc item.id) hi items h.1)

pub Ascending-weaken :
    (lo lo' hi : ℕ) (items : List TransferItem)
    → lo' ≤ lo
    → Ascending lo hi items
    → Ascending lo' hi items
Ascending-weaken lo lo' hi [] l h = omega arith
Ascending-weaken lo lo' hi (item ∷ items) l h = (omega arith, h.1)

pub Ascending-append :
    (lo hi : ℕ) (items : List TransferItem) (item : TransferItem)
    → item.id ≡ hi
    → Ascending lo hi items
    → Ascending lo (suc hi) (items ++ item ∷ [])
Ascending-append lo hi [] item e h = omega arith
Ascending-append lo hi (x ∷ items) item e h = (h.0, Ascending-append (suc x.id) hi items item e h.1)

pub Ascending-keep_if :
    (p : TransferItem → Bool) (lo hi : ℕ) (items : List TransferItem)
    → Ascending lo hi items
    → Ascending lo hi (keep_if p items)
Ascending-keep_if p lo hi [] h = h
Ascending-keep_if p lo hi (x ∷ items) h = ground (
  arith,
  Ascending-keep_if p (suc x.id) hi items h.1,
  Ascending-weaken (suc x.id) lo hi (keep_if p items),
)

pub Ascending-write_locked :
    (f : TransferItem → TransferItem) (keeps : (x : TransferItem) → (f x).id ≡ x.id) (id lo hi : ℕ)
    (items : List TransferItem)
    → Ascending lo hi items
    → Ascending lo hi (write_locked f id items)
unfolding write_locked
Ascending-write_locked f keeps id lo hi [] h = h
Ascending-write_locked f keeps id lo hi (x ∷ items) h =
    ground (arith, keeps x, Ascending-write_locked f keeps id (suc x.id) hi items h.1)

-- An id below the range is not there.
pub find_locked_below :
    (id lo hi : ℕ) (items : List TransferItem)
    → id < lo
    → Ascending lo hi items
    → find_locked id items ≡ none
unfolding find_locked
find_locked_below id lo hi [] l h = refl
find_locked_below id lo hi (x ∷ items) l h =
    ground (arith, find_locked_below id (suc x.id) hi items)

pub find_locked_above :
    (id lo hi : ℕ) (items : List TransferItem)
    → hi ≤ id
    → Ascending lo hi items
    → find_locked id items ≡ none
unfolding find_locked
find_locked_above id lo hi [] l h = refl
find_locked_above id lo hi (x ∷ items) l h =
    ground
      (arith, Ascending-le (suc x.id) hi items h.1, find_locked_above id (suc x.id) hi items l h.1)
