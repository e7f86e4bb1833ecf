-- ===== src/Transfer/Progress.antt =====
-- What `set_progress`, `fail` and `cancel` of transfer.cpp do to a status, as a transition relation.
use localsend_handheld.Prelude.{
  ℕ, ◌≤◌, ◌<◌, ◌≡◌, refl, min, true, some, arith, ◌⊎◌, inl, inr, ◌≢◌, ltb, leb, ◌&&◌, Bool-cases,
}
use localsend_handheld.Transfer.{
  TransferItem, TransferStore, TransferStatus, pending, preparing, transferring, completed,
  write_progress, set_progress, get,
}
use localsend_handheld.Transfer.Lookup.{with_item-get}

-- The status after `bytes` of `size` are there, from the status before.
pub data Advance (size bytes : ℕ) : TransferStatus → TransferStatus → Type 0 where
  finish : (before : TransferStatus) → 0 < size → size ≤ bytes → Advance size bytes before completed
  start_pending : (size ≡ 0) ⊎ (bytes < size) → Advance size bytes pending transferring
  start_preparing : (size ≡ 0) ⊎ (bytes < size) → Advance size bytes preparing transferring
  stay :
      (before : TransferStatus)
      → before ≢ pending
      → before ≢ preparing
      → (size ≡ 0) ⊎ (bytes < size)
      → Advance size bytes before before

-- The branch that does not complete.
write_progress-unfinished :
    (now bytes : ℕ) (status : TransferStatus) (x : TransferItem)
    → x.status ≡ status
    → (x.size ≡ 0) ⊎ (bytes < x.size)
    → Advance x.size bytes status (write_progress now bytes x).status
unfolding write_progress
write_progress-unfinished now bytes pending x e h =
    let moved : (write_progress now bytes x).status ≡ transferring = ground arith in
    rw moved (start_pending h)
write_progress-unfinished now bytes preparing x e h =
    let moved : (write_progress now bytes x).status ≡ transferring = ground arith in
    rw moved (start_preparing h)
write_progress-unfinished now bytes st x e h =
    let kept : (write_progress now bytes x).status ≡ st = ground arith in
    rw kept (stay st (λ q. cc) (λ q. cc) h)

write_progress-Advance :
    (now bytes : ℕ) (status : TransferStatus) (x : TransferItem)
    → x.status ≡ status
    → Advance x.size bytes status (write_progress now bytes x).status
unfolding write_progress
write_progress-Advance now bytes status x e = elim (Bool-cases (ltb 0 x.size && leb x.size bytes)) [
  | inl full ↦
      let done : (write_progress now bytes x).status ≡ completed = ground arith in
      rw done (finish status (ground arith) (ground arith))
  | inr partial ↦ write_progress-unfinished now bytes status x e (ground arith)
]

-- `set_progress` on an item that is there answers `true`, and leaves the item with the byte count
-- clamped to the size, the time of the call, and the status that `Advance` gives: completed when a
-- file with content is all there, transferring from pending or preparing, and else as it was.
pub set_progress-Advance :
    (now id bytes : ℕ) (s : TransferStore) (x : TransferItem)
    → get id s ≡ some x
    → let (t, found) = set_progress now id bytes s in
      (found ≡ true)
      × (y : TransferItem) × (get id t ≡ some y)
      × Advance x.size bytes x.status y.status
      × (y.bytes_transferred ≡ min bytes x.size)
      × (y.updated_at ≡ now)
unfolding set_progress get
set_progress-Advance now id bytes s x h = (
  ground arith,
  write_progress now bytes x,
  ground (arith, with_item-get (write_progress now bytes) (λ z. ground arith) id id s),
  write_progress-Advance now bytes x.status x refl,
  ground arith,
  ground arith,
)
