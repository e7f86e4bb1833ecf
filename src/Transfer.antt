-- ===== src/Transfer.antt =====
-- src/core/transfer.cpp and include/localsend/transfer.hpp: the list of transfers that the user
-- interface shows. Each method takes the store and returns the new one; the mutex makes a method one
-- step. The time that a method reads from `system_clock` is its argument `now`.
pub mod Ids
pub mod Lookup
pub mod Invariant
pub mod Progress
use localsend_handheld.Prelude.{
  ℕ, ◌+◌, ◌%◌, ◌^◌, min, Bool, true, false, not, ◌&&◌, ◌||◌, List, [], ◌∷◌, ◌++◌, Option, none,
  some, ◌==◌, ltb, if◌then◌else◌, Bytes, codes, keep_if,
}

pub data TransferDirection : Type 0 where
  send receive : TransferDirection

pub data TransferStatus : Type 0 where
  pending preparing transferring completed failed cancelled : TransferStatus

pub record TransferItem : Type 0 where
  pub id : ℕ
  pub direction : TransferDirection
  pub status : TransferStatus
  pub file_name : Bytes
  pub size : ℕ
  pub bytes_transferred : ℕ
  pub peer_alias : Bytes
  pub peer_ip : Bytes
  pub error : Bytes
  pub created_at : ℕ
  pub updated_at : ℕ

pub record TransferStore : Type 0 where
  pub items : List TransferItem
  pub next_id : ℕ

abbrev pub u64_mod : ℕ
u64_mod = 2 ^ 64

-- A new store: `next_id_ = 1`.
abbrev pub empty_store : TransferStore
empty_store = record { items = []; next_id = 1 }

abbrev pub new_item : ℕ → ℕ → TransferDirection → Bytes → ℕ → Bytes → Bytes → TransferItem
new_item now id direction file_name size peer_alias peer_ip = record {
  id = id;
  direction = direction;
  status = pending;
  file_name = file_name;
  size = size;
  bytes_transferred = 0;
  peer_alias = peer_alias;
  peer_ip = peer_ip;
  error = [];
  created_at = now;
  updated_at = now;
}

-- `next_id_++` wraps at 2^64.
unfoldable pub add :
    ℕ → TransferDirection → Bytes → ℕ → Bytes → Bytes → TransferStore → ℕ × TransferStore
add now direction file_name size peer_alias peer_ip s = (
  s.next_id,
  record {
    items = s.items ++ new_item now s.next_id direction file_name size peer_alias peer_ip ∷ [];
    next_id = (s.next_id + 1) % u64_mod;
  },
)

-- The first item with the id.
unfoldable pub find_locked : ℕ → List TransferItem → Option TransferItem
find_locked id [] = none
find_locked id (item ∷ items) = if item.id == id then some item else find_locked id items

-- A write through the pointer that `find_locked` returns.
unfoldable pub write_locked :
    (TransferItem → TransferItem) → ℕ → List TransferItem → List TransferItem
write_locked f id [] = []
write_locked f id (item ∷ items) =
    if item.id == id then f item ∷ items else item ∷ write_locked f id items

-- What the mutating methods share: look the item up, return `false` if there is none, and else write.
abbrev pub with_item : (TransferItem → TransferItem) → ℕ → TransferStore → TransferStore × Bool
with_item f id s = elim (find_locked id s.items) [
  | none ↦ (s, false)
  | some item ↦ (record s { items = write_locked f id s.items }, true)
]

abbrev pub touch_locked : ℕ → TransferItem → TransferItem
touch_locked now item = record item { updated_at = now }

abbrev pub is_completed : TransferStatus → Bool
is_completed completed = true
is_completed _ = false

abbrev pub is_unstarted : TransferStatus → Bool
is_unstarted pending = true
is_unstarted preparing = true
is_unstarted _ = false

-- The tests of `clear_completed`.
abbrev pub is_finished : TransferStatus → Bool
is_finished completed = true
is_finished failed = true
is_finished cancelled = true
is_finished _ = false

unfoldable pub write_status : ℕ → TransferStatus → TransferItem → TransferItem
write_status now status item =
    let marked = record item { status = status } in
    touch_locked now (
      if is_completed status
      then record marked { bytes_transferred = item.size; error = [] }
      else marked)

unfoldable pub set_status : ℕ → ℕ → TransferStatus → TransferStore → TransferStore × Bool
unfolding write_status
set_status now id status s = with_item (write_status now status) id s

unfoldable pub write_progress : ℕ → ℕ → TransferItem → TransferItem
write_progress now bytes item =
    let moved = record item { bytes_transferred = min bytes item.size } in
    let started =
      if is_unstarted moved.status then record moved { status = transferring } else moved in
    touch_locked now (
      if ltb 0 started.size && started.bytes_transferred == started.size
      then record started { status = completed; error = [] }
      else started)

unfoldable pub set_progress : ℕ → ℕ → ℕ → TransferStore → TransferStore × Bool
unfolding write_progress
set_progress now id bytes s = with_item (write_progress now bytes) id s

unfoldable pub write_failure : ℕ → Bytes → TransferItem → TransferItem
write_failure now error item = touch_locked now (record item { status = failed; error = error })

unfoldable pub fail : ℕ → ℕ → Bytes → TransferStore → TransferStore × Bool
unfolding write_failure
fail now id error s = with_item (write_failure now error) id s

unfoldable pub write_cancelled : ℕ → TransferItem → TransferItem
write_cancelled now item = touch_locked now (record item { status = cancelled })

unfoldable pub cancel : ℕ → ℕ → TransferStore → TransferStore × Bool
unfolding write_cancelled
cancel now id s = with_item (write_cancelled now) id s

unfoldable pub get : ℕ → TransferStore → Option TransferItem
unfolding find_locked
get id s = find_locked id s.items

abbrev pub snapshot : TransferStore → List TransferItem
snapshot s = s.items

unfoldable pub clear_completed : TransferStore → TransferStore
clear_completed s = record s { items = keep_if (λ item. not (is_finished item.status)) s.items }

-- `next_id_` stays.
unfoldable pub clear : TransferStore → TransferStore
clear s = record s { items = [] }

abbrev pub direction_to_string : TransferDirection → Bytes
direction_to_string send = codes "send"
direction_to_string receive = codes "receive"

abbrev pub status_to_string : TransferStatus → Bytes
status_to_string pending = codes "pending"
status_to_string preparing = codes "preparing"
status_to_string transferring = codes "transferring"
status_to_string completed = codes "completed"
status_to_string failed = codes "failed"
status_to_string cancelled = codes "cancelled"
