-- ===== src/DeviceStore.antt =====
-- src/core/device_store.cpp and include/localsend/device_store.hpp: the peers that the program knows,
-- each under a key. The mutex makes a method one step; the time of `system_clock` is the argument
-- `now`, in seconds.
pub mod Lookup
pub mod Invariant
pub mod Stale
pub mod Sorted
pub mod Keys
use localsend_handheld.Prelude.{
  ℕ, ◌+◌, ◌-◌, Bool, true, false, not, ◌&&◌, List, [], ◌∷◌, ◌++◌, Option, none, some, ltb, ◌==◌,
  if◌then◌else◌, Bytes, codes, beq, is_empty, keep_if, length, differs,
}
use localsend_handheld.Prelude.Decimal.{int_to_string}
use localsend_handheld.Protocol.{Device}

pub data DeviceSource : Type 0 where
  discovered manual : DeviceSource

pub record DeviceEntry : Type 0 where
  pub key : Bytes
  pub device : Device
  pub source : DeviceSource
  pub online : Bool
  pub first_seen : ℕ
  pub last_seen : ℕ

-- `devices_`.
abbrev pub DeviceStore : Type 0
DeviceStore = List DeviceEntry

unfoldable pub endpoint_key : Device → Bytes
unfolding int_to_string
endpoint_key device = device.ip ++ (codes ":" ++ int_to_string device.port)

unfoldable pub device_key : Device → Bytes
unfolding endpoint_key
device_key device =
    if not (is_empty device.fingerprint)
    then codes "fingerprint:" ++ device.fingerprint
    else codes "endpoint:" ++ endpoint_key device

abbrev pub is_manual : DeviceSource → Bool
is_manual discovered = false
is_manual manual = true

abbrev pub source_to_string : DeviceSource → Bytes
source_to_string discovered = codes "discovered"
source_to_string manual = codes "manual"

-- The first entry with the key.
unfoldable pub find_locked : Bytes → DeviceStore → Option DeviceEntry
find_locked key [] = none
find_locked key (entry ∷ devices) =
    if beq entry.key key then some entry else find_locked key devices

-- A write through the pointer that `find_locked` returns.
unfoldable pub write_locked : (DeviceEntry → DeviceEntry) → Bytes → DeviceStore → DeviceStore
write_locked f key [] = []
write_locked f key (entry ∷ devices) =
    if beq entry.key key then f entry ∷ devices else entry ∷ write_locked f key devices

-- What `upsert` writes to an entry that is there; a discovery does not undo `Manual`.
unfoldable pub refresh : ℕ → Device → DeviceSource → DeviceEntry → DeviceEntry
refresh now device source existing = record existing {
  device = device;
  source = if is_manual source then manual else existing.source;
  online = true;
  last_seen = now;
}

abbrev pub new_entry : ℕ → Device → DeviceSource → Bytes → DeviceEntry
new_entry now device source key = record {
  key = key;
  device = device;
  source = source;
  online = true;
  first_seen = now;
  last_seen = now;
}

unfoldable pub upsert : ℕ → Device → DeviceSource → DeviceStore → Bytes × DeviceStore
upsert now device source devices =
    let key = device_key device in
    (
      key,
      elim (find_locked key devices) [
        | some existing ↦ write_locked (refresh now device source) key devices
        | none ↦ devices ++ new_entry now device source key ∷ []
      ],
    )

abbrev pub upsert_discovered : ℕ → Device → DeviceStore → Bytes × DeviceStore
upsert_discovered now device = upsert now device discovered

abbrev pub upsert_manual : ℕ → Device → DeviceStore → Bytes × DeviceStore
upsert_manual now device = upsert now device manual

unfoldable pub remove : Bytes → DeviceStore → DeviceStore × Bool
remove key devices =
    let left = keep_if (λ entry. not (beq entry.key key)) devices in
    (left, not (length left == length devices))

abbrev pub set_offline : DeviceEntry → DeviceEntry
set_offline entry = record entry { online = false }

unfoldable pub mark_offline : Bytes → DeviceStore → DeviceStore × Bool
mark_offline key devices = elim (find_locked key devices) [
  | none ↦ (devices, false)
  | some entry ↦ (write_locked set_offline key devices, true)
]

-- `now - last_seen > max_age`: the difference is signed, so it is compared by a sum.
unfoldable pub is_stale : ℕ → ℕ → DeviceEntry → Bool
is_stale now max_age entry =
    not (is_manual entry.source) && entry.online && ltb (max_age + entry.last_seen) now

-- The loop, with its counter.
unfoldable pub mark_stale_loop : ℕ → ℕ → DeviceStore → ℕ → DeviceStore × ℕ
mark_stale_loop now max_age [] changed = ([], changed)
mark_stale_loop now max_age (entry ∷ devices) changed =
    let (devices', changed') =
      mark_stale_loop now max_age devices
        (if is_stale now max_age entry then changed + 1 else changed) in
    ((if is_stale now max_age entry then set_offline entry else entry) ∷ devices', changed')

unfoldable pub mark_stale_offline : ℕ → ℕ → DeviceStore → DeviceStore × ℕ
mark_stale_offline now max_age devices = mark_stale_loop now max_age devices 0

unfoldable pub get : Bytes → DeviceStore → Option DeviceEntry
get key devices = find_locked key devices

-- The comparison of `snapshot`.
unfoldable pub entry_before : DeviceEntry → DeviceEntry → Bool
entry_before lhs rhs =
    if differs (is_manual lhs.source) (is_manual rhs.source)
    then is_manual lhs.source
    else if differs lhs.online rhs.online
    then lhs.online
    else false

-- `std::stable_sort` as insertion from the right: an entry goes before the first one that is not
-- smaller than it.
unfoldable pub insert_entry : DeviceEntry → List DeviceEntry → List DeviceEntry
insert_entry entry [] = entry ∷ []
insert_entry entry (other ∷ sorted) =
    if entry_before other entry then other ∷ insert_entry entry sorted else entry ∷ other ∷ sorted

unfoldable pub stable_sort : List DeviceEntry → List DeviceEntry
stable_sort [] = []
stable_sort (entry ∷ entries) = insert_entry entry (stable_sort entries)

unfoldable pub snapshot : DeviceStore → List DeviceEntry
snapshot devices = stable_sort devices

abbrev pub clear : DeviceStore → DeviceStore
clear devices = []
