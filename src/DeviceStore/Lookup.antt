-- ===== src/DeviceStore/Lookup.antt =====
-- What a lookup by key returns after each operation of device_store.cpp.
use mathlib.Core.Option
use localsend_handheld.Prelude.{
  ℕ, ◌+◌, ◌≡◌, refl, Bool, true, false, not, ◌&&◌, leb, [], ◌∷◌, ◌++◌, Option, none, some, arith,
  ◌==◌, if◌then◌else◌, Bytes, beq, beq_iff, keep_if, Option-cases, inl, inr, length,
  length-keep_if-le,
}
use localsend_handheld.Protocol.{Device}
use localsend_handheld.DeviceStore.{
  DeviceEntry, DeviceStore, DeviceSource, find_locked, write_locked, refresh, new_entry, is_manual,
  manual, discovered, device_key, upsert, remove, mark_offline, mark_stale_offline, mark_stale_loop,
  get, set_offline, is_stale, clear,
}

pub find_locked-write_locked :
    (f : DeviceEntry → DeviceEntry) (keeps : (x : DeviceEntry) → (f x).key ≡ x.key) (key j : Bytes)
    (devices : DeviceStore)
    → find_locked j (write_locked f key devices)
      ≡ (if beq key j then Option.map f (find_locked j devices) else find_locked j devices)
unfolding find_locked write_locked
find_locked-write_locked f keeps key j [] = ground arith
find_locked-write_locked f keeps key j (x ∷ devices) = ground (
  arith,
  keeps x,
  beq_iff key j,
  beq_iff x.key key,
  beq_iff x.key j,
  beq_iff (f x).key j,
  find_locked-write_locked f keeps key j devices,
)

pub find_locked-append :
    (j : Bytes) (devices : DeviceStore) (x : DeviceEntry)
    → find_locked j (devices ++ x ∷ []) ≡ elim (find_locked j devices) [
      | none ↦ if beq x.key j then some x else none
      | some y ↦ some y
    ]
unfolding find_locked
find_locked-append j [] x = refl
find_locked-append j (y ∷ devices) x = ground (arith, find_locked-append j devices x)

pub find_locked-key :
    (j : Bytes) (devices : DeviceStore) (x : DeviceEntry)
    → find_locked j devices ≡ some x
    → x.key ≡ j
unfolding find_locked
find_locked-key j [] x h = cc
find_locked-key j (y ∷ devices) x h = ground (arith, beq_iff y.key j, find_locked-key j devices x)

pub find_locked-remove :
    (key j : Bytes) (devices : DeviceStore)
    → find_locked j (keep_if (λ entry. not (beq entry.key key)) devices)
      ≡ (if beq key j then none else find_locked j devices)
unfolding find_locked
find_locked-remove key j [] = ground arith
find_locked-remove key j (x ∷ devices) =
    ground
      (arith, beq_iff key j, beq_iff x.key key, beq_iff x.key j, find_locked-remove key j devices)

abbrev pub is_some {ℓ} : {A : Type ℓ} → Option A → Bool
is_some none = false
is_some (some a) = true

remove-length :
    (key : Bytes) (devices : DeviceStore)
    → (length (keep_if (λ entry. not (beq entry.key key)) devices) == length devices)
      ≡ not (is_some (find_locked key devices))
unfolding find_locked
remove-length key [] = refl
remove-length key (x ∷ devices) =
    ground (
      arith,
      length-keep_if-le (λ entry. not (beq entry.key key)) devices,
      remove-length key devices,
    )

-- The entry after a pass of `mark_stale_offline`: one entered by hand stays as it is, a discovered one is online as
-- long as it was and no more than `max_age` has passed since it was seen.
abbrev pub aged_by : ℕ → ℕ → DeviceSource → DeviceEntry → DeviceEntry
aged_by now max_age manual x = x
aged_by now max_age discovered x = record x { online = x.online && leb now (x.last_seen + max_age) }

abbrev pub aged : ℕ → ℕ → DeviceEntry → DeviceEntry
aged now max_age x = aged_by now max_age x.source x

pub is_stale-aged :
    (now max_age : ℕ) (source : DeviceSource) (x : DeviceEntry)
    → x.source ≡ source
    → (if is_stale now max_age x then set_offline x else x) ≡ aged_by now max_age source x
unfolding is_stale
is_stale-aged now max_age manual x e = ground arith
is_stale-aged now max_age discovered x e = ground arith

pub find_locked-mark_stale_loop :
    (now max_age : ℕ) (j : Bytes) (devices : DeviceStore) (n : ℕ)
    → find_locked j (mark_stale_loop now max_age devices n).0
      ≡ Option.map (aged now max_age) (find_locked j devices)
unfolding find_locked mark_stale_loop
find_locked-mark_stale_loop now max_age j [] n = refl
find_locked-mark_stale_loop now max_age j (x ∷ devices) n = ground (
  arith,
  find_locked-mark_stale_loop now max_age j devices (if is_stale now max_age x then n + 1 else n),
  is_stale-aged now max_age x.source x refl,
)

-- The calls that change the store.
pub data Call : Type 0 where
  upserts : Device → DeviceSource → Call
  removes : Bytes → Call
  marks_offline : Bytes → Call
  marks_stale : ℕ → Call
  clears : Call

-- One call at time `now`.
unfoldable pub device_step : ℕ → DeviceStore → Call → DeviceStore
device_step now s (upserts device source) = (upsert now device source s).1
device_step now s (removes key) = (remove key s).0
device_step now s (marks_offline key) = (mark_offline key s).0
device_step now s (marks_stale max_age) = (mark_stale_offline now max_age s).0
device_step now s clears = clear s

-- The specification: a map from keys to entries.
abbrev pub View : Type 0
View = Bytes → Option DeviceEntry

-- What was entered by hand stays so.
abbrev entered : DeviceSource → DeviceSource → DeviceSource
entered manual old = manual
entered discovered old = old

is_manual-entered :
    (source old : DeviceSource) → (if is_manual source then manual else old) ≡ entered source old
is_manual-entered manual old = refl
is_manual-entered discovered old = refl

abbrev upserted : ℕ → Device → DeviceSource → Option DeviceEntry → DeviceEntry
upserted now device source none = record {
  key = device_key device;
  device = device;
  source = source;
  online = true;
  first_seen = now;
  last_seen = now;
}
upserted now device source (some x) = record x {
  device = device;
  source = entered source x.source;
  online = true;
  last_seen = now;
}

abbrev gone : DeviceEntry → DeviceEntry
gone x = record x { online = false }

abbrev pub spec_step : ℕ → View → Call → View
spec_step now v (upserts device source) j =
    if beq (device_key device) j then some (upserted now device source (v j)) else v j
spec_step now v (removes key) j = if beq key j then none else v j
spec_step now v (marks_offline key) j = if beq key j then Option.map gone (v j) else v j
spec_step now v (marks_stale max_age) j = Option.map (aged now max_age) (v j)
spec_step now v clears j = none

upsert-get :
    (now : ℕ) (device : Device) (source : DeviceSource) (s : DeviceStore) (j : Bytes)
    → get j (upsert now device source s).1 ≡ spec_step now (λ k. get k s) (upserts device source) j
unfolding get upsert refresh
upsert-get now device source s j = elim (Option-cases (find_locked (device_key device) s)) [
  | inl e ↦ ground (
    arith,
    find_locked-append j s (new_entry now device source (device_key device)),
    beq_iff (device_key device) j,
  )
  | inr (x, e) ↦ ground (
    arith,
    find_locked-write_locked (refresh now device source) (λ z. refl) (device_key device) j s,
    is_manual-entered source x.source,
    beq_iff (device_key device) j,
  )
]

-- Each method implements its specification on the map of keys: `upsert` binds its device's key to an entry that is
-- online and seen now, new, or with its first sight kept and manual if it was; `remove` and `mark_offline` act on
-- their key alone; `mark_stale_offline` takes offline the discovered entries that were last seen more than `max_age`
-- ago, and leaves those entered by hand as they are; and `clear` empties the map.
pub get-device_step :
    (now : ℕ) (s : DeviceStore) (c : Call) (j : Bytes)
    → get j (device_step now s c) ≡ spec_step now (λ k. get k s) c j
unfolding device_step
get-device_step now s (upserts device source) j = upsert-get now device source s j
get-device_step now s (removes key) j = unfold get remove in find_locked-remove key j s
get-device_step now s (marks_offline key) j =
    unfold get mark_offline in
    ground (arith, find_locked-write_locked set_offline (λ z. refl) key j s, beq_iff key j)
get-device_step now s (marks_stale max_age) j =
    unfold get mark_stale_offline in find_locked-mark_stale_loop now max_age j s 0
get-device_step now s clears j = unfold get find_locked in refl

-- `remove` and `mark_offline` answer whether the key was there.
pub found-iff-get :
    (key : Bytes) (s : DeviceStore)
    → ((remove key s).1 ≡ is_some (get key s)) × ((mark_offline key s).1 ≡ is_some (get key s))
found-iff-get key s = (
  unfold remove get in ground (arith, remove-length key s),
  unfold mark_offline get in ground arith,
)
