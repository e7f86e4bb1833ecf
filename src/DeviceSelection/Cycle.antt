-- ===== src/DeviceSelection/Cycle.antt =====
-- The selection of device_selection.cpp: which index is chosen, and when there is none.
use localsend_handheld.Prelude.{
  ℕ, zero, suc, ◌+◌, ◌-◌, ◌%◌, ◌≤◌, ◌<◌, ◌≡◌, ◌↔◌, ◌⊎◌, refl, sym, ◌∙◌, subst, true, false, List,
  [], ◌∷◌, Option, none, some, arith, leb, length, get_elem?, Bool-cases, Option-cases, inl, inr,
  get_elem?-some-lt,
}
use native.Mathlib.Nat.{mod-eq_of_lt, add-mod_right}
use localsend_handheld.DeviceStore.{DeviceEntry}
use localsend_handheld.DeviceSelection.{
  online_at, first_online_from, first_online_device_index, start_index, next_online_loop,
  next_online_device_index, selected_online_device, current_online, entry_at,
}

-- The scan from `offset` on stops at the first online entry, in cyclic order from `start`.
abbrev pub Scan : List DeviceEntry → ℕ → ℕ → Option ℕ → Type 0
Scan devices start offset none =
    (o : ℕ)
    → offset ≤ o
    → o < length devices
    → online_at devices ((start + o) % length devices) ≡ false
Scan devices start offset (some i) =
    (o : ℕ) × (offset ≤ o)
    × (o < length devices)
    × (i ≡ (start + o) % length devices)
    × (online_at devices i ≡ true)
    × ((k : ℕ) → offset ≤ k → k < o → online_at devices ((start + k) % length devices) ≡ false)

Scan-next :
    (devices : List DeviceEntry) (start offset : ℕ) (r : Option ℕ)
    → online_at devices ((start + offset) % length devices) ≡ false
    → Scan devices start (offset + 1) r
    → Scan devices start offset r
Scan-next devices start offset none h s = λ o l u. elim (Bool-cases (leb o offset)) [
  | inl e ↦ let same : o ≡ offset = ground arith in rw same h
  | inr e ↦ s o (ground arith) u
]
Scan-next devices start offset (some i) h (o, l, u, e, on, before) = (
  o,
  omega arith,
  u,
  e,
  on,
  λ k lk uk. elim (Bool-cases (leb k offset)) [
    | inl q ↦ let same : k ≡ offset = ground arith in rw same h
    | inr q ↦ before k (ground arith) uk
  ],
)

next_online_loop-Scan :
    (devices : List DeviceEntry) (start rounds offset : ℕ)
    → rounds + offset ≡ length devices
    → Scan devices start offset (next_online_loop devices start rounds offset)
unfolding next_online_loop
next_online_loop-Scan devices start zero offset h = λ o l u. absurd (omega arith)
next_online_loop-Scan devices start (suc rounds) offset h =
    let rest = next_online_loop-Scan devices start rounds (offset + 1) (omega arith) in
    elim (Bool-cases (online_at devices ((start + offset) % length devices))) [
      | inl e ↦ rw e (offset, omega arith, omega arith, refl, e, λ k l u. absurd (omega arith))
      | inr e ↦ rw e (Scan-next devices start offset _ e rest)
    ]

-- The next peer is the first online one in cyclic order, from the entry behind the current one, or
-- from the first entry if there is no current one in range; and there is none only if no entry at any
-- step of that round is online.
next_online_device_index-Scan :
    (devices : List DeviceEntry) (current : Option ℕ)
    → Scan devices
        (start_index (length devices) current)
        0
        (next_online_device_index devices current)
unfolding next_online_device_index
next_online_device_index-Scan [] current = λ o l u. absurd (omega arith)
next_online_device_index-Scan (x ∷ devices) current =
    next_online_loop-Scan (x ∷ devices) (start_index (length (x ∷ devices)) current)
      (length (x ∷ devices)) 0 (omega arith)

start_index-le : (size : ℕ) (current : Option ℕ) → start_index size current ≤ size
unfolding start_index
start_index-le size none = omega arith
start_index-le size (some current) = ground arith

-- The round visits every index.
visits : (start n i : ℕ) → start ≤ n → i < n → (o : ℕ) × (o < n) × ((start + o) % n ≡ i)
visits start n i h k = elim (Bool-cases (leb start i)) [
  | inl e ↦ (
    i - start,
    ground arith,
    (let same : start + (i - start) ≡ i = ground arith in rw same (mod-eq_of_lt k)),
  )
  | inr e ↦ (
    i + n - start,
    ground arith,
    (let same : start + (i + n - start) ≡ i + n = ground arith in
        rw same (add-mod_right i n ∙ mod-eq_of_lt k)),
  )
]

online_at-lt :
    (devices : List DeviceEntry) (i : ℕ) → online_at devices i ≡ true → i < length devices
online_at-lt devices i h = elim (Option-cases (get_elem? devices i)) [
  | inl e ↦ ground arith
  | inr (x, e) ↦ get_elem?-some-lt devices i x e
]

all_offline :
    (devices : List DeviceEntry) (current : Option ℕ)
    → next_online_device_index devices current ≡ none
    → (i : ℕ) → online_at devices i ≡ false
all_offline devices current h i = elim (Bool-cases (online_at devices i)) [
  | inr off ↦ off
  | inl on ↦
      let scan =
        subst (Scan devices (start_index (length devices) current) 0) h
          (next_online_device_index-Scan devices current) in
      let (o, l, e) =
        visits (start_index (length devices) current) (length devices) i
          (start_index-le (length devices) current) (online_at-lt devices i on) in
      rw e at (scan o (omega arith) l)
]

-- There is no next peer exactly when no entry is online.
next_online_device_index-none :
    (devices : List DeviceEntry) (current : Option ℕ)
    → (next_online_device_index devices current ≡ none) ↔ ((i : ℕ) → online_at devices i ≡ false)
next_online_device_index-none devices current = (
  all_offline devices current,
  λ h. elim (Option-cases (next_online_device_index devices current)) [
    | inl e ↦ e
    | inr (i, e) ↦
        let scan =
          subst (Scan devices (start_index (length devices) current) 0) e
            (next_online_device_index-Scan devices current) in
        cc (h i, scan.4)
  ],
)

-- What `first_online_from` returns on the entries from index `i` on.
abbrev First : ℕ → List DeviceEntry → Option ℕ → Type 0
First i devices none = (k : ℕ) → online_at devices k ≡ false
First i devices (some j) =
    (k : ℕ) × (j ≡ i + k)
    × (online_at devices k ≡ true)
    × ((m : ℕ) → m < k → online_at devices m ≡ false)

first_offline :
    (x : DeviceEntry) (devices : List DeviceEntry)
    → x.online ≡ false
    → ((k : ℕ) → online_at devices k ≡ false)
    → (k : ℕ) → online_at (x ∷ devices) k ≡ false
first_offline x devices off h zero = off
first_offline x devices off h (suc k) = h k

offline_below :
    (x : DeviceEntry) (devices : List DeviceEntry) (n : ℕ)
    → x.online ≡ false
    → ((m : ℕ) → m < n → online_at devices m ≡ false)
    → (m : ℕ) → m < suc n
    → online_at (x ∷ devices) m ≡ false
offline_below x devices n off h zero l = off
offline_below x devices n off h (suc m) l = h m (omega arith)

First-next :
    (i : ℕ) (x : DeviceEntry) (devices : List DeviceEntry) (r : Option ℕ)
    → x.online ≡ false
    → First (i + 1) devices r
    → First i (x ∷ devices) r
First-next i x devices none off h = first_offline x devices off h
First-next i x devices (some j) off (k, e, on, before) =
    (suc k, omega arith, on, offline_below x devices k off before)

first_online_from-First :
    (i : ℕ) (devices : List DeviceEntry) → First i devices (first_online_from i devices)
unfolding first_online_from
first_online_from-First i [] = λ k. refl
first_online_from-First i (x ∷ devices) = elim (Bool-cases x.online) [
  | inl on ↦
      let same : first_online_from i (x ∷ devices) ≡ some i = ground arith in
      subst (First i (x ∷ devices)) (sym same) (zero, omega arith, on, λ m u. absurd (omega arith))
  | inr off ↦
      let same : first_online_from i (x ∷ devices) ≡ first_online_from (i + 1) devices =
        ground arith in
      subst (First i (x ∷ devices)) (sym same) (
        First-next i x devices (first_online_from (i + 1) devices) off
          (first_online_from-First (i + 1) devices))
]

-- What was selected: the current entry if it is online, and else the first online one; nothing only
-- if no entry is online.
abbrev pub Chosen : List DeviceEntry → Option ℕ → Option DeviceEntry → Type 0
Chosen devices current none = (i : ℕ) → online_at devices i ≡ false
Chosen devices current (some entry) =
    (i : ℕ) × (get_elem? devices i ≡ some entry)
    × (entry.online ≡ true)
    × ((current ≡ some i)
        ⊎ ((current_online devices current ≡ false)
            × ((m : ℕ) → m < i → online_at devices m ≡ false)))

-- An index that is online holds an online entry.
online_entry :
    (devices : List DeviceEntry) (i : ℕ)
    → online_at devices i ≡ true
    → (x : DeviceEntry) × (get_elem? devices i ≡ some x) × (x.online ≡ true)
online_entry devices i h = elim (Option-cases (get_elem? devices i)) [
  | inl e ↦ ground arith
  | inr (x, e) ↦ (x, e, ground arith)
]

current-Chosen :
    (devices : List DeviceEntry) (current : Option ℕ)
    → current_online devices current ≡ true
    → Chosen devices current (entry_at devices current)
current-Chosen devices none h = cc
current-Chosen devices (some i) h =
    let (x, e, on) = online_entry devices i (ground arith) in rw e (i, e, on, inl refl)

First-Chosen :
    (devices : List DeviceEntry) (current r : Option ℕ)
    → current_online devices current ≡ false
    → First 0 devices r
    → Chosen devices current (entry_at devices r)
First-Chosen devices current none off h = h
First-Chosen devices current (some j) off (k, e, on, before) =
    let same : j ≡ k = omega arith in
    let (x, at, live) = online_entry devices k on in rw (same, at) (k, at, live, inr (off, before))

-- `selected_online_device` keeps to an online current entry, falls back to the first online one, and
-- returns nothing only if no entry is online.
selected_online_device-Chosen :
    (devices : List DeviceEntry) (current : Option ℕ)
    → Chosen devices current (selected_online_device devices current)
unfolding selected_online_device first_online_device_index
selected_online_device-Chosen devices current = elim (Bool-cases (current_online devices current)) [
  | inl on ↦ rw on (current-Chosen devices current on)
  | inr off ↦ rw off (
      First-Chosen devices current (first_online_from 0 devices) off
        (first_online_from-First 0 devices))
]
