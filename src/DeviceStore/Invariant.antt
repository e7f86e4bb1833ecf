-- ===== src/DeviceStore/Invariant.antt =====
-- The invariant of the store of device_store.cpp, over every history of calls.
use localsend_handheld.Prelude.{
  ℕ, ◌≡◌, refl, sym, subst, not, List, [], ◌∷◌, ◌++◌, none, arith, if◌then◌else◌, Bytes, beq,
  beq_iff, keep_if, Option-cases, Bool-cases, inl, inr, ◌+◌,
}
use localsend_handheld.Protocol.{Device}
use localsend_handheld.DeviceStore.{
  DeviceEntry, DeviceStore, DeviceSource, find_locked, write_locked, refresh, new_entry, device_key,
  upsert, remove, mark_offline, mark_stale_offline, mark_stale_loop, set_offline, is_stale,
}
use localsend_handheld.DeviceStore.Lookup.{
  Call, upserts, removes, marks_offline, marks_stale, clears, device_step, find_locked-write_locked,
  find_locked-append, find_locked-remove, find_locked-mark_stale_loop,
}

-- Each key stands once, and is the key of its device.
abbrev pub IsKeyed : DeviceStore → Type 0
IsKeyed [] = Unit
IsKeyed (x ∷ devices) =
    (x.key ≡ device_key x.device) × (find_locked x.key devices ≡ none) × IsKeyed devices

write_locked-IsKeyed :
    (f : DeviceEntry → DeviceEntry) (same : (x : DeviceEntry) → (f x).key ≡ x.key) (key : Bytes)
    (keeps : (x : DeviceEntry)
      → x.key ≡ device_key x.device
      → x.key ≡ key
      → key ≡ device_key (f x).device)
    (devices : DeviceStore)
    → IsKeyed devices
    → IsKeyed (write_locked f key devices)
unfolding write_locked
write_locked-IsKeyed f same key keeps [] h = tt
write_locked-IsKeyed f same key keeps (x ∷ devices) (k, fresh, rest) =
    elim (Bool-cases (beq x.key key)) [
      | inl e ↦ rw e (ground (arith, same x, keeps x, beq_iff x.key key), rw (same x) fresh, rest)
      | inr e ↦ rw e (
        k,
        ground (
          arith,
          find_locked-write_locked f same key x.key devices,
          beq_iff key x.key,
          beq_iff x.key key,
        ),
        write_locked-IsKeyed f same key keeps devices rest,
      )
    ]

append-IsKeyed :
    (devices : DeviceStore) (x : DeviceEntry)
    → x.key ≡ device_key x.device
    → find_locked x.key devices ≡ none
    → IsKeyed devices
    → IsKeyed (devices ++ x ∷ [])
unfolding find_locked
append-IsKeyed [] x k fresh h = (k, refl, tt)
append-IsKeyed (y ∷ devices) x k fresh (ky, fy, rest) = (
  ky,
  ground (arith, find_locked-append y.key devices x, beq_iff x.key y.key, beq_iff y.key x.key),
  append-IsKeyed devices x k (ground arith) rest,
)

remove-IsKeyed :
    (key : Bytes) (devices : DeviceStore)
    → IsKeyed devices
    → IsKeyed (keep_if (λ entry. not (beq entry.key key)) devices)
remove-IsKeyed key [] h = tt
remove-IsKeyed key (x ∷ devices) (k, fresh, rest) = elim (Bool-cases (beq x.key key)) [
  | inl e ↦ rw e (remove-IsKeyed key devices rest)
  | inr e ↦
      rw e
        (k, ground (arith, find_locked-remove key x.key devices), remove-IsKeyed key devices rest)
]

mark_stale_loop-IsKeyed :
    (now max_age : ℕ) (devices : DeviceStore) (n : ℕ)
    → IsKeyed devices
    → IsKeyed (mark_stale_loop now max_age devices n).0
unfolding mark_stale_loop
mark_stale_loop-IsKeyed now max_age [] n h = tt
mark_stale_loop-IsKeyed now max_age (x ∷ devices) n (k, fresh, rest) =
    let m = if is_stale now max_age x then n + 1 else n in
    (
      ground arith,
      ground (arith, find_locked-mark_stale_loop now max_age x.key devices m),
      mark_stale_loop-IsKeyed now max_age devices m rest,
    )

upsert-IsKeyed :
    (now : ℕ) (device : Device) (source : DeviceSource) (s : DeviceStore)
    → IsKeyed s
    → IsKeyed (upsert now device source s).1
unfolding upsert
upsert-IsKeyed now device source s h = elim (Option-cases (find_locked (device_key device) s)) [
  | inl e ↦
      let added = new_entry now device source (device_key device) in
      let same : (upsert now device source s).1 ≡ s ++ added ∷ [] = ground arith in
      subst IsKeyed (sym same) (append-IsKeyed s added refl e h)
  | inr (x, e) ↦
      let written = write_locked (refresh now device source) (device_key device) s in
      let same : (upsert now device source s).1 ≡ written = ground arith in
      subst IsKeyed (sym same) (
        write_locked-IsKeyed (refresh now device source) (λ z. unfold refresh in refl)
          (device_key device) (λ z _ _. unfold refresh in refl) s h)
]

mark_offline-IsKeyed : (key : Bytes) (s : DeviceStore) → IsKeyed s → IsKeyed (mark_offline key s).0
unfolding mark_offline
mark_offline-IsKeyed key s h = elim (Option-cases (find_locked key s)) [
  | inl e ↦ let same : (mark_offline key s).0 ≡ s = ground arith in subst IsKeyed (sym same) h
  | inr (x, e) ↦
      let same : (mark_offline key s).0 ≡ write_locked set_offline key s = ground arith in
      subst IsKeyed (sym same)
        (write_locked-IsKeyed set_offline (λ z. refl) key (λ z k e'. ground arith) s h)
]

step-IsKeyed : (now : ℕ) (s : DeviceStore) (c : Call) → IsKeyed s → IsKeyed (device_step now s c)
unfolding device_step
step-IsKeyed now s (upserts device source) h = upsert-IsKeyed now device source s h
step-IsKeyed now s (removes key) h = unfold remove in remove-IsKeyed key s h
step-IsKeyed now s (marks_offline key) h = mark_offline-IsKeyed key s h
step-IsKeyed now s (marks_stale max_age) h =
    unfold mark_stale_offline in mark_stale_loop-IsKeyed now max_age s 0 h
step-IsKeyed now s clears h = tt

unfoldable pub run : DeviceStore → List (ℕ × Call) → DeviceStore
run s [] = s
run s ((now, c) ∷ cs) = run (device_step now s c) cs

-- After any history of calls on a store in which each key stands once and is the key of its device,
-- that is so again.
pub run-IsKeyed : (s : DeviceStore) (cs : List (ℕ × Call)) → IsKeyed s → IsKeyed (run s cs)
unfolding run
run-IsKeyed s [] h = h
run-IsKeyed s ((now, c) ∷ cs) h = run-IsKeyed (device_step now s c) cs (step-IsKeyed now s c h)
