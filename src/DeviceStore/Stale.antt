-- ===== src/DeviceStore/Stale.antt =====
-- `mark_stale_offline` of device_store.cpp, entry by entry.
use localsend_handheld.Prelude.{ℕ, ◌+◌, ◌≡◌, refl, Bool, List, [], ◌∷◌, arith, if◌then◌else◌, map}
use localsend_handheld.DeviceStore.{DeviceStore, mark_stale_offline, mark_stale_loop, is_stale}
use localsend_handheld.DeviceStore.Lookup.{aged, is_stale-aged}

abbrev pub count_if {ℓ} : {A : Type ℓ} → (A → Bool) → List A → ℕ
count_if p [] = 0
count_if p (x ∷ xs) = (if p x then 1 else 0) + count_if p xs

mark_stale_loop_lem :
    (now max_age : ℕ) (devices : DeviceStore) (n : ℕ)
    → (mark_stale_loop now max_age devices n).1 ≡ n + count_if (is_stale now max_age) devices
unfolding mark_stale_loop
mark_stale_loop_lem now max_age [] n = omega arith
mark_stale_loop_lem now max_age (x ∷ devices) n =
    ground
      (arith, mark_stale_loop_lem now max_age devices (if is_stale now max_age x then n + 1 else n))

mark_stale_loop-map :
    (now max_age : ℕ) (devices : DeviceStore) (n : ℕ)
    → (mark_stale_loop now max_age devices n).0 ≡ map (aged now max_age) devices
unfolding mark_stale_loop
mark_stale_loop-map now max_age [] n = refl
mark_stale_loop-map now max_age (x ∷ devices) n = ground (
  arith,
  mark_stale_loop-map now max_age devices (if is_stale now max_age x then n + 1 else n),
  is_stale-aged now max_age x.source x refl,
)

count_if-aged :
    (now max_age : ℕ) (devices : DeviceStore)
    → count_if (is_stale now max_age) (map (aged now max_age) devices) ≡ 0
unfolding is_stale
count_if-aged now max_age [] = refl
count_if-aged now max_age (x ∷ devices) = ground (arith, count_if-aged now max_age devices)

-- The pass takes exactly the online, discovered entries that were last seen more than `max_age`
-- seconds before `now` offline, and changes nothing else of any entry; its answer is their number;
-- and a second pass at the same time finds none.
mark_stale_offline_lem :
    (now max_age : ℕ) (s : DeviceStore)
    → let (t, changed) = mark_stale_offline now max_age s in
      (t ≡ map (aged now max_age) s)
      × (changed ≡ count_if (is_stale now max_age) s)
      × ((mark_stale_offline now max_age t).1 ≡ 0)
mark_stale_offline_lem now max_age s = (
  unfold mark_stale_offline in mark_stale_loop-map now max_age s 0,
  unfold mark_stale_offline in omega (arith, mark_stale_loop_lem now max_age s 0),
  unfold mark_stale_offline in
      ground (
        arith,
        mark_stale_loop_lem now max_age (mark_stale_loop now max_age s 0).0 0,
        mark_stale_loop-map now max_age s 0,
        count_if-aged now max_age s,
      ),
)
