-- ===== src/AppService/Manual.antt =====
-- Peers that the user adds by hand (app_service.cpp).
use localsend_handheld.Prelude.{
  ℕ, ◌≡◌, refl, ◌∙◌, true, inl, inr, List, [], ◌∷◌, ◌++◌, none, some, arith, Bytes, Bool-cases,
  Option-cases, beq_refl,
}
use localsend_handheld.Prelude.Int.{ℤ, pos, negsuc, int_eq}
use localsend_handheld.Config.{ManualDevice}
use localsend_handheld.DeviceStore as Devices
use localsend_handheld.DeviceStore.{
  DeviceEntry, DeviceStore, device_key, manual, remove, upsert_manual, refresh, new_entry, upsert,
}
use localsend_handheld.DeviceStore.Lookup.{get-device_step, upserts, device_step}
use localsend_handheld.AppService.{AppService, same_manual_device, device_from_manual}
use localsend_handheld.AppService.Peers.{find_manual, write_manual, store_manual, add_manual_device}

int_eq_refl : (x : ℤ) → int_eq x x ≡ true
int_eq_refl (pos n) = ground arith
int_eq_refl (negsuc n) = ground arith

same_manual_device_refl : (m : ManualDevice) → same_manual_device m m ≡ true
unfolding same_manual_device
same_manual_device_refl m =
    ground (arith, beq_refl m.fingerprint, beq_refl m.ip, int_eq_refl m.port)

find_manual-write_manual :
    (m old : ManualDevice) (manuals : List ManualDevice)
    → find_manual m manuals ≡ some old
    → find_manual m (write_manual m manuals) ≡ some m
unfolding find_manual write_manual
find_manual-write_manual m old [] e = cc
find_manual-write_manual m old (x ∷ manuals) e = elim (Bool-cases (same_manual_device x m)) [
  | inl q ↦ let itself = same_manual_device_refl m in ground arith
  | inr q ↦ let rest = find_manual-write_manual m old manuals (rw q at e) in ground arith
]

find_manual-append :
    (m : ManualDevice) (manuals : List ManualDevice)
    → find_manual m manuals ≡ none
    → find_manual m (manuals ++ m ∷ []) ≡ some m
unfolding find_manual
find_manual-append m [] e = let itself = same_manual_device_refl m in ground arith
find_manual-append m (x ∷ manuals) e = elim (Bool-cases (same_manual_device x m)) [
  | inl q ↦ ground arith
  | inr q ↦ let rest = find_manual-append m manuals (rw q at e) in ground arith
]

find_manual-store_manual :
    (m : ManualDevice) (manuals : List ManualDevice)
    → find_manual m (store_manual m manuals).0 ≡ some m
unfolding store_manual
find_manual-store_manual m manuals = elim (Option-cases (find_manual m manuals)) [
  | inl e ↦ let added = find_manual-append m manuals e in ground arith
  | inr (old, e) ↦ let written = find_manual-write_manual m old manuals e in ground arith
]

-- The store has the device under its key, entered by hand and online.
pub record Entered (m : ManualDevice) (key : Bytes) (devices : DeviceStore) : Type 0 where
  pub entry : DeviceEntry
  pub found : Devices.get key devices ≡ some entry
  pub device : entry.device ≡ device_from_manual m
  pub by_hand : entry.source ≡ manual
  pub is_online : entry.online ≡ true

upsert_manual-Entered :
    (now : ℕ) (m : ManualDevice) (devices : DeviceStore)
    → Entered m
        (device_key (device_from_manual m))
        (upsert_manual now (device_from_manual m) devices).1
unfolding device_step refresh
upsert_manual-Entered now m devices =
    let key = device_key (device_from_manual m) in
    let looked = get-device_step now devices (upserts (device_from_manual m) manual) key in
    let itself = beq_refl key in
    elim (Option-cases (Devices.get key devices)) [
      | inl f ↦ record {
        entry = new_entry now (device_from_manual m) manual key;
        found = looked ∙ rw (itself, f) refl;
        device = refl;
        by_hand = refl;
        is_online = refl;
      }
      | inr (x, f) ↦ record {
        entry = refresh now (device_from_manual m) manual x;
        found = looked ∙ rw (itself, f) refl;
        device = refl;
        by_hand = refl;
        is_online = refl;
      }
    ]

-- After `add_manual_device` the answered key is the device's, the device store has the device under it, manual and online,
-- whatever stood there before, and the configuration, searched for the device, finds exactly what
-- was entered.
pub add_manual_device-Entered :
    (now : ℕ) (m : ManualDevice) (a : AppService)
    → let (key, b) = add_manual_device now m a in
      (key ≡ device_key (device_from_manual m))
      × Entered m key b.devices
      × (find_manual m b.config.manual_devices ≡ some m)
unfolding add_manual_device upsert
add_manual_device-Entered now m a =
    (refl, upsert_manual-Entered now m _, find_manual-store_manual m a.config.manual_devices)
