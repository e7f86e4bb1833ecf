-- ===== src/AppService/Discover.antt =====
-- What a scan for peers does to the device store of app_service.cpp.
use localsend_handheld.Prelude.{
  ℕ, ◌+◌, ◌≡◌, refl, true, false, inl, inr, List, [], ◌∷◌, some, arith, Bytes, Bool-cases,
  Option-cases, beq,
}
use localsend_handheld.Protocol.{Device, InfoRegisterDto}
use localsend_handheld.DeviceStore as Devices
use localsend_handheld.DeviceStore.{
  DeviceEntry, DeviceStore, device_key, discovered, upsert_discovered, mark_stale_offline, refresh,
  is_stale, set_offline,
}
use localsend_handheld.DeviceStore.Lookup.{get-device_step, upserts, marks_stale, device_step}
use localsend_handheld.AppService.{
  AppService, is_self_device, add_discovered, refresh_discovery, discovery_stale_age,
}

-- The entry stood there before, with the same device.
abbrev pub StoodThere : Bytes → DeviceEntry → DeviceStore → Type 0
StoodThere j e devices =
    (old : DeviceEntry) × (Devices.get j devices ≡ some old) × (old.device ≡ e.device)

upsert-StoodThere :
    (now : ℕ) (self : InfoRegisterDto) (device : Device) (devices : DeviceStore) (j : Bytes)
    (e : DeviceEntry)
    → is_self_device self device ≡ false
    → is_self_device self e.device ≡ true
    → StoodThere j e (upsert_discovered now device devices).1
    → StoodThere j e devices
unfolding device_step refresh
upsert-StoodThere now self device devices j e other own (old, found, same) =
    let looked = get-device_step now devices (upserts device discovered) j in
    elim (Bool-cases (beq (device_key device) j)) [
      | inr q ↦ (old, ground arith, same)
      | inl q ↦ elim (Option-cases (Devices.get j devices)) [
        | inl f ↦ let mine : device ≡ old.device = ground arith in absurd (ground arith)
        | inr (x, f) ↦ let mine : device ≡ old.device = ground arith in absurd (ground arith)
      ]
    ]

add_discovered-StoodThere :
    (now : ℕ) (self : InfoRegisterDto) (found : List Device) (devices : DeviceStore) (n : ℕ)
    (j : Bytes) (e : DeviceEntry)
    → is_self_device self e.device ≡ true
    → StoodThere j e (add_discovered now self found devices n).0
    → StoodThere j e devices
unfolding add_discovered
add_discovered-StoodThere now self [] devices n j e own h = h
add_discovered-StoodThere now self (device ∷ found) devices n j e own h =
    elim (Bool-cases (is_self_device self device)) [
      | inl q ↦ add_discovered-StoodThere now self found devices n j e own (rw q at h)
      | inr q ↦ upsert-StoodThere now self device devices j e q own (
          add_discovered-StoodThere now self found (upsert_discovered now device devices).1 (n + 1)
            j e own (rw q at h))
    ]

-- A scan takes no device that is this one itself: an entry whose device matches the self filter stood in
-- the store before, under its key and with that device.
pub refresh_discovery-StoodThere :
    (now : ℕ) (found : List Device) (a : AppService) (j : Bytes) (e : DeviceEntry)
    → Devices.get j (refresh_discovery now found a).0.devices ≡ some e
    → is_self_device a.self e.device ≡ true
    → StoodThere j e a.devices
unfolding refresh_discovery device_step is_stale
refresh_discovery-StoodThere now found a j e there own =
    elim (Bool-cases a.config.discovery_enabled) [
      | inr off ↦ (e, ground arith, refl)
      | inl on ↦
          let added = (add_discovered now a.self found a.devices 0).0 in
          let looked = get-device_step now added (marks_stale discovery_stale_age) j in
          elim (Option-cases (Devices.get j added)) [
            | inl f ↦ absurd (ground arith)
            | inr (x, f) ↦
                let same : x.device ≡ e.device = ground arith in
                add_discovered-StoodThere now a.self found a.devices 0 j e own (x, f, same)
          ]
    ]
