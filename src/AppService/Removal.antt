-- ===== src/AppService/Removal.antt =====
-- The removal of a peer that the user entered by hand (app_service.cpp).
use localsend_handheld.Prelude.{
  ◌≡◌, refl, sym, ap, subst, Bool, true, false, not, [], ◌∷◌, List, none, some, inl, inr, arith,
  Bytes, Bool-cases, Option-cases, beq_refl, keep_if, length, length-keep_if-le, ◌==◌,
}
use localsend_handheld.Config.{ManualDevice}
use localsend_handheld.DeviceStore as Devices
use localsend_handheld.DeviceStore.{DeviceEntry, is_manual}
use localsend_handheld.DeviceStore.Lookup.{get-device_step, removes, device_step}
use localsend_handheld.AppService.{AppService, same_manual_device}
use localsend_handheld.AppService.Peers.{
  find_manual, manual_of, with_manual_devices, remove_manual_entry, remove_manual_device,
}

-- What `remove_manual_device` does with each answer.
abbrev pub Removed : Bytes → AppService → AppService × Bool → Type 0
Removed key a (b, true) =
    (entry : DeviceEntry) × (Devices.get key a.devices ≡ some entry)
    × (is_manual entry.source ≡ true)
    × (Devices.get key b.devices ≡ none)
    × (find_manual (manual_of entry.device) b.config.manual_devices ≡ none)
Removed key a (b, false) = b ≡ a

find_manual-keep_if :
    (m : ManualDevice) (manuals : List ManualDevice)
    → find_manual m (keep_if (λ device. not (same_manual_device device m)) manuals) ≡ none
unfolding find_manual
find_manual-keep_if m [] = refl
find_manual-keep_if m (x ∷ manuals) = ground (arith, find_manual-keep_if m manuals)

keep_if_all :
    (p : ManualDevice → Bool) (manuals : List ManualDevice)
    → length (keep_if p manuals) ≡ length manuals
    → keep_if p manuals ≡ manuals
keep_if_all p [] h = refl
keep_if_all p (x ∷ manuals) h = ground (arith, length-keep_if-le p manuals, keep_if_all p manuals)

remove_manual_entry-Removed :
    (key : Bytes) (entry : DeviceEntry) (a : AppService)
    → Devices.get key a.devices ≡ some entry
    → Removed key a (remove_manual_entry key entry a)
unfolding remove_manual_entry device_step
remove_manual_entry-Removed key entry a there =
    let m = manual_of entry.device in
    let left = keep_if (λ device. not (same_manual_device device m)) a.config.manual_devices in
    elim (Bool-cases (is_manual entry.source)) [
      | inr e ↦ rw e refl
      | inl e ↦ elim (Bool-cases (length left == length a.config.manual_devices)) [
        | inl same ↦
            let unchanged : left ≡ a.config.manual_devices =
              keep_if_all (λ device. not (same_manual_device device m)) a.config.manual_devices
                (ground arith) in
            rw (e, same) (ap (λ l. record a { config = with_manual_devices l a.config }) unchanged)
        | inr fewer ↦
            let looked = get-device_step 0 a.devices (removes key) key in
            let itself = beq_refl key in
            rw (e, fewer)
              (entry, there, e, ground arith, find_manual-keep_if m a.config.manual_devices)
      ]
    ]

-- A removal that answers true found a manual entry under the key; behind it the key is gone from the device store, and the
-- configuration has no peer left that counts as the same. Otherwise nothing changes.
pub remove_manual_device-Removed :
    (key : Bytes) (a : AppService) → Removed key a (remove_manual_device key a)
unfolding remove_manual_device
remove_manual_device-Removed key a = elim (Option-cases (Devices.get key a.devices)) [
  | inl e ↦
      let same : remove_manual_device key a ≡ (a, false) = ground arith in
      subst (Removed key a) (sym same) refl
  | inr (entry, e) ↦
      let same : remove_manual_device key a ≡ remove_manual_entry key entry a = ground arith in
      subst (Removed key a) (sym same) (remove_manual_entry-Removed key entry a e)
]
