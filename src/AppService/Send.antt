-- ===== src/AppService/Send.antt =====
-- When app_service.cpp starts a send.
use localsend_handheld.Prelude.{
  ◌≡◌, ◌≢◌, refl, sym, subst, codes, Bool, true, false, ◌⊎◌, inl, inr, List, [], ◌∷◌, Option, none,
  some, arith, Bytes, Bool-cases, Option-cases,
}
use localsend_handheld.Protocol.{Device}
use localsend_handheld.DeviceStore as Devices
use localsend_handheld.DeviceStore.{DeviceEntry}
use localsend_handheld.AppService.{AppService}
use localsend_handheld.AppService.Sending.{set_last_send_error, start_send_to_device}

-- What `start_send_to_device` does with each answer.
abbrev pub Started :
    Bytes → List Bytes → AppService → AppService × Bool × Option (Device × List Bytes) → Type 0
Started key paths a (b, true, job) =
    (a.send_running ≡ false)
    × (b.send_running ≡ true)
    × (b.cancel_requested ≡ false)
    × (b.devices ≡ a.devices)
    × (paths ≢ [])
    × ((entry : DeviceEntry) × (Devices.get key a.devices ≡ some entry)
        × (job ≡ some (entry.device, paths)))
Started key paths a (b, false, job) =
    (b ≡ set_last_send_error b.last_send_error a)
    × (job ≡ none)
    × ((a.send_running ≡ true) ⊎ ((Devices.get key a.devices ≡ none) ⊎ (paths ≡ [])))

started :
    (key : Bytes) (paths : List Bytes) (a : AppService) (entry : DeviceEntry)
    → a.send_running ≡ false
    → Devices.get key a.devices ≡ some entry
    → Started key paths a (start_send_to_device key paths a)
unfolding start_send_to_device
started key [] a entry e f =
    let same : start_send_to_device key [] a
        ≡ (set_last_send_error (codes "no files selected") a, false, none) =
      ground arith in
    subst (Started key [] a) (sym same) (refl, refl, inr (inr refl))
started key (path ∷ paths) a entry e f =
    let sending : AppService = record a {
      cancel_requested = false;
      last_send_error = [];
      send_status_message = codes "Starting send";
      send_running = true;
    } in
    let same : start_send_to_device key (path ∷ paths) a
        ≡ (sending, true, some (entry.device, path ∷ paths)) =
      ground arith in
    subst (Started key (path ∷ paths) a) (sym same) (e, refl, refl, refl, λ h. cc, (entry, f, refl))

-- A send starts only when none runs, the peer is known and there are files; then it runs, is not cancelled, and its
-- job is that peer's device and those files. Otherwise nothing but the error text changes and there is no
-- job: one of the three conditions fails.
pub start_send_to_device-Started :
    (key : Bytes) (paths : List Bytes) (a : AppService)
    → Started key paths a (start_send_to_device key paths a)
unfolding start_send_to_device
start_send_to_device-Started key paths a = elim (Bool-cases a.send_running) [
  | inl e ↦
      let same : start_send_to_device key paths a
          ≡ (set_last_send_error (codes "send already running") a, false, none) =
        ground arith in
      subst (Started key paths a) (sym same) (refl, refl, inl e)
  | inr e ↦ elim (Option-cases (Devices.get key a.devices)) [
    | inl f ↦
        let same : start_send_to_device key paths a
            ≡ (set_last_send_error (codes "selected peer disappeared") a, false, none) =
          ground arith in
        subst (Started key paths a) (sym same) (refl, refl, inr (inl f))
    | inr (entry, f) ↦ started key paths a entry e f
  ]
]
