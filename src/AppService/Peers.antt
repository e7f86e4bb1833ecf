-- ===== src/AppService/Peers.antt =====
-- The peers that the user enters by hand, in app_service.cpp: they stand in the settings and in the device
-- store.
use localsend_handheld.Prelude.{
  ℕ, Bool, true, false, not, ◌&&◌, List, [], ◌∷◌, ◌++◌, Option, none, some, ◌==◌, if◌then◌else◌,
  Bytes, beq, is_empty, keep_if, length,
}
use localsend_handheld.Protocol.{Device}
use localsend_handheld.DeviceStore as Devices
use localsend_handheld.DeviceStore.{DeviceEntry, device_key, is_manual, upsert_manual, remove}
use localsend_handheld.Config.{AppConfig, ManualDevice}
use localsend_handheld.AppService.{AppService, same_manual_device, device_from_manual}

-- `std::find_if` with `same_manual_device`.
unfoldable pub find_manual : ManualDevice → List ManualDevice → Option ManualDevice
find_manual manual [] = none
find_manual manual (device ∷ devices) =
    if same_manual_device device manual then some device else find_manual manual devices

-- `*existing = manual`
unfoldable pub write_manual : ManualDevice → List ManualDevice → List ManualDevice
write_manual manual [] = []
write_manual manual (device ∷ devices) =
    if same_manual_device device manual
    then manual ∷ devices
    else device ∷ write_manual manual devices

abbrev pub with_manual_devices : List ManualDevice → AppConfig → AppConfig
with_manual_devices manuals config = record config { manual_devices = manuals }

-- The configured devices, and the key of the one that was replaced, or an empty text.
unfoldable pub store_manual : ManualDevice → List ManualDevice → List ManualDevice × Bytes
store_manual manual manuals = elim (find_manual manual manuals) [
  | some existing ↦ (write_manual manual manuals, device_key (device_from_manual existing))
  | none ↦ (manuals ++ manual ∷ [], [])
]

-- The parameters of the source, in a record.
unfoldable pub add_manual_device : ℕ → ManualDevice → AppService → Bytes × AppService
add_manual_device now manual a =
    let (manuals, previous_key) = store_manual manual a.config.manual_devices in
    let device = device_from_manual manual in
    let kept =
      if not (is_empty previous_key) && not (beq previous_key (device_key device))
      then (remove previous_key a.devices).0
      else a.devices in
    let (key, devices) = upsert_manual now device kept in
    (key, record a { config = with_manual_devices manuals a.config; devices = devices })

abbrev pub manual_of : Device → ManualDevice
manual_of device = record {
  ip = device.ip;
  port = device.port;
  is_https = device.is_https;
  alias = device.alias;
  fingerprint = device.fingerprint;
}

-- For an entry that is there.
unfoldable pub remove_manual_entry : Bytes → DeviceEntry → AppService → AppService × Bool
remove_manual_entry key entry a =
    let manual = manual_of entry.device in
    let left = keep_if (λ device. not (same_manual_device device manual)) a.config.manual_devices in
    if not (is_manual entry.source)
    then (a, false)
    else if length left == length a.config.manual_devices
    then (record a { config = with_manual_devices left a.config }, false)
    else (
      record a { config = with_manual_devices left a.config; devices = (remove key a.devices).0 },
      true,
    )

unfoldable pub remove_manual_device : Bytes → AppService → AppService × Bool
remove_manual_device key a = elim (Devices.get key a.devices) [
  | none ↦ (a, false)
  | some entry ↦ remove_manual_entry key entry a
]
