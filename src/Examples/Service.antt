-- ===== src/Examples/Service.antt =====
-- Examples for the models of app_service.cpp and status_format.cpp.
use localsend_handheld.Prelude.{◌≡◌, refl, true, false, [], ◌∷◌, some, none, codes, beq}
use localsend_handheld.Prelude.Int.{pos}
use localsend_handheld.Protocol.{Device, default_device}
use localsend_handheld.Protocol
use localsend_handheld.DeviceStore as Devices
use localsend_handheld.DeviceStore.{
  DeviceEntry, DeviceStore, new_entry, discovered, manual, device_key,
}
use localsend_handheld.Transfer.{TransferItem, empty_store, new_item, receive}
use localsend_handheld.Config.{ManualDevice, psv, default_config}
use localsend_handheld.AppService.{
  AppService, make_self_info, refresh_discovery, add_discovered, same_manual_device,
  load_configured_manual_devices, is_self_device, device_from_manual,
}
use localsend_handheld.AppService.Sending.{start_send_to_device}
use localsend_handheld.AppService.Peers.{
  remove_manual_device, add_manual_device, store_manual, write_manual, find_manual,
}
use localsend_handheld.AppService.Send.{Started, start_send_to_device-Started}
use localsend_handheld.AppService.Discover.{StoodThere, refresh_discovery-StoodThere}
use localsend_handheld.AppService.Removal.{Removed, remove_manual_device-Removed}
use localsend_handheld.AppService.Manual.{Entered, add_manual_device-Entered}

abbrev photo : TransferItem
photo = new_item 7 1 receive (codes "a.png") 10 (codes "Phone") (codes "10.0.0.2")

abbrev phone : Device
phone = record default_device { ip = codes "10.0.0.2"; alias = codes "Phone" }

-- What this device's own announcement looks like.
abbrev own : Device
own = record default_device { ip = codes "10.0.0.9"; alias = codes "LocalSend PSV" }

abbrev own_entry : DeviceEntry
own_entry = new_entry 1 own manual (codes "me")

abbrev service : AppService
service = record {
  config = default_config psv;
  options = record {
    platform = psv;
    enable_tls = false;
    device_model = [];
    device_type = Protocol.desktop;
  };
  self = make_self_info (default_config psv) (record {
    platform = psv;
    enable_tls = false;
    device_model = [];
    device_type = Protocol.desktop;
  });
  devices = own_entry ∷ [];
  transfers = empty_store;
  server = false;
  discovery_running = false;
  send_running = false;
  last_server_error = [];
  cancel_requested = false;
  last_send_error = [];
  send_status_message = [];
}

start_send_to_device-Started_example :
    Started
      (codes "me")
      (codes "a.png" ∷ [])
      service
      (start_send_to_device (codes "me") (codes "a.png" ∷ []) service)
start_send_to_device-Started_example =
    start_send_to_device-Started (codes "me") (codes "a.png" ∷ []) service

abbrev television : ManualDevice
television = record {
  ip = codes "10.0.0.3";
  port = pos 53317;
  is_https = true;
  alias = codes "TV";
  fingerprint = [];
}

add_manual_device-Entered_example :
    let (key, b) = add_manual_device 5 television service in
    (key ≡ device_key (device_from_manual television))
    × Entered television key b.devices
    × (find_manual television b.config.manual_devices ≡ some television)
add_manual_device-Entered_example = add_manual_device-Entered 5 television service

-- The store holds an entry for this device itself; a scan finds it again, and a phone.
own_kept :
    Devices.get (codes "me") (refresh_discovery 9 (own ∷ phone ∷ []) service).0.devices
    ≡ some own_entry
unfolding refresh_discovery Devices.get Devices.find_locked default_config
    Devices.mark_stale_offline Devices.mark_stale_loop add_discovered is_self_device make_self_info
    beq Devices.upsert device_key Devices.is_stale
own_kept = refl

own_is_self : is_self_device service.self own_entry.device ≡ true
unfolding is_self_device make_self_info default_config beq
own_is_self = refl

refresh_discovery-StoodThere_example : StoodThere (codes "me") own_entry service.devices
refresh_discovery-StoodThere_example =
    refresh_discovery-StoodThere 9 (own ∷ phone ∷ []) service (codes "me") own_entry own_kept
      own_is_self

-- Two configured peers share a fingerprint; entering the address of one of them again without a fingerprint removes
-- the key of both from the device store, though the other is still configured.
abbrev first_twin : ManualDevice
first_twin = record television { fingerprint = codes "x" }

abbrev second_twin : ManualDevice
second_twin = record first_twin { ip = codes "10.0.0.4" }

abbrev twins : AppService
twins = record service {
  config = record (default_config psv) { manual_devices = first_twin ∷ second_twin ∷ [] };
  devices = load_configured_manual_devices 1 (first_twin ∷ second_twin ∷ []) [];
}

second_twin_lost :
    let (key, b) = add_manual_device 5 television twins in
    (find_manual second_twin b.config.manual_devices ≡ some second_twin)
    × (Devices.get (device_key (device_from_manual second_twin)) b.devices ≡ none)
unfolding add_manual_device Devices.get find_manual store_manual same_manual_device beq write_manual
    Devices.find_locked Devices.upsert device_key Devices.remove load_configured_manual_devices
    Devices.write_locked Devices.refresh
second_twin_lost = (refl, refl)

remove_manual_device-Removed_example :
    Removed (codes "me") service (remove_manual_device (codes "me") service)
remove_manual_device-Removed_example = remove_manual_device-Removed (codes "me") service
