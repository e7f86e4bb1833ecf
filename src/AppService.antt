-- ===== src/AppService.antt =====
-- src/core/app_service.cpp and include/localsend/app_service.hpp: the object that owns the stores, the
-- server and the two background threads. A method is a step on its state; the discovery thread and the send
-- thread appear as the steps that they take, the clock, the network, the key store and the success of
-- listening as arguments. Threads are created as the `std::thread` build does it.
pub mod Peers
pub mod Sending
pub mod Manual
pub mod Removal
pub mod Send
pub mod Discover
use mathlib.Core.Option
use localsend_handheld.Prelude.{
  ℕ, ◌+◌, Bool, true, false, not, ◌&&◌, ◌||◌, ◌⊎◌, inl, inr, List, [], ◌∷◌, ◌++◌, Option, none,
  some, if◌then◌else◌, Bytes, codes, beq, is_empty,
}
use localsend_handheld.Prelude.Int.{ℤ, int_eq}
use localsend_handheld.Prelude.Decimal.{int_to_string}
use localsend_handheld.Protocol.{
  Device, DeviceType, http, https, InfoRegisterDto, default_device, protocol_version,
}
use localsend_handheld.DeviceStore.{
  DeviceStore, upsert_manual, upsert_discovered, mark_stale_offline,
}
use localsend_handheld.Transfer.{TransferStore}
use localsend_handheld.Config.{AppConfig, ManualDevice, PlatformKind, switch, psv, desktop}

pub record AppServiceOptions : Type 0 where
  pub platform : PlatformKind
  pub enable_tls : Bool
  pub device_model : Bytes
  pub device_type : DeviceType

-- `server` tells whether `server_` is set; `send_running` and `cancel_requested` are what the send
-- thread shares with the user interface.
pub record AppService : Type 0 where
  pub config : AppConfig
  pub options : AppServiceOptions
  pub self : InfoRegisterDto
  pub devices : DeviceStore
  pub transfers : TransferStore
  pub server : Bool
  pub discovery_running : Bool
  pub send_running : Bool
  pub last_server_error : Bytes
  pub cancel_requested : Bool
  pub last_send_error : Bytes
  pub send_status_message : Bytes

-- `kDiscoveryStaleAge`, in seconds.
abbrev pub discovery_stale_age : ℕ
discovery_stale_age = 30

unfoldable pub same_manual_device : ManualDevice → ManualDevice → Bool
same_manual_device lhs rhs =
    if not (is_empty lhs.fingerprint) && not (is_empty rhs.fingerprint)
    then beq lhs.fingerprint rhs.fingerprint
    else beq lhs.ip rhs.ip && int_eq lhs.port rhs.port

abbrev pub device_from_manual : ManualDevice → Device
device_from_manual manual = record default_device {
  ip = manual.ip;
  port = manual.port;
  is_https = manual.is_https;
  alias = manual.alias;
  fingerprint = manual.fingerprint;
  version = codes "2.1";
}

abbrev pub default_device_model : PlatformKind → Bytes
default_device_model switch = codes "Nintendo Switch"
default_device_model psv = codes "PlayStation Vita"
default_device_model desktop = codes "Desktop prototype"

unfoldable pub make_self_info : AppConfig → AppServiceOptions → InfoRegisterDto
make_self_info config options = record {
  info = record {
    alias = config.alias;
    version = protocol_version;
    device_model =
        if is_empty options.device_model
        then default_device_model options.platform
        else options.device_model;
    device_type = options.device_type;
    fingerprint = [];
    download = false;
  };
  port = config.port;
  protocol = if options.enable_tls then https else http;
}

unfoldable pub load_configured_manual_devices : ℕ → List ManualDevice → DeviceStore → DeviceStore
load_configured_manual_devices now [] devices = devices
load_configured_manual_devices now (manual ∷ manuals) devices =
    load_configured_manual_devices now manuals
      (upsert_manual now (device_from_manual manual) devices).1

unfoldable pub is_self_device : InfoRegisterDto → Device → Bool
is_self_device self device =
    if not (is_empty self.fingerprint) && beq device.fingerprint self.fingerprint
    then true
    else int_eq device.port self.port && beq device.alias self.alias

-- `update_config` answers whether it did anything.
unfoldable pub update_config : ℕ → AppConfig → AppService → AppService × Bool
update_config now config a =
    if a.server || (a.discovery_running || a.send_running) then (a, false) else (
      record a {
        config = config;
        self = make_self_info config a.options;
        devices = load_configured_manual_devices now config.manual_devices [];
      },
      true,
    )

-- The self information once the server's protocol is known: `identity` is the fingerprint of the TLS
-- identity, or the text of the exception.
abbrev pub serving_self : Bytes ⊎ Bytes → AppService → Bytes ⊎ InfoRegisterDto
serving_self identity a =
    let self = make_self_info a.config a.options in
    if a.options.enable_tls
    then elim identity [
      | inl what ↦ inl what
      | inr fingerprint ↦
          inr (record self {
            info = record self.info { fingerprint = fingerprint };
            protocol = https;
          })
    ]
    else inr (record self { info = record self.info { fingerprint = [] }; protocol = http })

abbrev pub listen_failed : ℤ → Bytes
listen_failed port = codes "listen failed on port " ++ int_to_string port

-- `listened` is the port that `LocalSendServer::start` binds, if it can.
unfoldable pub start_server : Bytes ⊎ Bytes → Option ℤ → AppService → AppService × Bool
start_server identity listened a =
    let fresh = record a { last_server_error = []; self = make_self_info a.config a.options } in
    if a.server then (a, true) else elim (serving_self identity a) [
      | inl what ↦ (record fresh { last_server_error = what }, false)
      | inr self ↦ elim listened [
        | none ↦
            (record fresh { self = self; last_server_error = listen_failed a.config.port }, false)
        | some port ↦ (record fresh { self = record self { port = port }; server = true }, true)
      ]
    ]

abbrev pub stop_server : AppService → AppService
stop_server a = record a { server = false }

-- The callback that `start_server` gives to the server.
unfoldable pub on_register : ℕ → Device → AppService → AppService
on_register now device a =
    if not (is_self_device a.self device)
    then record a { devices = (upsert_discovered now device a.devices).1 }
    else a

unfoldable pub start_discovery : AppService → AppService × Bool
start_discovery a =
    if a.discovery_running
    then (a, true)
    else if not a.config.discovery_enabled
    then (a, false)
    else (record a { discovery_running = true }, true)

abbrev pub stop_discovery : AppService → AppService
stop_discovery a = record a { discovery_running = false }

unfoldable pub restart_core : Bytes ⊎ Bytes → Option ℤ → AppService → AppService × Bool
restart_core identity listened a =
    let (started, ok) = start_server identity listened (stop_server (stop_discovery a)) in
    if not ok
    then (started, false)
    else if started.config.discovery_enabled
    then ((start_discovery started).0, true)
    else (started, true)

-- The loop of `refresh_discovery` over what `discover_peers` found, with its counter.
unfoldable pub add_discovered :
    ℕ → InfoRegisterDto → List Device → DeviceStore → ℕ → DeviceStore × ℕ
add_discovered now self [] devices n = (devices, n)
add_discovered now self (device ∷ found) devices n =
    if is_self_device self device
    then add_discovered now self found devices n
    else add_discovered now self found (upsert_discovered now device devices).1 (n + 1)

unfoldable pub refresh_discovery : ℕ → List Device → AppService → AppService × ℕ
refresh_discovery now found a =
    let (devices, n) = add_discovered now a.self found a.devices 0 in
    if not a.config.discovery_enabled
    then (a, 0)
    else (record a { devices = (mark_stale_offline now discovery_stale_age devices).0 }, n)
