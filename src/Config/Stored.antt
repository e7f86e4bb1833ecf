-- ===== src/Config/Stored.antt =====
-- `load_config` and `save_config` of config.cpp, over the text of the file. `optional_string` and its kin are the
-- same in config.cpp as in protocol.cpp.
use localsend_handheld.Prelude.{
  false, List, [], ◌∷◌, ◌++◌, Option, none, some, if◌then◌else◌, Bytes, codes, is_empty, map,
}
use localsend_handheld.Prelude.Map.{Map, insert}
use localsend_handheld.Prelude.Result.{Result, ok, err, out_of_fuel, ◌>>=◌}
use localsend_handheld.Json.{
  Numbers, Json, boolean, number, string, object, array, of_map, of_list, is_object, is_array,
  as_array, at,
}
use localsend_handheld.Json.Parser.{parse}
use localsend_handheld.Json.Dump.{dump}
use localsend_handheld.Protocol.{default_port}
use localsend_handheld.Protocol.Dto.{optional_string, optional_bool, optional_int}
use localsend_handheld.Config.{PlatformKind, ManualDevice, AppConfig, default_config}

-- The settings before the file is read.
abbrev pub fresh_config : PlatformKind → Bytes → AppConfig
fresh_config platform path = record (default_config platform) { config_path = path }

module _ (n : Numbers) where
  unfoldable pub device_members : ManualDevice → Map (Json n.Number)
  device_members device = insert (codes "fingerprint") (string device.fingerprint) (
      insert (codes "alias") (string device.alias) (
        insert (codes "https") (boolean device.is_https) (
          insert (codes "port") (number (n.of_int64 device.port))
            (insert (codes "ip") (string device.ip) []))))

  abbrev pub device_json : ManualDevice → Json n.Number
  device_json device = object (of_map (device_members device))

  unfoldable pub config_members : AppConfig → Map (Json n.Number)
  config_members config =
      insert (codes "manualDevices") (array (of_list (map device_json config.manual_devices))) (
        insert (codes "autoAccept") (boolean config.auto_accept) (
          insert (codes "discoveryEnabled") (boolean config.discovery_enabled) (
            insert (codes "port") (number (n.of_int64 config.port)) (
              insert (codes "privateKeyPath") (string config.private_key_path) (
                insert (codes "certificatePath") (string config.certificate_path) (
                  insert (codes "outboxPath") (string config.outbox_path) (
                    insert (codes "inboxPath") (string config.inbox_path)
                      (insert (codes "alias") (string config.alias) []))))))))

  -- One round of the loop: nothing, if the entry has no address.
  unfoldable pub manual_device_from_json : Json n.Number → Result (Option ManualDevice)
  manual_device_from_json json = do
    ip ← optional_string json (codes "ip") []
    if is_empty ip then ok none else (do
      port ← optional_int n json (codes "port") default_port
      is_https ← optional_bool json (codes "https") false
      alias ← optional_string json (codes "alias") []
      fingerprint ← optional_string json (codes "fingerprint") []
      ok (
          some (record {
            ip = ip;
            port = port;
            is_https = is_https;
            alias = alias;
            fingerprint = fingerprint;
          })))

  abbrev pub push : Option ManualDevice → List ManualDevice → List ManualDevice
  push none devices = devices
  push (some device) devices = device ∷ devices

  -- The loop; an entry that is no object is passed over.
  unfoldable pub read_devices : List (Json n.Number) → Result (List ManualDevice)
  read_devices [] = ok []
  read_devices (item ∷ items) =
      let rest = read_devices items in
      if is_object item
      then (do device ← manual_device_from_json item; devices ← rest; ok (push device devices))
      else rest

  abbrev pub devices_of : Result (Json n.Number) → Result (List ManualDevice)
  devices_of (ok json) =
      if is_array json then (do items ← as_array json; read_devices items) else ok []
  devices_of (err what) = ok []
  devices_of out_of_fuel = ok []

  unfoldable pub manual_devices_from_json : Json n.Number → Result (List ManualDevice)
  manual_devices_from_json json = devices_of (at json (codes "manualDevices"))

  -- What `load_config` does with the JSON of the file.
  unfoldable pub config_from_json : AppConfig → Json n.Number → Result AppConfig
  config_from_json config json = do
    alias ← optional_string json (codes "alias") config.alias
    inbox_path ← optional_string json (codes "inboxPath") config.inbox_path
    outbox_path ← optional_string json (codes "outboxPath") config.outbox_path
    certificate_path ← optional_string json (codes "certificatePath") config.certificate_path
    private_key_path ← optional_string json (codes "privateKeyPath") config.private_key_path
    port ← optional_int n json (codes "port") config.port
    discovery_enabled ← optional_bool json (codes "discoveryEnabled") config.discovery_enabled
    auto_accept ← optional_bool json (codes "autoAccept") config.auto_accept
    manual_devices ← manual_devices_from_json json
    ok (record config {
      alias = alias;
      inbox_path = inbox_path;
      outbox_path = outbox_path;
      certificate_path = certificate_path;
      private_key_path = private_key_path;
      port = port;
      discovery_enabled = discovery_enabled;
      auto_accept = auto_accept;
      manual_devices = manual_devices;
    })

  -- `none` stands for a file that does not open.
  unfoldable pub load_config : PlatformKind → Bytes → Option Bytes → Result AppConfig
  load_config platform path none = ok (fresh_config platform path)
  load_config platform path (some text) = do
    json ← parse n text
    config_from_json (fresh_config platform path) json

  -- What `save_config` writes to the file.
  unfoldable pub save_config : AppConfig → Bytes
  save_config config = dump n (object (of_map (config_members config))) ++ codes "\n"
