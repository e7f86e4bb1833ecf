-- ===== src/Config/Kept.antt =====
-- What `load_config` of config.cpp reads from the file that `save_config` writes.
use localsend_handheld.Prelude.{
  ◌≡◌, refl, ap, ◌∙◌, false, List, [], ◌∷◌, some, Bytes, codes, is_empty, map, All, beq, blt,
}
use localsend_handheld.Prelude.Int.{int_of_int64}
use localsend_handheld.Prelude.Map.{find, insert}
use localsend_handheld.Prelude.Result.{ok, ◌>>=◌}
use localsend_handheld.Json.{Numbers, object, array, of_map, of_list, at, as_int64}
use localsend_handheld.Json.Parser.{skip_ws}
use localsend_handheld.Json.Exact.{IsExactJson}
use localsend_handheld.Json.Whole.{parse-dump_padded}
use localsend_handheld.Json.Members.{
  Writable, Writable-insert, Writable-object, put_string, put_bool, put_number, to_list-of_list,
  AreExactItems-map,
}
use localsend_handheld.Protocol.Dto.{optional_string, optional_bool, optional_int}
use localsend_handheld.Protocol.DtoRoundTrip.{IsInt, IsInt-int_of_int64}
use localsend_handheld.Protocol.Sent.{IsSafe}
use localsend_handheld.Config.{PlatformKind, ManualDevice, AppConfig}
use localsend_handheld.Config.Stored.{
  device_members, device_json, config_members, manual_device_from_json, read_devices,
  manual_devices_from_json, config_from_json, fresh_config, load_config, save_config,
}

module _ (n : Numbers) where
  -- A device that is kept: it has an address, and a port that comes back.
  abbrev pub IsKept : ManualDevice → Type 0
  IsKept device = (is_empty device.ip ≡ false) × IsInt device.port × IsSafe n device.port

  device-Writable : (device : ManualDevice) → IsKept device → Writable n (device_members n device)
  unfolding device_members
  device-Writable device h = put_string n _ device.fingerprint _ (
      put_string n _ device.alias _ (
        put_bool n _ device.is_https _
          (put_number n _ device.port _ h.2.0 (put_string n _ device.ip [] (tt, tt)))))

  manual_device_from_json-device_json :
      (device : ManualDevice)
      → IsKept device
      → manual_device_from_json n (device_json n device) ≡ ok (some device)
  unfolding manual_device_from_json device_members optional_string optional_bool optional_int at
      as_int64 find insert beq blt
  manual_device_from_json-device_json device h =
      let port = ap int_of_int64 h.2.1 ∙ IsInt-int_of_int64 device.port h.1 in rw (h.0, port) refl

  read_devices-map :
      (devices : List ManualDevice)
      → All IsKept devices
      → read_devices n (map (device_json n) devices) ≡ ok devices
  unfolding read_devices
  read_devices-map [] h = refl
  read_devices-map (device ∷ devices) h =
      let first = manual_device_from_json-device_json device h.0 in
      let rest = read_devices-map devices h.1 in rw (first, rest) refl

  config-Writable :
      (config : AppConfig)
      → IsSafe n config.port
      → All IsKept config.manual_devices
      → Writable n (config_members n config)
  unfolding config_members
  config-Writable config h k =
      Writable-insert n _ (array (of_list (map (device_json n) config.manual_devices))) _
        (unfold IsExactJson in
          AreExactItems-map n IsKept (device_json n) config.manual_devices
            (λ device p. Writable-object n _ (device-Writable device p)) k)
        (put_bool n _ config.auto_accept _ (
          put_bool n _ config.discovery_enabled _ (
            put_number n _ config.port _ h.0 (
              put_string n _ config.private_key_path _ (
                put_string n _ config.certificate_path _ (
                  put_string n _ config.outbox_path _ (
                    put_string n _ config.inbox_path _
                      (put_string n _ config.alias [] (tt, tt)))))))))

  config_from_json-config_members :
      (platform : PlatformKind) (path : Bytes) (config : AppConfig)
      → IsInt config.port
      → IsSafe n config.port
      → All IsKept config.manual_devices
      → config_from_json n (fresh_config platform path) (object (of_map (config_members n config)))
        ≡ ok (record config { config_path = path })
  unfolding config_from_json config_members manual_devices_from_json optional_string optional_bool
      optional_int at as_int64 find insert beq blt
  config_from_json-config_members platform path config i h k =
      let port = ap int_of_int64 h.1 ∙ IsInt-int_of_int64 config.port i in
      let items = to_list-of_list (map (device_json n) config.manual_devices) in
      let devices = read_devices-map config.manual_devices k in rw (port, items, devices) refl

  -- What is saved is loaded again, on any platform, with the path that it is loaded from: all settings and
  -- manual devices, where the ports are `int`s that survive as JSON numbers and each device has an
  -- address.
  pub load_config-save_config :
      (platform : PlatformKind) (path : Bytes) (config : AppConfig)
      → IsInt config.port
      → IsSafe n config.port
      → All IsKept config.manual_devices
      → load_config n platform path (some (save_config n config))
        ≡ ok (record config { config_path = path })
  unfolding load_config save_config
  load_config-save_config platform path config i h k =
      let exact = Writable-object n _ (config-Writable config h k) in
      let parsed =
        parse-dump_padded n (object (of_map (config_members n config))) (codes "\n") exact refl
          (unfold skip_ws in refl) in
      ap (λ r. r >>= config_from_json n (fresh_config platform path)) parsed
      ∙ config_from_json-config_members platform path config i h k
