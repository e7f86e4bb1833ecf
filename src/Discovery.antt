-- ===== src/Discovery.antt =====
-- src/core/discovery.cpp: announcements, and the devices that a scan finds. Sockets are left out: a scan is
-- given what each round of its loop receives until its time is over or `select` reports nothing.
pub mod Found
use localsend_handheld.Prelude.{
  ℕ, Bool, [], ◌∷◌, ◌++◌, List, Option, none, some, if◌then◌else◌, Bytes, codes, take, map,
}
use localsend_handheld.Prelude.Decimal.{int_to_string}
use localsend_handheld.Prelude.Int.{ℤ, is_positive}
use localsend_handheld.Prelude.Map.{Map, insert}
use localsend_handheld.Prelude.Result.{Result, ok, err, out_of_fuel, map_ok}
use localsend_handheld.Json.{Numbers}
use localsend_handheld.Protocol.{Device, MulticastDto, is_https_protocol}
use localsend_handheld.Protocol.Dto.{multicast_members, multicast_from_json}
use localsend_handheld.Protocol.Sent.{write, read}

unfoldable pub to_device : MulticastDto → Bytes → ℤ → Device
to_device dto ip fallback_port = record {
  ip = ip;
  version = dto.version;
  port = if is_positive dto.port then dto.port else fallback_port;
  is_https = is_https_protocol dto.protocol;
  fingerprint = dto.fingerprint;
  alias = dto.alias;
  device_model = dto.device_model;
  device_type = dto.device_type;
  download = dto.download;
}

-- One round: a call that fails or gives nothing, or a datagram and the text of the sender's address.
pub data Reception : Type 0 where
  nothing : Reception
  datagram : Bytes → Option Bytes → Reception

abbrev pub receive_size : ℕ
receive_size = 8192

abbrev pub endpoint : Device → Bytes
endpoint device = device.ip ++ (codes ":" ++ int_to_string device.port)

module _ (n : Numbers) where
  unfoldable pub make_multicast_announcement : MulticastDto → Bytes
  make_multicast_announcement self = write n (multicast_members n self)

  unfoldable pub device_from_multicast : Bytes → Bytes → ℤ → Result Device
  device_from_multicast payload ip fallback_port =
      map_ok (λ dto. to_device dto ip fallback_port) (read n (multicast_from_json n) payload)

  -- The device of a round, if it has one; a datagram is cut to the buffer.
  unfoldable pub device_of : ℤ → Reception → Option Device
  device_of port nothing = none
  device_of port (datagram payload none) = none
  device_of port (datagram payload (some ip)) =
      elim (device_from_multicast (take receive_size payload) ip port) [
        | ok device ↦ some device
        | err what ↦ none
        | out_of_fuel ↦ none
      ]

  abbrev pub keep_device : Option Device → Map Device → Map Device
  keep_device none by_endpoint = by_endpoint
  keep_device (some device) by_endpoint = insert (endpoint device) device by_endpoint

  -- The loop of `discover_peers`.
  unfoldable pub receive_all : ℤ → List Reception → Map Device → Map Device
  receive_all port [] by_endpoint = by_endpoint
  receive_all port (reception ∷ receptions) by_endpoint =
      receive_all port receptions (keep_device (device_of port reception) by_endpoint)

  abbrev values : Map Device → List Device
  values [] = []
  values ((key, device) ∷ m) = device ∷ values m

  -- `none` stands for a socket that cannot be set up.
  unfoldable pub discover_peers : ℤ → Option (List Reception) → List Device
  discover_peers port none = []
  discover_peers port (some receptions) = values (receive_all port receptions [])
