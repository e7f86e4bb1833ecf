-- ===== src/Protocol/Words.antt =====
-- The words for the enumerations of protocol.cpp, and the media types.
use localsend_handheld.Prelude.{◌≡◌, ◌≢◌, arith, Bytes, beq_iff, codes}
use localsend_handheld.Protocol.{
  DeviceType, desktop, ProtocolType, device_type_to_string, device_type_from_string,
  protocol_type_to_string, protocol_type_from_string,
}

-- Reading the word of a device type or of a protocol gives it back.
pub from_string-to_string :
    (d : DeviceType) (p : ProtocolType)
    → (device_type_from_string (device_type_to_string d) ≡ d)
      × (protocol_type_from_string (protocol_type_to_string p) ≡ p)
unfolding device_type_from_string protocol_type_from_string
from_string-to_string d p = ground arith

-- A text that reads as a device type other than `desktop` is the word for that type.
to_string-from_string :
    (s : Bytes)
    → device_type_from_string s ≢ desktop
    → device_type_to_string (device_type_from_string s) ≡ s
to_string-from_string s h =
    unfold device_type_from_string in
    ground (
      arith,
      beq_iff s (codes "mobile"),
      beq_iff s (codes "web"),
      beq_iff s (codes "headless"),
      beq_iff s (codes "server"),
    )
