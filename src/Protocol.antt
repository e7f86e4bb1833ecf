-- ===== src/Protocol.antt =====
-- src/core/protocol.cpp and include/localsend/protocol.hpp: the data of the protocol, the words for
-- its enumerations, and the media type of a file name.
pub mod Words
pub mod Dto
pub mod DtoRoundTrip
pub mod Request
pub mod Sent
use localsend_handheld.Prelude.{
  ℕ, Bool, true, false, ◌||◌, [], ◌∷◌, if◌then◌else◌, Bytes, codes, beq, lower_ascii,
}
use localsend_handheld.Prelude.Int.{ℤ, pos}
use localsend_handheld.Prelude.Map.{Map}
use localsend_handheld.Prelude.FilePath.{extension}

pub data DeviceType : Type 0 where
  desktop mobile web headless server : DeviceType

pub data ProtocolType : Type 0 where
  http https : ProtocolType

pub record Device : Type 0 where
  pub ip : Bytes
  pub version : Bytes
  pub port : ℤ
  pub is_https : Bool
  pub fingerprint : Bytes
  pub alias : Bytes
  pub device_model : Bytes
  pub device_type : DeviceType
  pub download : Bool

pub record InfoDto : Type 0 where
  pub alias : Bytes
  pub version : Bytes
  pub device_model : Bytes
  pub device_type : DeviceType
  pub fingerprint : Bytes
  pub download : Bool

pub record InfoRegisterDto : Type 0 where
  pub info : InfoDto
  pub open info use *
  pub port : ℤ
  pub protocol : ProtocolType

pub record MulticastDto : Type 0 where
  pub register : InfoRegisterDto
  pub open register use *
  pub announce : Bool

pub record FileDto : Type 0 where
  pub id : Bytes
  pub file_name : Bytes
  pub size : ℕ
  pub file_type : Bytes
  pub hash : Bytes
  pub preview : Bytes

pub record PrepareUploadRequestDto : Type 0 where
  pub info : InfoRegisterDto
  pub files : Map FileDto

pub record PrepareUploadResponseDto : Type 0 where
  pub session_id : Bytes
  pub files : Map Bytes

-- `kProtocolVersion` and `kDefaultPort` of constants.hpp.
abbrev pub protocol_version : Bytes
protocol_version = codes "2.1"

abbrev pub default_port : ℤ
default_port = pos 53317

-- The members' initial values in the struct.
abbrev pub default_device : Device
default_device = record {
  ip = [];
  version = codes "2.1";
  port = pos 53317;
  is_https = false;
  fingerprint = [];
  alias = [];
  device_model = [];
  device_type = desktop;
  download = false;
}

abbrev pub device_type_to_string : DeviceType → Bytes
device_type_to_string desktop = codes "desktop"
device_type_to_string mobile = codes "mobile"
device_type_to_string web = codes "web"
device_type_to_string headless = codes "headless"
device_type_to_string server = codes "server"

abbrev pub is_https_protocol : ProtocolType → Bool
is_https_protocol http = false
is_https_protocol https = true

abbrev pub protocol_type_to_string : ProtocolType → Bytes
protocol_type_to_string value = if is_https_protocol value then codes "https" else codes "http"

unfoldable pub device_type_from_string : Bytes → DeviceType
unfolding beq
device_type_from_string value =
    if beq value (codes "mobile")
    then mobile
    else if beq value (codes "web")
    then web
    else if beq value (codes "headless")
    then headless
    else if beq value (codes "server")
    then server
    else desktop

unfoldable pub protocol_type_from_string : Bytes → ProtocolType
unfolding beq
protocol_type_from_string value = if beq value (codes "https") then https else http

-- The chain of tests of `mime_from_filename` on the lowered extension.
unfoldable pub mime_from_extension : Bytes → Bytes
unfolding beq
mime_from_extension ext =
    if beq ext (codes ".jpg") || beq ext (codes ".jpeg")
    then codes "image/jpeg"
    else if beq ext (codes ".png")
    then codes "image/png"
    else if beq ext (codes ".gif")
    then codes "image/gif"
    else if beq ext (codes ".webp")
    then codes "image/webp"
    else if beq ext (codes ".mp4")
    then codes "video/mp4"
    else if beq ext (codes ".mov")
    then codes "video/quicktime"
    else if beq ext (codes ".mp3")
    then codes "audio/mpeg"
    else if beq ext (codes ".flac")
    then codes "audio/flac"
    else if beq ext (codes ".txt") || beq ext (codes ".log")
    then codes "text/plain"
    else if beq ext (codes ".json")
    then codes "application/json"
    else if beq ext (codes ".pdf")
    then codes "application/pdf"
    else if beq ext (codes ".apk")
    then codes "application/vnd.android.package-archive"
    else codes "application/octet-stream"

unfoldable pub mime_from_filename : Bytes → Bytes
unfolding mime_from_extension extension lower_ascii
mime_from_filename filename = mime_from_extension (lower_ascii (extension filename))
