-- ===== src/Config.antt =====
-- src/core/config.cpp and include/localsend/config.hpp: the settings and their defaults for each platform.
pub mod Stored
pub mod Kept
use localsend_handheld.Prelude.{Bool, true, false, List, [], Bytes, codes}
use localsend_handheld.Prelude.Int.{ℤ}
use localsend_handheld.Protocol.{default_port}

pub data PlatformKind : Type 0 where
  desktop switch psv : PlatformKind

pub record ManualDevice : Type 0 where
  pub ip : Bytes
  pub port : ℤ
  pub is_https : Bool
  pub alias : Bytes
  pub fingerprint : Bytes

pub record AppConfig : Type 0 where
  pub alias : Bytes
  pub inbox_path : Bytes
  pub outbox_path : Bytes
  pub config_path : Bytes
  pub certificate_path : Bytes
  pub private_key_path : Bytes
  pub port : ℤ
  pub discovery_enabled : Bool
  pub auto_accept : Bool
  pub manual_devices : List ManualDevice

abbrev pub platform_alias : PlatformKind → Bytes
platform_alias switch = codes "LocalSend Switch"
platform_alias psv = codes "LocalSend PSV"
platform_alias desktop = codes "LocalSend Desktop"

abbrev pub default_inbox_path : PlatformKind → Bytes
default_inbox_path switch = codes "sdmc:/switch/localsend/inbox/"
default_inbox_path psv = codes "ux0:data/localsend/inbox/"
default_inbox_path desktop = codes "inbox/"

abbrev pub default_outbox_path : PlatformKind → Bytes
default_outbox_path switch = codes "sdmc:/switch/localsend/outbox/"
default_outbox_path psv = codes "ux0:data/localsend/outbox/"
default_outbox_path desktop = codes "outbox/"

abbrev pub default_config_path : PlatformKind → Bytes
default_config_path switch = codes "sdmc:/switch/localsend/config.json"
default_config_path psv = codes "ux0:data/localsend/config.json"
default_config_path desktop = codes "local_config.json"

abbrev pub default_certificate_path : PlatformKind → Bytes
default_certificate_path switch = codes "sdmc:/switch/localsend/cert.pem"
default_certificate_path psv = codes "ux0:data/localsend/cert.pem"
default_certificate_path desktop = codes "cert.pem"

abbrev pub default_private_key_path : PlatformKind → Bytes
default_private_key_path switch = codes "sdmc:/switch/localsend/key.pem"
default_private_key_path psv = codes "ux0:data/localsend/key.pem"
default_private_key_path desktop = codes "key.pem"

unfoldable pub default_config : PlatformKind → AppConfig
default_config platform = record {
  alias = platform_alias platform;
  inbox_path = default_inbox_path platform;
  outbox_path = default_outbox_path platform;
  config_path = default_config_path platform;
  certificate_path = default_certificate_path platform;
  private_key_path = default_private_key_path platform;
  port = default_port;
  discovery_enabled = true;
  auto_accept = false;
  manual_devices = [];
}
