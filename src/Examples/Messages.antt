-- ===== src/Examples/Messages.antt =====
-- Examples for the models of json.cpp, protocol.cpp, config.cpp and discovery.cpp, with integers for the numbers
-- of JSON.
use localsend_handheld.Prelude.{
  ℕ, zero, suc, ◌≡◌, ◌≢◌, ◌≤◌, length, refl, true, false, List, [], ◌∷◌, Option, none, some, ◌==◌,
  if◌then◌else◌, Bytes, codes, arith, beq, blt,
}
use localsend_handheld.Prelude.Decimal.{to_string, int_to_string, value_from}
use localsend_handheld.Prelude.Int.{ℤ, pos, negsuc}
use localsend_handheld.Prelude.Map.{insert}
use localsend_handheld.Prelude.Result.{ok, out_of_fuel}
use localsend_handheld.Json.{
  Numbers, Json, null, boolean, number, string, object, array, field, no_fields, item, no_items,
}
use localsend_handheld.Json.Parser.{parse}
use localsend_handheld.Json.Dump.{dump, dump_number}
use localsend_handheld.Json.Escape.{json_escape, escape_byte}
use localsend_handheld.Json.Exact.{IsExactJson}
use localsend_handheld.Json.Whole.{parse-dump}
use localsend_handheld.Json.Total.{parse-ne-out_of_fuel}
use localsend_handheld.Protocol.{
  InfoRegisterDto, MulticastDto, PrepareUploadRequestDto, PrepareUploadResponseDto, mobile, https,
}
use localsend_handheld.Protocol.Dto.{
  register_members, info_members, multicast_members, request_members,
  prepare_upload_request_from_json,
}
use localsend_handheld.Protocol.Request.{arriving_request}
use localsend_handheld.Protocol.Sent.{read, write, read-request}
use localsend_handheld.Config.{AppConfig, desktop, psv, default_config}
use localsend_handheld.Config.Stored.{load_config, save_config}
use localsend_handheld.Config.Kept.{load_config-save_config}
use localsend_handheld.Discovery.{
  to_device, Reception, nothing, datagram, make_multicast_announcement, device_of, receive_size,
}
use localsend_handheld.Discovery.Found.{device_of-make_multicast_announcement}

abbrev negative : ℕ → ℤ
negative zero = pos 0
negative (suc k) = negsuc k

abbrev read_integer : Bytes → Option ℤ
read_integer [] = none
read_integer (c ∷ s) =
    if c == b'-' then some (negative (value_from 0 s)) else some (pos (value_from 0 (c ∷ s)))

abbrev pub integers : Numbers
integers = record {
  Number = ℤ;
  stod = read_integer;
  of_int64 = λ x. x;
  to_int64 = λ x. x;
  is_integral = λ x. true;
  print15 = int_to_string;
}

abbrev sample : Json ℤ
sample = object (
    field (codes "files")
      (array (item null (item (boolean true) (item (number (negsuc 11)) no_items))))
      (field (codes "na\"me") (string (codes "a\n\\")) no_fields))

sample-IsExactJson : IsExactJson integers sample
unfolding IsExactJson blt int_to_string to_string value_from
sample-IsExactJson = (((refl, tt), (tt, tt)), ((tt, (tt, ((refl, refl), tt))), (tt, tt)))

parse-dump_example : parse integers (dump integers sample) ≡ ok sample
parse-dump_example = parse-dump integers sample sample-IsExactJson

parse-ne-out_of_fuel_example : parse integers (codes "[1, {") ≢ out_of_fuel
parse-ne-out_of_fuel_example = parse-ne-out_of_fuel integers (codes "[1, {")

abbrev pub phone : InfoRegisterDto
phone = record {
  info = record {
    alias = codes "Phone";
    version = codes "2.1";
    device_model = codes "X";
    device_type = mobile;
    fingerprint = codes "AB";
    download = false;
  };
  port = pos 53317;
  protocol = https;
}

abbrev pub offer : PrepareUploadRequestDto
offer = record {
  info = phone;
  files =
      (
        codes "0",
        record {
          id = codes "0";
          file_name = codes "a.png";
          size = 3;
          file_type = [];
          hash = [];
          preview = codes "p";
        },
      )
      ∷ [];
}

read-request_example :
    read integers
      (prepare_upload_request_from_json integers)
      (write integers (request_members integers offer))
    ≡ ok (arriving_request integers offer)
unfolding int_to_string to_string value_from
read-request_example =
    read-request integers offer (omega arith) ((refl, refl), refl) (tt, tt)
      ((omega arith, ((refl, refl), refl)), tt)

abbrev answer : PrepareUploadResponseDto
answer = record {
  session_id = codes "s";
  files = (codes "0", codes "t") ∷ (codes "1", codes "u") ∷ [];
}

abbrev announced : MulticastDto
announced = record { register = phone; announce = true }

abbrev settings : AppConfig
settings = record (default_config desktop) {
  alias = codes "Desk";
  manual_devices =
      (record {
        ip = codes "10.0.0.7";
        port = pos 8080;
        is_https = true;
        alias = [];
        fingerprint = codes "CD";
      })
      ∷ [];
}

load_config-save_config_example :
    load_config integers psv (codes "c.json") (some (save_config integers settings))
    ≡ ok (record settings { config_path = codes "c.json" })
unfolding int_to_string to_string value_from default_config
load_config-save_config_example =
    load_config-save_config integers psv (codes "c.json") settings (omega arith)
      ((refl, refl), refl) ((refl, omega arith, ((refl, refl), refl)), tt)

abbrev receptions : List Reception
receptions =
    nothing
    ∷ datagram (codes "{\"alias\":\"A\"}") (some (codes "10.0.0.3"))
    ∷ datagram (codes "?") none
    ∷ []

announced_fits : length (make_multicast_announcement integers announced) ≤ receive_size
unfolding int_to_string to_string make_multicast_announcement write dump multicast_members insert
    register_members info_members beq blt json_escape escape_byte dump_number
announced_fits = omega arith

device_of-make_multicast_announcement_example :
    device_of integers
      (pos 53317)
      (datagram (make_multicast_announcement integers announced) (some (codes "10.0.0.4")))
    ≡ some (to_device announced (codes "10.0.0.4") (pos 53317))
unfolding int_to_string to_string value_from
device_of-make_multicast_announcement_example =
    device_of-make_multicast_announcement integers announced (codes "10.0.0.4") (pos 53317)
      (omega arith) ((refl, refl), refl) announced_fits
