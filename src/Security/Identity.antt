-- ===== src/Security/Identity.antt =====
-- `generate_tls_identity` and `load_or_create_tls_identity` of src/core/security.cpp, with the files they read
-- and write. What mbedTLS returns is a parameter, and so are the calls of the file system that may fail.
pub mod Kept
use localsend_handheld.Prelude.{
  ℕ, ◌%◌, Bool, true, false, ◌&&◌, List, [], ◌∷◌, ◌++◌, Option, none, some, ◌==◌, if◌then◌else◌,
  Bytes, codes,
}
use localsend_handheld.Prelude.Int.{ℤ, pos, int_eq}
use localsend_handheld.Prelude.Decimal.{int_to_string}
use localsend_handheld.Prelude.Map.{Map, find, insert, has_key}
use localsend_handheld.Prelude.Result.{Result, ok, err, out_of_fuel}
use localsend_handheld.Security.Pem.{certificate_fingerprint_from_pem}

pub record TlsIdentity : Type 0 where
  pub certificate_pem : Bytes
  pub private_key_pem : Bytes
  pub fingerprint : Bytes

abbrev identity_with : Bytes → Bytes → Result Bytes → Result TlsIdentity
identity_with certificate_pem private_key_pem (ok fingerprint) = ok (record {
  certificate_pem = certificate_pem;
  private_key_pem = private_key_pem;
  fingerprint = fingerprint;
})
identity_with certificate_pem private_key_pem (err what) = err what
identity_with certificate_pem private_key_pem out_of_fuel = out_of_fuel

unfoldable pub identity_from_pem : Bytes → Bytes → Result TlsIdentity
identity_from_pem certificate_pem private_key_pem =
    identity_with certificate_pem private_key_pem (certificate_fingerprint_from_pem certificate_pem)

-- The results of the calls of mbedTLS, in the order of the source, and the texts and bytes they write. The
-- serial number is given to mbedTLS, and what the later calls return may depend on it.
pub record Mbedtls : Type 0 where
  pub seed : ℤ
  pub key_setup : ℤ
  pub key_generation : ℤ
  pub random : ℤ × Bytes
  pub set_serial : Bytes → ℤ
  pub subject_name : ℤ
  pub issuer_name : ℤ
  pub validity : ℤ
  pub constraints : ℤ
  pub subject_key_identifier : ℤ
  pub authority_key_identifier : ℤ
  pub certificate_pem : Bytes → ℤ × Bytes
  pub key_pem : ℤ × Bytes

-- `serial[0] &= 0x7f`, and 1 in place of 0.
unfoldable pub positive_serial : Bytes → Bytes
positive_serial [] = []
positive_serial (first ∷ serial) = if first % 128 == 0 then 1 ∷ serial else (first % 128) ∷ serial

abbrev pub serial_of : Mbedtls → Bytes
serial_of m = positive_serial m.random.1

-- The calls whose result is tested, with the words of their errors.
unfoldable pub generation_calls : Mbedtls → List (Bytes × ℤ)
unfolding positive_serial
generation_calls m =
    (codes "RNG seed", m.seed)
    ∷ (codes "key setup", m.key_setup)
    ∷ (codes "EC key generation", m.key_generation)
    ∷ (codes "certificate serial generation", m.random.0)
    ∷ (codes "certificate serial", m.set_serial (serial_of m))
    ∷ (codes "certificate subject", m.subject_name)
    ∷ (codes "certificate issuer", m.issuer_name)
    ∷ (codes "certificate validity", m.validity)
    ∷ (codes "certificate constraints", m.constraints)
    ∷ (codes "certificate subject key identifier", m.subject_key_identifier)
    ∷ (codes "certificate authority key identifier", m.authority_key_identifier)
    ∷ (codes "certificate PEM write", (m.certificate_pem (serial_of m)).0)
    ∷ (codes "private key PEM write", m.key_pem.0)
    ∷ []

abbrev pub mbedtls_error_text : Bytes → ℤ → Bytes
mbedtls_error_text operation result = operation ++ (codes " failed: " ++ int_to_string result)

-- The tests `if (result != 0)`: the error of the first call that fails.
unfoldable pub first_error : List (Bytes × ℤ) → Option Bytes
first_error [] = none
first_error ((operation, result) ∷ calls) = elim (int_eq result (pos 0)) [
  | true ↦ first_error calls
  | false ↦ some (mbedtls_error_text operation result)
]

-- The result or the exception; the contexts of mbedTLS, which `cleanup` frees, are not modelled.
unfoldable pub generate_tls_identity : Mbedtls → Result TlsIdentity
generate_tls_identity m = elim (first_error (generation_calls m)) [
  | some what ↦ err what
  | none ↦ identity_from_pem (m.certificate_pem (serial_of m)).1 m.key_pem.1
]

-- The file that a path names; which files can be opened to read and to write; what of a text is in the file when its
-- stream is closed, since `write` is not checked; and the text of the exception of `create_directories` for the
-- parent of a path. The files are kept under their own names.
pub record FileAccess : Type 0 where
  pub file_of : Bytes → Bytes
  pub taken : Bytes → Bytes → Bytes
  pub can_read : Bytes → Bool
  pub can_write : Bytes → Bool
  pub parent_error : Bytes → Option Bytes

abbrev opened : Bytes → Option Bytes → Result Bytes
opened path none = err (codes "failed to open " ++ path)
opened path (some text) = ok text

unfoldable pub read_text_file : FileAccess → Map Bytes → Bytes → Result Bytes
read_text_file access disk path =
    if access.can_read path
    then opened path (find (access.file_of path) disk)
    else err (codes "failed to open " ++ path)

-- The files afterwards, and the text of the exception.
unfoldable pub write_text_file : FileAccess → Bytes → Bytes → Map Bytes → Map Bytes × Option Bytes
write_text_file access path text disk = elim (access.parent_error path) [
  | some what ↦ (disk, some what)
  | none ↦
      if access.can_write path
      then (insert (access.file_of path) (access.taken path text) disk, none)
      else (disk, some (codes "failed to write " ++ path))
]

-- Both files are read. The order in which C++ evaluates the arguments decides only which error is thrown.
abbrev loaded_identity : Result Bytes → Result Bytes → Result TlsIdentity
loaded_identity (ok certificate) (ok key) = identity_from_pem certificate key
loaded_identity (ok certificate) (err what) = err what
loaded_identity (ok certificate) out_of_fuel = out_of_fuel
loaded_identity (err what) key = err what
loaded_identity out_of_fuel key = out_of_fuel

abbrev key_written : TlsIdentity → Map Bytes × Option Bytes → Result TlsIdentity × Map Bytes
key_written identity (disk, some what) = (err what, disk)
key_written identity (disk, none) = (ok identity, disk)

abbrev write_key :
    FileAccess → Bytes → TlsIdentity → Map Bytes × Option Bytes → Result TlsIdentity × Map Bytes
write_key access key_path identity (disk, some what) = (err what, disk)
write_key access key_path identity (disk, none) =
    key_written identity (write_text_file access key_path identity.private_key_pem disk)

abbrev write_identity :
    FileAccess → Bytes → Bytes → Map Bytes → Result TlsIdentity → Result TlsIdentity × Map Bytes
write_identity access certificate_path key_path disk (err what) = (err what, disk)
write_identity access certificate_path key_path disk out_of_fuel = (out_of_fuel, disk)
write_identity access certificate_path key_path disk (ok identity) =
    write_key access key_path identity
      (write_text_file access certificate_path identity.certificate_pem disk)

-- Except on the PS Vita, whose identity is built in.
unfoldable pub load_or_create_tls_identity :
    Mbedtls → FileAccess → Bytes → Bytes → Map Bytes → Result TlsIdentity × Map Bytes
load_or_create_tls_identity m access certificate_path key_path disk =
    elim (has_key (access.file_of certificate_path) disk
      && has_key (access.file_of key_path) disk) [
        | true ↦ (
          loaded_identity (read_text_file access disk certificate_path)
              (read_text_file access disk key_path),
          disk,
        )
        | false ↦ write_identity access certificate_path key_path disk (generate_tls_identity m)
      ]
