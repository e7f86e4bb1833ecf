-- ===== src/Examples/Security.antt =====
-- Examples for the model of security.cpp.
use localsend_handheld.Prelude.{
  ◌%◌, ◌≡◌, refl, true, false, [], ◌∷◌, none, Bytes, codes, beq, length,
}
use localsend_handheld.Prelude.Int.{pos, negsuc}
use localsend_handheld.Prelude.Map.{Map, find}
use localsend_handheld.Prelude.Result.{ok, err}
use localsend_handheld.Prelude.Decimal.{to_string, int_to_string}
use native.Mathlib.Omega.{arith}
use localsend_handheld.Prelude.Hex.{hex_digit}
use localsend_handheld.Security.Base64.{base64_value, decode_from, base64_decode}
use localsend_handheld.Security.Base64.Reference.{decode_digits, base64_decode_lem}
use localsend_handheld.Security.Base64.Encoded.{base64_digit, sextets, pads, base64_encode}
use localsend_handheld.Security.Sha256.{
  push_zeros, length_bytes, bit_len_of, pad_message, block_words, extend_words, round, rounds_over,
  add_hash, hash_block, hash_blocks, hash_bytes, hex_encode, sha256_hex,
}
use localsend_handheld.Security.Sha256.Padded.{read_message, read_message-pad_message}
use localsend_handheld.Security.Pem.{certificate_der_from_pem, certificate_fingerprint_from_pem}
use localsend_handheld.Security.Pem.Certificate.{pem_text, certificate_der_from_pem-pem_text}
use localsend_handheld.Security.Identity.{
  TlsIdentity, identity_from_pem, Mbedtls, positive_serial, generation_calls, first_error,
  generate_tls_identity, FileAccess, read_text_file, load_or_create_tls_identity,
}
use localsend_handheld.Security.Identity.Kept.{load_or_create_tls_identity-kept}

decode_padded : base64_decode (codes "TW Fu\nTQ==") ≡ ok (codes "ManM")
unfolding base64_decode decode_from base64_value
decode_padded = refl

decode_behind_padding : base64_decode (codes "TQ=a") ≡ err (codes "invalid base64 padding")
unfolding base64_decode decode_from base64_value
decode_behind_padding = refl

base64_decode_lem_example :
    base64_decode (codes "TWF\nu TQ==") ≡ decode_digits (codes "TWF\nu TQ==")
base64_decode_lem_example = base64_decode_lem (codes "TWF\nu TQ==")

certificate_der_from_pem-pem_text_example :
    certificate_der_from_pem (pem_text (codes "TWFu\nTQ==\n") (codes "\n")) ≡ ok (codes "ManM")
unfolding base64_encode sextets pads base64_digit
certificate_der_from_pem-pem_text_example =
    certificate_der_from_pem-pem_text (codes "ManM") (codes "TWFu\nTQ==\n") (codes "\n")
      (omega arith) refl (omega arith)

read_message-pad_message_example :
    (length (pad_message (codes "abc")) % 64 ≡ 0)
    × (read_message (pad_message (codes "abc")) ≡ codes "abc")
read_message-pad_message_example = read_message-pad_message (codes "abc") (omega arith)

abbrev certificate : Bytes
certificate = pem_text (codes "TWFu\n") []

abbrev mbedtls : Mbedtls
mbedtls = record {
  seed = pos 0;
  key_setup = pos 0;
  key_generation = pos 0;
  random = (pos 0, 0x80 ∷ 7 ∷ []);
  set_serial = λ serial. pos 0;
  subject_name = pos 0;
  issuer_name = pos 0;
  validity = pos 0;
  constraints = pos 0;
  subject_key_identifier = pos 0;
  authority_key_identifier = pos 0;
  certificate_pem = λ serial. (pos 0, certificate);
  key_pem = (pos 0, codes "key");
}

serial_is_positive : positive_serial (0x80 ∷ 7 ∷ []) ≡ 1 ∷ 7 ∷ []
unfolding positive_serial
serial_is_positive = refl

abbrev without_entropy : Mbedtls
without_entropy = record mbedtls { seed = negsuc 51 }

seed_fails : generate_tls_identity without_entropy ≡ err (codes "RNG seed failed: -52")
unfolding generate_tls_identity generation_calls first_error int_to_string to_string
seed_fails = refl

abbrev files : Map Bytes
files = (codes "cert.pem", certificate) ∷ (codes "key.pem", codes "key") ∷ []

abbrev readable : FileAccess
readable = record {
  file_of = λ path. path;
  taken = λ path text. text;
  can_read = λ path. true;
  can_write = λ path. false;
  parent_error = λ path. none;
}

abbrev identity : TlsIdentity
identity = record {
  certificate_pem = certificate;
  private_key_pem = codes "key";
  fingerprint = sha256_hex (codes "Man");
}

loads_identity :
    (load_or_create_tls_identity mbedtls readable (codes "cert.pem") (codes "key.pem") files).0
    ≡ ok identity
unfolding load_or_create_tls_identity read_text_file identity_from_pem
    certificate_fingerprint_from_pem find beq base64_encode sextets pads base64_digit
loads_identity =
    let der : certificate_der_from_pem certificate ≡ ok (codes "Man") =
      certificate_der_from_pem-pem_text (codes "Man") (codes "TWFu\n") [] (omega arith) refl
        (omega arith) in
    rw der refl

load_or_create_tls_identity-kept_example :
    load_or_create_tls_identity without_entropy readable
      (codes "cert.pem")
      (codes "key.pem")
      (load_or_create_tls_identity mbedtls readable (codes "cert.pem") (codes "key.pem") files).1
    ≡ (
      ok identity,
      (load_or_create_tls_identity mbedtls readable (codes "cert.pem") (codes "key.pem") files).1,
    )
unfolding beq
load_or_create_tls_identity-kept_example =
    load_or_create_tls_identity-kept readable (codes "cert.pem") (codes "key.pem")
      (λ path text. refl) mbedtls without_entropy files identity refl refl refl loads_identity

sha256_abc :
    sha256_hex (codes "abc")
    ≡ codes "ba7816bf8f01cfea414140de5dae2223b00361a396177a9cb410ff61f20015ad"
unfolding push_zeros length_bytes bit_len_of pad_message block_words extend_words round rounds_over
    add_hash hash_block hash_blocks hash_bytes hex_encode sha256_hex hex_digit
sha256_abc = refl
