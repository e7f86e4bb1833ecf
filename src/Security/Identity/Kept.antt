-- ===== src/Security/Identity/Kept.antt =====
-- The identity of a device once it has been created: every later start loads it from the files.
use localsend_handheld.Prelude.{
  ◌≡◌, refl, ap, ◌∙◌, true, false, ◌&&◌, none, some, inl, inr, Bytes, codes, ◌++◌, beq, beq_refl,
  Bool-cases, Option-cases, ◌⊎◌,
}
use localsend_handheld.Prelude.Map.{Map, find, insert, has_key, find-insert}
use localsend_handheld.Prelude.Result.{Result, ok, err, out_of_fuel}
use localsend_handheld.Security.Pem.{certificate_fingerprint_from_pem}
use localsend_handheld.Security.Identity.{
  TlsIdentity, identity_with, identity_from_pem, Mbedtls, serial_of, generate_tls_identity,
  generation_calls, first_error, FileAccess, read_text_file, write_text_file, loaded_identity,
  write_identity, load_or_create_tls_identity,
}

-- The files hold the identity, and it can be loaded.
record IsStored (certificate_file key_file : Bytes) (identity : TlsIdentity) (disk : Map Bytes)
    : Type 0 where
  certificate : find certificate_file disk ≡ some identity.certificate_pem
  key : find key_file disk ≡ some identity.private_key_pem
  matches : identity_from_pem identity.certificate_pem identity.private_key_pem ≡ ok identity

from_pem :
    (certificate key : Bytes) (r : Result Bytes) (identity : TlsIdentity)
    → certificate_fingerprint_from_pem certificate ≡ r
    → identity_with certificate key r ≡ ok identity
    → identity_from_pem identity.certificate_pem identity.private_key_pem ≡ ok identity
unfolding identity_from_pem
from_pem certificate key (ok fingerprint) identity e h =
    let made : identity_from_pem certificate key ≡ identity_with certificate key (ok fingerprint) =
      rw (identity_from_pem, e) refl in
    cc (made, h)
from_pem certificate key (err what) identity e h = cc
from_pem certificate key out_of_fuel identity e h = cc

generated :
    (m : Mbedtls) (identity : TlsIdentity)
    → generate_tls_identity m ≡ ok identity
    → identity_from_pem identity.certificate_pem identity.private_key_pem ≡ ok identity
unfolding generate_tls_identity identity_from_pem
generated m identity h = elim (Option-cases (first_error (generation_calls m))) [
  | inl e ↦
      from_pem (m.certificate_pem (serial_of m)).1 m.key_pem.1 _ identity refl
        (rw (generate_tls_identity, e) at h)
  | inr (what, e) ↦ absurd (cc (rw (generate_tls_identity, e) at h))
]

-- Every text that is written to a file that opens is there in full.
abbrev pub TakesAll : FileAccess → Type 0
TakesAll access = (path text : Bytes) → access.taken path text ≡ text

module _ (access : FileAccess) (certificate_path key_path : Bytes) (whole : TakesAll access) where
  stored_loads :
      (m : Mbedtls) (identity : TlsIdentity) (disk : Map Bytes)
      → access.can_read certificate_path ≡ true
      → access.can_read key_path ≡ true
      → IsStored (access.file_of certificate_path) (access.file_of key_path) identity disk
      → load_or_create_tls_identity m access certificate_path key_path disk ≡ (ok identity, disk)
  unfolding load_or_create_tls_identity read_text_file
  stored_loads m identity disk rc rk h =
      rw (load_or_create_tls_identity, read_text_file, h.certificate, h.key, rc, rk)
        (ap (λ r. (r, disk)) (rw (h.certificate, h.key) h.matches))

  both_written :
      (identity : TlsIdentity) (disk : Map Bytes)
      → beq (access.file_of key_path) (access.file_of certificate_path) ≡ false
      → identity_from_pem identity.certificate_pem identity.private_key_pem ≡ ok identity
      → IsStored (access.file_of certificate_path) (access.file_of key_path) identity (
          insert
            (access.file_of key_path)
            identity.private_key_pem
            (insert (access.file_of certificate_path) identity.certificate_pem disk))
  both_written identity disk ne e =
      let key_file = access.file_of key_path in
      let file = access.file_of certificate_path in
      let first = insert file identity.certificate_pem disk in
      record {
        certificate =
            find-insert key_file file identity.private_key_pem first
            ∙ rw ne (find-insert file file identity.certificate_pem disk ∙ rw (beq_refl file) refl);
        key =
            find-insert key_file key_file identity.private_key_pem first
            ∙ rw (beq_refl key_file) refl;
        matches = e;
      }

  write_cases :
      (path text : Bytes) (disk : Map Bytes)
      → (write_text_file access path text disk ≡ (insert (access.file_of path) text disk, none))
        ⊎ ((what : Bytes) × (write_text_file access path text disk ≡ (disk, some what)))
  unfolding write_text_file
  write_cases path text disk = elim (Option-cases (access.parent_error path)) [
    | inr (what, e) ↦ inr (what, rw (write_text_file, e) refl)
    | inl e ↦ elim (Bool-cases (access.can_write path)) [
      | inr q ↦ inr (codes "failed to write " ++ path, rw (write_text_file, e, q) refl)
      | inl p ↦ inl (rw (write_text_file, e, p, whole path text) refl)
    ]
  ]

  -- The two writes: one throws, or both files are written.
  write_identity_cases :
      (identity : TlsIdentity) (disk : Map Bytes)
      → (write_identity access certificate_path key_path disk (ok identity) ≡ (
        ok identity,
        insert
            (access.file_of key_path)
            identity.private_key_pem
            (insert (access.file_of certificate_path) identity.certificate_pem disk),
      ))
        ⊎ ((what : Bytes) × ((write_identity access certificate_path key_path disk (ok identity)).0
              ≡ err what))
  write_identity_cases identity disk =
      let first = insert (access.file_of certificate_path) identity.certificate_pem disk in
      elim (write_cases certificate_path identity.certificate_pem disk) [
        | inr (what, e) ↦ inr (what, rw e refl)
        | inl e ↦ elim (write_cases key_path identity.private_key_pem first) [
          | inr (what, f) ↦ inr (what, rw e (rw f refl))
          | inl f ↦ inl (rw e (rw f refl))
        ]
      ]

  kept_written :
      (m later : Mbedtls) (disk : Map Bytes) (made : Result TlsIdentity) (identity : TlsIdentity)
      → access.can_read certificate_path ≡ true
      → access.can_read key_path ≡ true
      → beq (access.file_of key_path) (access.file_of certificate_path) ≡ false
      → generate_tls_identity m ≡ made
      → (write_identity access certificate_path key_path disk made).0 ≡ ok identity
      → load_or_create_tls_identity later access certificate_path key_path
          (write_identity access certificate_path key_path disk made).1
        ≡ (ok identity, (write_identity access certificate_path key_path disk made).1)
  kept_written m later disk (err what) identity rc rk ne e h = cc
  kept_written m later disk out_of_fuel identity rc rk ne e h = cc
  kept_written m later disk (ok new) identity rc rk ne e h = elim (write_identity_cases new disk) [
    | inr (what, f) ↦ absurd (cc (f, h))
    | inl f ↦
        let same : ok new ≡ ok identity = rw f at h in
        rw f (
          stored_loads later new _ rc rk (both_written new disk ne (generated m new e))
          ∙ ap
              (λ (r : Result TlsIdentity). (
                r,
                insert (access.file_of key_path) new.private_key_pem
                    (insert (access.file_of certificate_path) new.certificate_pem disk),
              ))
              same)
  ]

  both_there :
      (m : Mbedtls) (disk : Map Bytes)
      → (has_key (access.file_of certificate_path) disk && has_key (access.file_of key_path) disk)
        ≡ true
      → load_or_create_tls_identity m access certificate_path key_path disk ≡ (
        loaded_identity
            (read_text_file access disk certificate_path)
            (read_text_file access disk key_path),
        disk,
      )
  unfolding load_or_create_tls_identity
  both_there m disk e = rw (load_or_create_tls_identity, e) refl

  one_missing :
      (m : Mbedtls) (disk : Map Bytes)
      → (has_key (access.file_of certificate_path) disk && has_key (access.file_of key_path) disk)
        ≡ false
      → load_or_create_tls_identity m access certificate_path key_path disk
        ≡ write_identity access certificate_path key_path disk (generate_tls_identity m)
  unfolding load_or_create_tls_identity
  one_missing m disk e = rw (load_or_create_tls_identity, e) refl

  -- Once an identity has been loaded or created, whoever asks again gets the same one, whatever mbedTLS would
  -- generate by then, and no file changes: for paths of two different files that can be read, where a text that is
  -- written to a file that opens is there in full.
  pub load_or_create_tls_identity-kept :
      (m later : Mbedtls) (disk : Map Bytes) (identity : TlsIdentity)
      → access.can_read certificate_path ≡ true
      → access.can_read key_path ≡ true
      → beq (access.file_of key_path) (access.file_of certificate_path) ≡ false
      → (load_or_create_tls_identity m access certificate_path key_path disk).0 ≡ ok identity
      → load_or_create_tls_identity later access certificate_path key_path
          (load_or_create_tls_identity m access certificate_path key_path disk).1
        ≡ (ok identity, (load_or_create_tls_identity m access certificate_path key_path disk).1)
  load_or_create_tls_identity-kept m later disk identity rc rk ne h =
      elim (Bool-cases (
        has_key (access.file_of certificate_path) disk && has_key (access.file_of key_path) disk)) [
          | inl e ↦
              rw (both_there m disk e)
                (both_there later disk e ∙ ap (λ r. (r, disk)) (rw (both_there m disk e) at h))
          | inr e ↦
              rw (one_missing m disk e) (
                kept_written m later disk _ identity rc rk ne refl (rw (one_missing m disk e) at h))
        ]
