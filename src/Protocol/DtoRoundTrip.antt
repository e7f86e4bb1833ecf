-- ===== src/Protocol/DtoRoundTrip.antt =====
-- What protocol.cpp reads from the JSON forms that it writes.
use localsend_handheld.Prelude.{
  ◌%◌, ◌^◌, ◌<◌, ◌≡◌, refl, ap, ◌∙◌, false, [], ◌∷◌, ◌⊎◌, is_empty, inl, inr, arith, Bytes, beq,
  blt,
}
use localsend_handheld.Prelude.Int.{
  ℤ, pos, negsuc, int64_of_uint64, uint64_of_int64, int_of_int64, uint64_of_int64-int64_of_uint64,
}
use localsend_handheld.Prelude.Map.{find, insert}
use localsend_handheld.Prelude.Result.{ok}
use localsend_handheld.Json.{Numbers, object, of_map, at, as_int64}
use localsend_handheld.Protocol.{InfoDto, InfoRegisterDto, MulticastDto, FileDto, http}
use localsend_handheld.Protocol.Words.{from_string-to_string}
use localsend_handheld.Protocol.Dto.{
  optional_string, optional_bool, optional_int, info_members, info_from_json, register_members,
  info_register_from_json, multicast_members, multicast_from_json, file_members, file_from_json,
  put_if_not_empty, sent_type,
}

-- The numbers of `int`.
abbrev pub IsInt : ℤ → Type 0
IsInt (pos a) = a < 2 ^ 31
IsInt (negsuc a) = a < 2 ^ 31

pub IsInt-int_of_int64 : (x : ℤ) → IsInt x → int_of_int64 x ≡ x
IsInt-int_of_int64 (pos a) h = let same : a % 2 ^ 32 ≡ a = omega arith in ground arith
IsInt-int_of_int64 (negsuc a) h = let same : a % 2 ^ 32 ≡ a = omega arith in ground arith

-- A `std::int64_t` that comes back from `double`.
abbrev pub Survives : Numbers → ℤ → Type 0
Survives n x = n.to_int64 (n.of_int64 x) ≡ x

empty_or_not : (s : Bytes) → (s ≡ []) ⊎ (is_empty s ≡ false)
empty_or_not [] = inl refl
empty_or_not (c ∷ s) = inr refl

pub info_from_json-info_members :
    (A : Type 0) (dto : InfoDto)
    → info_from_json {A = A} (object (of_map (info_members {A = A} dto))) ≡ ok dto
unfolding info_from_json info_members optional_string optional_bool at find insert beq blt
info_from_json-info_members A dto =
    let word = (from_string-to_string dto.device_type http).0 in rw word refl

module _ (n : Numbers) where
  pub info_register_from_json-register_members :
      (dto : InfoRegisterDto)
      → IsInt dto.port
      → Survives n dto.port
      → info_register_from_json n (object (of_map (register_members n dto))) ≡ ok dto
  unfolding info_register_from_json info_from_json register_members info_members optional_int
      optional_string optional_bool at as_int64 find insert beq blt
  info_register_from_json-register_members dto h k =
      let word = from_string-to_string dto.device_type dto.protocol in
      let port = ap int_of_int64 k ∙ IsInt-int_of_int64 dto.port h in rw (word.0, word.1, port) refl

  pub multicast_from_json-multicast_members :
      (dto : MulticastDto)
      → IsInt dto.port
      → Survives n dto.port
      → multicast_from_json n (object (of_map (multicast_members n dto))) ≡ ok dto
  unfolding multicast_from_json multicast_members info_register_from_json info_from_json
      register_members info_members optional_int optional_string optional_bool at as_int64 find
      insert beq blt
  multicast_from_json-multicast_members dto h k =
      let word = from_string-to_string dto.device_type dto.protocol in
      let port = ap int_of_int64 k ∙ IsInt-int_of_int64 dto.port h in rw (word.0, word.1, port) refl

  -- A file as it arrives: with its media type.
  abbrev pub arriving : FileDto → FileDto
  arriving dto = record dto { file_type = sent_type n dto }

  pub file_from_json-file_members :
      (dto : FileDto)
      → dto.size < 2 ^ 64
      → Survives n (int64_of_uint64 dto.size)
      → file_from_json n (object (of_map (file_members n dto))) ≡ ok (arriving dto)
  unfolding file_from_json file_members put_if_not_empty optional_string at as_int64 find insert beq
      blt
  file_from_json-file_members dto h k =
      let size = ap uint64_of_int64 k ∙ uint64_of_int64-int64_of_uint64 dto.size h in
      elim (empty_or_not dto.hash) [
        | inl e ↦ elim (empty_or_not dto.preview) [
          | inl f ↦ rw (e, f, size) refl
          | inr f ↦ rw (e, f, size) refl
        ]
        | inr e ↦ elim (empty_or_not dto.preview) [
          | inl f ↦ rw (e, f, size) refl
          | inr f ↦ rw (e, f, size) refl
        ]
      ]
