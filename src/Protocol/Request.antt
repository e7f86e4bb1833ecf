-- ===== src/Protocol/Request.antt =====
-- The JSON forms of a request to send and of its answer, read back (protocol.cpp).
use mathlib.Core.List.{append_assoc, append-nil}
use localsend_handheld.Prelude.{
  ◌^◌, ◌<◌, ◌≡◌, refl, ap, sym, subst, ◌∙◌, [], ◌∷◌, ◌++◌, Bytes, beq, blt,
}
use localsend_handheld.Prelude.Int.{int64_of_uint64}
use localsend_handheld.Prelude.Map.{
  Map, find, insert, emplace, IsOrdered, insert_ordered, AllValues, map_values,
  IsOrdered-map_values,
}
use localsend_handheld.Prelude.Map.Order.{emplace_ordered}
use localsend_handheld.Prelude.Result.{ok, ◌>>=◌}
use localsend_handheld.Json.{Numbers, Json, string, object, of_map, to_map, at}
use localsend_handheld.Json.Members.{to_map-of_map}
use localsend_handheld.Protocol.{FileDto, PrepareUploadRequestDto, PrepareUploadResponseDto}
use localsend_handheld.Protocol.Dto.{
  file_members, put_files, put_tokens, read_files, read_tokens, request_members, response_members,
  prepare_upload_request_from_json, prepare_upload_response_from_json,
}
use localsend_handheld.Protocol.DtoRoundTrip.{
  IsInt, Survives, arriving, file_from_json-file_members, info_register_from_json-register_members,
}

module _ (n : Numbers) where
  abbrev pub file_json : FileDto → Json n.Number
  file_json dto = object (of_map (file_members n dto))

  abbrev pub token_json : Bytes → Json n.Number
  token_json token = string token

  -- A size that the numbers of JSON hold.
  abbrev pub IsSent : FileDto → Type 0
  IsSent dto = (dto.size < 2 ^ 64) × Survives n (int64_of_uint64 dto.size)

  put_files_lem :
      (files : Map FileDto) (m : Map (Json n.Number))
      → IsOrdered (m ++ map_values file_json files)
      → put_files n files m ≡ m ++ map_values file_json files
  unfolding put_files
  put_files_lem [] m h = sym (append-nil m)
  put_files_lem ((k, dto) ∷ files) m h =
      let last = insert_ordered m k (file_json dto) (map_values file_json files) h in
      let whole = append_assoc m ((k, file_json dto) ∷ []) (map_values file_json files) in
      ap (put_files n files) last
      ∙ put_files_lem files (m ++ (k, file_json dto) ∷ []) (subst IsOrdered (sym whole) h)
      ∙ whole

  put_tokens_lem :
      (tokens : Map Bytes) (m : Map (Json n.Number))
      → IsOrdered (m ++ map_values token_json tokens)
      → put_tokens n tokens m ≡ m ++ map_values token_json tokens
  unfolding put_tokens
  put_tokens_lem [] m h = sym (append-nil m)
  put_tokens_lem ((k, token) ∷ tokens) m h =
      let last = insert_ordered m k (token_json token) (map_values token_json tokens) h in
      let whole = append_assoc m ((k, token_json token) ∷ []) (map_values token_json tokens) in
      ap (put_tokens n tokens) last
      ∙ put_tokens_lem tokens (m ++ (k, token_json token) ∷ []) (subst IsOrdered (sym whole) h)
      ∙ whole

  read_files_lem :
      (files acc : Map FileDto)
      → AllValues IsSent files
      → IsOrdered (acc ++ map_values (arriving n) files)
      → read_files n (map_values file_json files) acc ≡ ok (acc ++ map_values (arriving n) files)
  unfolding read_files
  read_files_lem [] acc p h = ap ok (sym (append-nil acc))
  read_files_lem ((k, dto) ∷ files) acc p h =
      let read = file_from_json-file_members n dto p.0.0 p.0.1 in
      let last = emplace_ordered acc k (arriving n dto) (map_values (arriving n) files) h in
      let whole = append_assoc acc ((k, arriving n dto) ∷ []) (map_values (arriving n) files) in
      ap (λ r. r >>= λ d. read_files n (map_values file_json files) (emplace k d acc)) read
      ∙ ap (read_files n (map_values file_json files)) last
      ∙ read_files_lem files (acc ++ (k, arriving n dto) ∷ []) p.1 (subst IsOrdered (sym whole) h)
      ∙ ap ok whole

  read_tokens_lem :
      (tokens acc : Map Bytes)
      → IsOrdered (acc ++ tokens)
      → read_tokens n (map_values token_json tokens) acc ≡ ok (acc ++ tokens)
  unfolding read_tokens
  read_tokens_lem [] acc h = ap ok (sym (append-nil acc))
  read_tokens_lem ((k, token) ∷ tokens) acc h =
      let last = emplace_ordered acc k token tokens h in
      let whole = append_assoc acc ((k, token) ∷ []) tokens in
      ap (read_tokens n (map_values token_json tokens)) last
      ∙ read_tokens_lem tokens (acc ++ (k, token) ∷ []) (subst IsOrdered (sym whole) h)
      ∙ ap ok whole

  -- The entries of `files`, as a request and as an answer have them.
  pub files_entries :
      (files : Map FileDto)
      → IsOrdered files
      → to_map (of_map (put_files n files [])) ≡ map_values file_json files
  files_entries files h =
      to_map-of_map (put_files n files [])
      ∙ put_files_lem files [] (IsOrdered-map_values file_json files h)

  pub tokens_entries :
      (tokens : Map Bytes)
      → IsOrdered tokens
      → to_map (of_map (put_tokens n tokens [])) ≡ map_values token_json tokens
  tokens_entries tokens h =
      to_map-of_map (put_tokens n tokens [])
      ∙ put_tokens_lem tokens [] (IsOrdered-map_values token_json tokens h)

  -- The request as it arrives.
  abbrev pub arriving_request : PrepareUploadRequestDto → PrepareUploadRequestDto
  arriving_request dto = record dto { files = map_values (arriving n) dto.files }

  pub prepare_upload_request_from_json-request_members :
      (dto : PrepareUploadRequestDto)
      → IsInt dto.info.port
      → Survives n dto.info.port
      → IsOrdered dto.files
      → AllValues IsSent dto.files
      → prepare_upload_request_from_json n (object (of_map (request_members n dto)))
        ≡ ok (arriving_request dto)
  unfolding prepare_upload_request_from_json request_members at find insert beq blt
  prepare_upload_request_from_json-request_members dto i k h p =
      let info = info_register_from_json-register_members n dto.info i k in
      let entries = files_entries dto.files h in
      let files = read_files_lem dto.files [] p (IsOrdered-map_values (arriving n) dto.files h) in
      rw (info, entries, files) refl

  pub prepare_upload_response_from_json-response_members :
      (dto : PrepareUploadResponseDto)
      → IsOrdered dto.files
      → prepare_upload_response_from_json n (object (of_map (response_members n dto))) ≡ ok dto
  unfolding prepare_upload_response_from_json response_members at find insert beq blt
  prepare_upload_response_from_json-response_members dto h =
      let entries = tokens_entries dto.files h in
      let files = read_tokens_lem dto.files [] h in rw (entries, files) refl
