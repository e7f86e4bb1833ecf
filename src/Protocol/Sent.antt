-- ===== src/Protocol/Sent.antt =====
-- Messages from one peer to another: the text that one writes and the other reads (json.cpp, protocol.cpp).
use localsend_handheld.Prelude.{◌^◌, ◌<◌, ◌≡◌, ap, ◌∙◌, [], ◌∷◌, Bytes}
use localsend_handheld.Prelude.Int.{ℤ, int64_of_uint64}
use localsend_handheld.Prelude.Map.{Map, IsOrdered, AllValues}
use localsend_handheld.Prelude.Result.{Result, ok, ◌>>=◌}
use localsend_handheld.Json.{Numbers, Json, object, of_map}
use localsend_handheld.Json.Parser.{parse}
use localsend_handheld.Json.Dump.{dump}
use localsend_handheld.Json.Exact.{IsExact}
use localsend_handheld.Json.Whole.{parse-dump}
use localsend_handheld.Json.Members.{
  Writable, Writable-insert, Writable-object, put_string, put_bool, put_number,
}
use localsend_handheld.Protocol.{
  InfoDto, InfoRegisterDto, MulticastDto, FileDto, PrepareUploadRequestDto,
  PrepareUploadResponseDto, device_type_to_string, protocol_type_to_string,
}
use localsend_handheld.Protocol.Dto.{
  info_members, register_members, info_register_from_json, multicast_members, multicast_from_json,
  file_members, put_if_not_empty, sent_type, put_files, put_tokens, request_members,
  response_members, prepare_upload_request_from_json, prepare_upload_response_from_json,
}
use localsend_handheld.Protocol.DtoRoundTrip.{
  IsInt, Survives, info_register_from_json-register_members, multicast_from_json-multicast_members,
}
use localsend_handheld.Protocol.Request.{
  IsSent, arriving_request, prepare_upload_request_from_json-request_members,
  prepare_upload_response_from_json-response_members,
}

module _ (n : Numbers) where
  -- `to_json(dto).dump()`
  unfoldable pub write : Map (Json n.Number) → Bytes
  write m = dump n (object (of_map m))

  -- `..._from_json(Json::parse(text))`
  unfoldable pub read : {A : Type 0} → (Json n.Number → Result A) → Bytes → Result A
  read from_json text = do json ← parse n text; from_json json

  -- A number that is written as an integer and comes back.
  abbrev pub IsSafe : ℤ → Type 0
  IsSafe x = IsExact n (n.of_int64 x) × Survives n x

  abbrev pub IsSafeFile : FileDto → Type 0
  IsSafeFile dto = (dto.size < 2 ^ 64) × IsSafe (int64_of_uint64 dto.size)

  put_given :
      (k s : Bytes) (m : Map (Json n.Number)) → Writable n m → Writable n (put_if_not_empty k s m)
  unfolding put_if_not_empty
  put_given k [] m h = h
  put_given k (c ∷ s) m h = put_string n k (c ∷ s) m h

  info-Writable : (dto : InfoDto) → Writable n (info_members dto)
  unfolding info_members
  info-Writable dto = put_bool n _ dto.download _ (
      put_string n _ dto.fingerprint _ (
        put_string n _ (device_type_to_string dto.device_type) _ (
          put_string n _ dto.device_model _
            (put_string n _ dto.version _ (put_string n _ dto.alias [] (tt, tt))))))

  register-Writable :
      (dto : InfoRegisterDto)
      → IsExact n (n.of_int64 dto.port)
      → Writable n (register_members n dto)
  unfolding register_members
  register-Writable dto e =
      put_string n _ (protocol_type_to_string dto.protocol) _
        (put_number n _ dto.port _ e (info-Writable dto.info))

  multicast-Writable :
      (dto : MulticastDto) → IsExact n (n.of_int64 dto.port) → Writable n (multicast_members n dto)
  unfolding multicast_members
  multicast-Writable dto e =
      put_bool n _ dto.announce _ (put_bool n _ dto.announce _ (register-Writable dto.register e))

  file-Writable :
      (dto : FileDto)
      → IsExact n (n.of_int64 (int64_of_uint64 dto.size))
      → Writable n (file_members n dto)
  unfolding file_members
  file-Writable dto e = put_given _ dto.preview _ (
      put_given _ dto.hash _ (
        put_string n _ (sent_type n dto) _ (
          put_number n _ (int64_of_uint64 dto.size) _ e
            (put_string n _ dto.file_name _ (put_string n _ dto.id [] (tt, tt))))))

  files-Writable :
      (files : Map FileDto) (m : Map (Json n.Number))
      → AllValues IsSafeFile files
      → Writable n m
      → Writable n (put_files n files m)
  unfolding put_files
  files-Writable [] m p h = h
  files-Writable ((k, dto) ∷ files) m p h = files-Writable files _ p.1 (
      Writable-insert n k (object (of_map (file_members n dto))) m
        (Writable-object n _ (file-Writable dto p.0.1.0)) h)

  tokens-Writable :
      (tokens : Map Bytes) (m : Map (Json n.Number))
      → Writable n m
      → Writable n (put_tokens n tokens m)
  unfolding put_tokens
  tokens-Writable [] m h = h
  tokens-Writable ((k, token) ∷ tokens) m h = tokens-Writable tokens _ (put_string n k token m h)

  request-Writable :
      (dto : PrepareUploadRequestDto)
      → IsExact n (n.of_int64 dto.info.port)
      → AllValues IsSafeFile dto.files
      → Writable n (request_members n dto)
  unfolding request_members
  request-Writable dto e p =
      Writable-insert n _ (object (of_map (put_files n dto.files []))) _
        (Writable-object n _ (files-Writable dto.files [] p (tt, tt)))
        (Writable-insert n _ (object (of_map (register_members n dto.info))) []
          (Writable-object n _ (register-Writable dto.info e)) (tt, tt))

  response-Writable : (dto : PrepareUploadResponseDto) → Writable n (response_members n dto)
  unfolding response_members
  response-Writable dto =
      Writable-insert n _ (object (of_map (put_tokens n dto.files []))) _
        (Writable-object n _ (tokens-Writable dto.files [] (tt, tt)))
        (put_string n _ dto.session_id [] (tt, tt))

  read-write :
      {A : Type 0} (from_json : Json n.Number → Result A) (m : Map (Json n.Number)) (r : Result A)
      → Writable n m
      → from_json (object (of_map m)) ≡ r
      → read from_json (write m) ≡ r
  unfolding read write
  read-write from_json m r h e =
      ap (λ p. p >>= from_json) (parse-dump n (object (of_map m)) (Writable-object n m h)) ∙ e

  files-IsSent : (files : Map FileDto) → AllValues IsSafeFile files → AllValues (IsSent n) files
  files-IsSent [] p = tt
  files-IsSent ((k, dto) ∷ files) p = ((p.0.0, p.0.1.1), files-IsSent files p.1)

  -- A request to send that one peer writes as JSON is read by the other with the same sender, and with the same
  -- files under the same keys, each with its media type filled in: for a port that is an `int`, sizes of 64
  -- bits, files in the order of their keys, and a port and sizes that survive as JSON numbers.
  pub read-request :
      (dto : PrepareUploadRequestDto)
      → IsInt dto.info.port
      → IsSafe dto.info.port
      → IsOrdered dto.files
      → AllValues IsSafeFile dto.files
      → read (prepare_upload_request_from_json n) (write (request_members n dto))
        ≡ ok (arriving_request n dto)
  read-request dto i k h p =
      read-write (prepare_upload_request_from_json n) (request_members n dto) _
        (request-Writable dto k.0 p)
        (prepare_upload_request_from_json-request_members n dto i k.1 h (files-IsSent dto.files p))

  -- The answer to such a request, a session and the tokens of the files in the order of their keys, is read as
  -- it was written.
  read-response :
      (dto : PrepareUploadResponseDto)
      → IsOrdered dto.files
      → read (prepare_upload_response_from_json n) (write (response_members n dto)) ≡ ok dto
  read-response dto h =
      read-write (prepare_upload_response_from_json n) (response_members n dto) _
        (response-Writable dto) (prepare_upload_response_from_json-response_members n dto h)

  -- An announcement, and with it the registration it holds, is read as it was written, for a port that is
  -- an `int` and survives as a JSON number.
  pub read-announcement :
      (dto : MulticastDto)
      → IsInt dto.port
      → IsSafe dto.port
      → (read (multicast_from_json n) (write (multicast_members n dto)) ≡ ok dto)
        × (read (info_register_from_json n) (write (register_members n dto.register))
            ≡ ok dto.register)
  read-announcement dto i k = (
    read-write (multicast_from_json n) (multicast_members n dto) _ (multicast-Writable dto k.0)
        (multicast_from_json-multicast_members n dto i k.1),
    read-write (info_register_from_json n) (register_members n dto.register) _
        (register-Writable dto.register k.0)
        (info_register_from_json-register_members n dto.register i k.1),
  )
