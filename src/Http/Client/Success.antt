-- ===== src/Http/Client/Success.antt =====
-- What it means that a send of http.cpp succeeds.
use localsend_handheld.Prelude.{
  ℕ, ◌+◌, ◌≡◌, ◌⊎◌, Bool, true, false, List, [], ◌∷◌, Option, none, some, Bytes, codes,
}
use localsend_handheld.Prelude.Map.{find}
use localsend_handheld.Prelude.Result.{Result, ok, err, out_of_fuel}
use localsend_handheld.Protocol.{Device, InfoRegisterDto, PrepareUploadResponseDto}
use localsend_handheld.Http.Client.{HttpResult, has_status, call_to, target_uses_v2_api}
use localsend_handheld.Http.Client.Offers.{Offer, SendFilesResult, CheckedSources}
use localsend_handheld.Http.Client.Send.{Correspondent, upload_path, read_response, prepare_call}

-- The send returned, and said that it went well.
abbrev pub reports_ok : Result SendFilesResult → Bool
reports_ok (ok result) = result.is_ok
reports_ok (err what) = false
reports_ok out_of_fuel = false

module _ (w : Correspondent) (target : Device) (v2 : Bool) where
  -- The upload in round `i` was made and answered with 200.
  abbrev pub IsAnswered : ℕ → PrepareUploadResponseDto → Offer → Option Bytes → Type 0
  IsAnswered i response offer none = Unit
  IsAnswered i response offer (some token) =
      (offer.can_open ≡ true)
      × (answer : HttpResult) × ((w.post_file_raw i
            (call_to target (codes "POST") (upload_path w v2 response.session_id offer.file token)
              [])
            offer.file).0
          ≡ ok answer)
      × (has_status 200 answer ≡ true)

  -- Every file that the peer gave a token was sent, under its token, and none was cancelled.
  abbrev pub AreUploaded : PrepareUploadResponseDto → ℕ → List Offer → Type 0
  AreUploaded response i [] = Unit
  AreUploaded response i (offer ∷ offers) =
      (w.cancel_before i ≡ false)
      × IsAnswered i response offer (find offer.file.id response.files)
      × AreUploaded response (i + 1) offers

  -- The peer had all files, or gave tokens for some, which were all sent.
  abbrev pub IsDelivered : HttpResult → List Offer → Type 0
  IsDelivered prepared offers =
      (has_status 204 prepared ≡ true)
      ⊎ ((response : PrepareUploadResponseDto) × (read_response w v2 prepared.body ≡ ok response)
          × AreUploaded response 0 offers)

module _ (w : Correspondent) where
  -- The send as a whole, for the device that `resolve_send_target` gives.
  pub record IsComplete (target : Device) (self : InfoRegisterDto) (checked : CheckedSources)
      : Type 0 where
    pub readable : checked.failure ≡ none
    pub v2 : Bool
    pub api : target_uses_v2_api w.numbers w.request_raw target ≡ ok v2
    pub prepared : HttpResult
    pub answered : w.request_raw (prepare_call w target v2 self checked.offers) ≡ ok prepared
    pub delivered : IsDelivered w target v2 prepared checked.offers
