-- ===== src/Http/Client/Offers.antt =====
-- `send_files_http_detailed` of http.cpp: its results, its files with their transfers, and what its lambdas do.
use localsend_handheld.Prelude.{
  ℕ, ◌+◌, Bool, true, false, not, ◌&&◌, ◌||◌, List, [], ◌∷◌, ◌++◌, Option, none, some, ltb, ◌==◌,
  if◌then◌else◌, Bytes, codes, is_empty, length, take,
}
use localsend_handheld.Prelude.Decimal.{to_string}
use localsend_handheld.Prelude.Map.{Map, emplace}
use localsend_handheld.Protocol.{Device, FileDto, mime_from_filename}
use localsend_handheld.Transfer.{
  TransferStore, add, send, preparing, completed, set_status, set_progress, fail,
}
use localsend_handheld.Http.Client.{HttpResult, has_status}

pub record SendFilesResult : Type 0 where
  pub is_ok : Bool
  pub is_cancelled : Bool
  pub error : Bytes

abbrev pub result_error : Bytes → SendFilesResult
result_error message = record { is_ok = false; is_cancelled = false; error = message }

abbrev pub result_cancelled : SendFilesResult
result_cancelled = record { is_ok = false; is_cancelled = true; error = codes "send cancelled" }

abbrev pub result_ok : SendFilesResult
result_ok = record { is_ok = true; is_cancelled = false; error = [] }

-- A file to send: its name, whether it opens when it is checked and when it is sent, and its size.
pub record Source : Type 0 where
  pub file_name : Bytes
  pub is_readable : Bool
  pub size : ℕ
  pub can_open : Bool

-- A file with its transfer: an entry of `files`, of `transfer_ids` and of `file_paths`.
pub record Offer : Type 0 where
  pub file : FileDto
  pub transfer_id : ℕ
  pub can_open : Bool

abbrev clean : Bytes → Bytes
clean [] = []
clean (c ∷ s) = (if c == 13 || c == 10 || c == 9 then b' ' else c) ∷ clean s

unfoldable pub compact_body : Bytes → Bytes
compact_body body =
    if ltb 120 (length body) then take 120 (clean body) ++ codes "..." else clean body

unfoldable pub http_failure_detail : HttpResult → Bytes
http_failure_detail response =
    if not (is_empty response.error)
    then response.error
    else if has_status 0 response && is_empty response.body
    then codes "connection failed or no response"
    else compact_body response.body

-- A write to the store, if there is one, for a transfer that it has.
unfoldable pub on_sent :
    (ℕ → TransferStore → TransferStore × Bool) → ℕ → Option TransferStore → Option TransferStore
on_sent f id none = none
on_sent f id (some t) = if id == 0 then some t else some (f id t).0

-- The same for all transfers of a send: `fail_transfers`, `cancel_transfers`, and the loop for status 204.
unfoldable pub on_transfers :
    (ℕ → TransferStore → TransferStore × Bool)
    → List Offer
    → Option TransferStore
    → Option TransferStore
on_transfers f [] t = t
on_transfers f (offer ∷ offers) t = on_transfers f offers (on_sent f offer.transfer_id t)

abbrev pub completes : ℕ → ℕ → TransferStore → TransferStore × Bool
completes now id t = set_status now id completed t

abbrev pub fails : ℕ → Bytes → ℕ → TransferStore → TransferStore × Bool
fails now message id t = fail now id message t

-- The progress of an upload, one call of `set_progress` after the other.
unfoldable pub report_upload : ℕ → ℕ → List ℕ → Option TransferStore → Option TransferStore
report_upload now id [] t = t
report_upload now id (bytes ∷ more) t =
    report_upload now id more (on_sent (λ i s. set_progress now i bytes s) id t)

abbrev pub add_send : ℕ → Device → FileDto → Option TransferStore → ℕ × Option TransferStore
add_send now target file none = (0, none)
add_send now target file (some t) =
    let (id, added) = add now send file.file_name file.size target.alias target.ip t in
    (id, some (set_status now id preparing added).0)

abbrev pub file_of : ℕ → Source → FileDto
file_of i source = record {
  id = to_string i;
  file_name = source.file_name;
  size = source.size;
  file_type = mime_from_filename source.file_name;
  hash = [];
  preview = [];
}

-- What the loop over the files leaves: the offers, the store, and the error that ended it.
pub record CheckedSources : Type 0 where
  pub offers : List Offer
  pub store : Option TransferStore
  pub failure : Option Bytes

unfoldable pub check_sources : ℕ → Device → ℕ → List Source → Option TransferStore → CheckedSources
check_sources now target i [] t = record { offers = []; store = t; failure = none }
check_sources now target i (source ∷ sources) t =
    let added = add_send now target (file_of i source) t in
    let rest = check_sources now target (i + 1) sources added.1 in
    if not source.is_readable
    then (record {
      offers = [];
      store = t;
      failure = some (codes "source file is not readable: " ++ source.file_name);
    })
    else (record rest {
      offers =
          (record { file = file_of i source; transfer_id = added.0; can_open = source.can_open })
          ∷ rest.offers;
    })

unfoldable pub request_files : List Offer → Map FileDto → Map FileDto
request_files [] files = files
request_files (offer ∷ offers) files = request_files offers (emplace offer.file.id offer.file files)
