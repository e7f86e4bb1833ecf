-- ===== src/Http/Client/Ended.antt =====
-- How a send of http.cpp ends: its transfers, and its result.
use localsend_handheld.Prelude.{ℕ, ◌≡◌, List}
use localsend_handheld.Prelude.Result.{Result, ok}
use localsend_handheld.Protocol.{FileDto}
use localsend_handheld.Http.Client.{HttpResult, HttpCall}
use localsend_handheld.Http.Client.Offers.{Offer, SendFilesResult}
use localsend_handheld.Http.Client.Send.{Correspondent, Sent}
use localsend_handheld.Http.Client.Settled.{AllSettled}

-- What a send returns, rather than throws, with all of its transfers settled.
abbrev pub Settles : List Offer → Sent → Type 0
Settles all (sent, t) = ((result : SendFilesResult) × (sent ≡ ok result)) × AllSettled all t

-- No answer makes `parse_response` throw.
pub record IsParsed (w : Correspondent) : Type 0 where
  pub answer : HttpCall → HttpResult
  pub answered : (call : HttpCall) → w.request_raw call ≡ ok (answer call)
  pub upload : ℕ → HttpCall → FileDto → HttpResult
  pub uploaded :
      (i : ℕ) (call : HttpCall) (file : FileDto)
      → (w.post_file_raw i call file).0 ≡ ok (upload i call file)
