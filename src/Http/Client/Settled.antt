-- ===== src/Http/Client/Settled.antt =====
-- No transfer of a send of http.cpp is left open, whatever the peer answers and whenever the user cancels.
use mathlib.Core.Option
use localsend_handheld.Prelude.{
  ℕ, ◌≡◌, refl, Bool, true, ◌||◌, List, [], ◌∷◌, ◌++◌, Option, none, some, arith, ◌==◌,
  if◌then◌else◌, Bytes,
}
use localsend_handheld.Transfer.{
  TransferItem, TransferStore, is_finished, get, set_status, set_progress, fail, cancel, completed,
  write_status, write_progress, write_failure, write_cancelled,
}
use localsend_handheld.Transfer.Lookup.{with_item-get}
use localsend_handheld.Http.Client.Offers.{
  Source, Offer, on_sent, on_transfers, completes, fails, report_upload,
}

abbrev finished_or_gone : Option TransferItem → Bool
finished_or_gone none = true
finished_or_gone (some item) = is_finished item.status

-- The transfer, if the send has one, is neither pending nor being prepared nor running.
abbrev pub is_settled : ℕ → Option TransferStore → Bool
is_settled id none = true
is_settled id (some t) = id == 0 || finished_or_gone (get id t)

abbrev pub AllSettled : List Offer → Option TransferStore → Type 0
AllSettled [] t = Unit
AllSettled (offer ∷ offers) t = (is_settled offer.transfer_id t ≡ true) × AllSettled offers t

abbrev pub AllOpen : List Source → Type 0
AllOpen [] = Unit
AllOpen (source ∷ sources) =
    (source.is_readable ≡ true) × (source.can_open ≡ true) × AllOpen sources

abbrev pub AllOffersOpen : List Offer → Type 0
AllOffersOpen [] = Unit
AllOffersOpen (offer ∷ offers) = (offer.can_open ≡ true) × AllOffersOpen offers

-- A method of the store that changes an item by `g`.
abbrev pub Writes :
    (ℕ → TransferStore → TransferStore × Bool) → (TransferItem → TransferItem) → Type 0
Writes f g =
    (id j : ℕ) (t : TransferStore)
    → get j (f id t).0 ≡ (if id == j then Option.map g (get j t) else get j t)

abbrev pub Keeps : (TransferItem → TransferItem) → Type 0
Keeps g = (x : TransferItem) → is_finished x.status ≡ true → is_finished (g x).status ≡ true

abbrev pub Ends : (TransferItem → TransferItem) → Type 0
Ends g = (x : TransferItem) → is_finished (g x).status ≡ true

finished_or_gone-map-Keeps :
    (g : TransferItem → TransferItem) (x : Option TransferItem)
    → Keeps g
    → finished_or_gone x ≡ true
    → finished_or_gone (Option.map g x) ≡ true
finished_or_gone-map-Keeps g none k h = refl
finished_or_gone-map-Keeps g (some x) k h = k x h

finished_or_gone-map-Ends :
    (g : TransferItem → TransferItem) (x : Option TransferItem)
    → Ends g
    → finished_or_gone (Option.map g x) ≡ true
finished_or_gone-map-Ends g none e = refl
finished_or_gone-map-Ends g (some x) e = e x

module _ (f : ℕ → TransferStore → TransferStore × Bool) (g : TransferItem → TransferItem)
    (writes : Writes f g) where
  pub on_sent-Keeps :
      (id j : ℕ) (t : Option TransferStore)
      → Keeps g
      → is_settled j t ≡ true
      → is_settled j (on_sent f id t) ≡ true
  unfolding on_sent
  on_sent-Keeps id j none k h = refl
  on_sent-Keeps id j (some t) k h =
      ground (arith, writes id j t, finished_or_gone-map-Keeps g (get j t) k)

  pub on_sent-Ends :
      (id : ℕ) (t : Option TransferStore) → Ends g → is_settled id (on_sent f id t) ≡ true
  unfolding on_sent
  on_sent-Ends id none e = refl
  on_sent-Ends id (some t) e =
      ground (arith, writes id id t, finished_or_gone-map-Ends g (get id t) e)

  pub on_sent-AllSettled :
      (id : ℕ) (offers : List Offer) (t : Option TransferStore)
      → Keeps g
      → AllSettled offers t
      → AllSettled offers (on_sent f id t)
  on_sent-AllSettled id [] t k h = tt
  on_sent-AllSettled id (offer ∷ offers) t k h =
      (on_sent-Keeps id offer.transfer_id t k h.0, on_sent-AllSettled id offers t k h.1)

  pub on_transfers-Keeps :
      (offers : List Offer) (j : ℕ) (t : Option TransferStore)
      → Keeps g
      → is_settled j t ≡ true
      → is_settled j (on_transfers f offers t) ≡ true
  unfolding on_transfers
  on_transfers-Keeps [] j t k h = h
  on_transfers-Keeps (offer ∷ offers) j t k h =
      on_transfers-Keeps offers j _ k (on_sent-Keeps offer.transfer_id j t k h)

  pub on_transfers-AllSettled :
      (offers : List Offer) (t : Option TransferStore)
      → Ends g
      → AllSettled offers (on_transfers f offers t)
  unfolding on_transfers
  on_transfers-AllSettled [] t e = tt
  on_transfers-AllSettled (offer ∷ offers) t e = (
    on_transfers-Keeps offers offer.transfer_id _ (λ x h. e x) (on_sent-Ends offer.transfer_id t e),
    on_transfers-AllSettled offers _ e,
  )

pub completes-Writes : (now : ℕ) → Writes (completes now) (write_status now completed)
completes-Writes now id j t =
    unfold set_status in
    with_item-get (write_status now completed) (λ x. unfold write_status in refl) id j t

pub completes-Ends : (now : ℕ) → Ends (write_status now completed)
completes-Ends now x = unfold write_status in refl

pub fails-Writes :
    (now : ℕ) (message : Bytes) → Writes (fails now message) (write_failure now message)
fails-Writes now message id j t =
    unfold fail in
    with_item-get (write_failure now message) (λ x. unfold write_failure in refl) id j t

pub fails-Ends : (now : ℕ) (message : Bytes) → Ends (write_failure now message)
fails-Ends now message x = unfold write_failure in refl

pub cancel-Writes : (now : ℕ) → Writes (cancel now) (write_cancelled now)
cancel-Writes now id j t =
    unfold cancel in
    with_item-get (write_cancelled now) (λ x. unfold write_cancelled in refl) id j t

pub cancel-Ends : (now : ℕ) → Ends (write_cancelled now)
cancel-Ends now x = unfold write_cancelled in refl

progress-Writes :
    (now bytes : ℕ) → Writes (λ i s. set_progress now i bytes s) (write_progress now bytes)
progress-Writes now bytes id j t =
    unfold set_progress in
    with_item-get (write_progress now bytes) (λ x. unfold write_progress in ground arith) id j t

progress-Keeps : (now bytes : ℕ) → Keeps (write_progress now bytes)
progress-Keeps now bytes x h = unfold write_progress in ground arith

pub report_upload-AllSettled :
    (now id : ℕ) (progress : List ℕ) (offers : List Offer) (t : Option TransferStore)
    → AllSettled offers t
    → AllSettled offers (report_upload now id progress t)
unfolding report_upload
report_upload-AllSettled now id [] offers t h = h
report_upload-AllSettled now id (bytes ∷ more) offers t h =
    report_upload-AllSettled now id more offers _
      (on_sent-AllSettled _ _ (progress-Writes now bytes) id offers t (progress-Keeps now bytes) h)

pub AllSettled-append_one :
    (offers : List Offer) (offer : Offer) (t : Option TransferStore)
    → AllSettled offers t
    → is_settled offer.transfer_id t ≡ true
    → AllSettled (offers ++ offer ∷ []) t
AllSettled-append_one [] offer t h e = (e, tt)
AllSettled-append_one (o ∷ offers) offer t h e = (h.0, AllSettled-append_one offers offer t h.1 e)
