-- ===== src/Examples/Transfers.antt =====
-- Examples for the model of transfer.cpp.
use localsend_handheld.Prelude.{◌≡◌, refl, true, [], ◌∷◌, some, codes, arith}
use localsend_handheld.Transfer
use localsend_handheld.Transfer.{
  TransferStore, empty_store, send, receive, preparing, completed, new_item, add, set_status,
  set_progress, write_progress,
}
use localsend_handheld.Transfer.Lookup
use localsend_handheld.Transfer.Lookup.{adds, sets_progress, cancels, clears_completed, spec_step}
use localsend_handheld.Transfer.Invariant.{IsValid, run, run-IsValid}
use localsend_handheld.Transfer.Progress.{Advance, set_progress-Advance}

abbrev photo : Transfer.TransferItem
photo = new_item 7 1 receive (codes "a.png") 10 (codes "Phone") (codes "10.0.0.2")

abbrev one_transfer : TransferStore
one_transfer = record { items = photo ∷ []; next_id = 2 }

one_transfer-IsValid : IsValid one_transfer
one_transfer-IsValid = record {
  ids = (omega arith, omega arith);
  sound = ((omega arith, λ e. cc), tt);
  next_fits = omega arith;
}

add_photo :
    add 7 receive (codes "a.png") 10 (codes "Phone") (codes "10.0.0.2") empty_store
    ≡ (1, one_transfer)
unfolding add
add_photo = refl

get-step_example :
    Transfer.get 1 (Lookup.step 9 one_transfer (sets_progress 1 10))
    ≡ spec_step 9 2 (λ k. Transfer.get k one_transfer) (sets_progress 1 10) 1
get-step_example = Lookup.get-step 9 1 one_transfer (sets_progress 1 10) 1 one_transfer-IsValid.ids

run-IsValid_example : IsValid (
    run one_transfer
      ((8, adds send (codes "b") 3 [] []) ∷ (9, sets_progress 1 10) ∷ (9, cancels 2) ∷ []))
run-IsValid_example =
    run-IsValid one_transfer
      ((8, adds send (codes "b") 3 [] []) ∷ (9, sets_progress 1 10) ∷ (9, cancels 2) ∷ [])
      one_transfer-IsValid (omega arith)

set_progress-Advance_example :
    let (t, found) = set_progress 9 1 25 one_transfer in
    (found ≡ true)
    × (y : Transfer.TransferItem) × (Transfer.get 1 t ≡ some y)
    × Advance 10 25 photo.status y.status
    × (y.bytes_transferred ≡ 10)
    × (y.updated_at ≡ 9)
unfolding Transfer.get Transfer.find_locked
set_progress-Advance_example = set_progress-Advance 9 1 25 one_transfer photo refl
