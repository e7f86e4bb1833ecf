-- ===== src/Transfer/Invariant.antt =====
-- The invariant of the store of transfer.cpp, over every history of calls.
use localsend_handheld.Prelude.{
  ℕ, suc, ◌+◌, ◌%◌, ◌≤◌, ◌<◌, ◌≡◌, refl, Bool, List, [], ◌∷◌, ◌++◌, arith, ◌==◌, All, keep_if, inl,
  inr, Bool-cases, Option-cases, Bytes,
}
use localsend_handheld.Transfer.{
  TransferItem, TransferStore, TransferStatus, completed, find_locked, write_locked, with_item,
  write_status, write_progress, write_failure, write_cancelled, u64_mod,
}
use localsend_handheld.Transfer.Ids.{
  Ascending, Ascending-le, Ascending-append, Ascending-keep_if, Ascending-write_locked,
}
use localsend_handheld.Transfer.Lookup.{
  Call, adds, sets_status, sets_progress, fails, cancels, clears_completed, clears, step,
}

-- No item counts more bytes than its file has, and a completed item has no error.
abbrev pub IsSound : TransferItem → Type 0
IsSound item = (item.bytes_transferred ≤ item.size) × (item.status ≡ completed → item.error ≡ [])

pub record IsValid (s : TransferStore) : Type 0 where
  pub ids : Ascending 1 s.next_id s.items
  pub sound : All IsSound s.items
  pub next_fits : s.next_id < u64_mod

All-keep_if :
    (p : TransferItem → Bool) (items : List TransferItem)
    → All IsSound items
    → All IsSound (keep_if p items)
All-keep_if p [] h = tt
All-keep_if p (x ∷ items) h = elim (Bool-cases (p x)) [
  | inl e ↦ rw e (h.0, All-keep_if p items h.1)
  | inr e ↦ rw e (All-keep_if p items h.1)
]

All-append_one :
    (items : List TransferItem) (x : TransferItem)
    → All IsSound items
    → IsSound x
    → All IsSound (items ++ x ∷ [])
All-append_one [] x h p = (p, tt)
All-append_one (y ∷ items) x h p = (h.0, All-append_one items x h.1 p)

module _ (f : TransferItem → TransferItem) (same : (x : TransferItem) → (f x).id ≡ x.id)
    (keeps : (x : TransferItem) → IsSound x → IsSound (f x)) where
  All-write_locked :
      (id : ℕ) (items : List TransferItem)
      → All IsSound items
      → All IsSound (write_locked f id items)
  unfolding write_locked
  All-write_locked id [] h = tt
  All-write_locked id (x ∷ items) h = elim (Bool-cases (x.id == id)) [
    | inl e ↦ rw e (keeps x h.0, h.1)
    | inr e ↦ rw e (h.0, All-write_locked id items h.1)
  ]

  with_item-IsValid : (id : ℕ) (s : TransferStore) → IsValid s → IsValid (with_item f id s).0
  with_item-IsValid id s v = elim (Option-cases (find_locked id s.items)) [
    | inl e ↦ rw (e, with_item) v
    | inr (x, e) ↦
        rw (e, with_item)
          (record {
            ids = Ascending-write_locked f same id 1 s.next_id s.items v.ids;
            sound = All-write_locked id s.items v.sound;
            next_fits = v.next_fits;
          })
  ]

write_status-IsSound :
    (now : ℕ) (st : TransferStatus) (x : TransferItem) → IsSound x → IsSound (write_status now st x)
unfolding write_status
write_status-IsSound now completed x h = (omega arith, λ e. refl)
write_status-IsSound now st x h = (h.0, λ e. cc)

write_progress-IsSound :
    (now bytes : ℕ) (x : TransferItem) → IsSound x → IsSound (write_progress now bytes x)
unfolding write_progress
write_progress-IsSound now bytes x h = (ground arith, λ e. ground (arith, h.1))

write_failure-IsSound :
    (now : ℕ) (error : Bytes) (x : TransferItem) → IsSound x → IsSound (write_failure now error x)
unfolding write_failure
write_failure-IsSound now error x h = (h.0, λ e. cc)

write_cancelled-IsSound : (now : ℕ) (x : TransferItem) → IsSound x → IsSound (write_cancelled now x)
unfolding write_cancelled
write_cancelled-IsSound now x h = (h.0, λ e. cc)

-- The ids that a call uses up, and those that a history does.
abbrev pub used : Call → ℕ
used (adds d n z a i) = 1
used _ = 0

abbrev pub count_adds : List (ℕ × Call) → ℕ
count_adds [] = 0
count_adds ((now, c) ∷ cs) = used c + count_adds cs

unfoldable pub run : TransferStore → List (ℕ × Call) → TransferStore
run s [] = s
run s ((now, c) ∷ cs) = run (step now s c) cs

step-next_id :
    (now : ℕ) (s : TransferStore) (c : Call)
    → s.next_id + used c < u64_mod
    → (step now s c).next_id ≡ s.next_id + used c
unfolding step
step-next_id now s (adds d n z a i) h = omega arith
step-next_id now s _ h = ground arith

step-IsValid :
    (now : ℕ) (s : TransferStore) (c : Call)
    → s.next_id + used c < u64_mod
    → IsValid s
    → IsValid (step now s c)
step-IsValid now s (adds d n z a i) h v =
    unfold step in
    let e : (s.next_id + 1) % u64_mod ≡ suc s.next_id = omega (arith, v.next_fits) in
    record {
      ids = rw e (Ascending-append 1 s.next_id s.items _ refl v.ids);
      sound = All-append_one s.items _ v.sound (omega arith, λ q. refl);
      next_fits = omega arith;
    }
step-IsValid now s (sets_status id st) h v =
    unfold step in
    with_item-IsValid (write_status now st) (λ x. ground arith) (write_status-IsSound now st) id s v
step-IsValid now s (sets_progress id b) h v =
    unfold step in
    with_item-IsValid (write_progress now b) (λ x. ground arith) (write_progress-IsSound now b) id s
      v
step-IsValid now s (fails id e) h v =
    unfold step in
    with_item-IsValid (write_failure now e) (λ x. ground arith) (write_failure-IsSound now e) id s v
step-IsValid now s (cancels id) h v =
    unfold step in
    with_item-IsValid (write_cancelled now) (λ x. ground arith) (write_cancelled-IsSound now) id s v
step-IsValid now s clears_completed h v =
    unfold step in
    record {
      ids = Ascending-keep_if _ 1 s.next_id s.items v.ids;
      sound = All-keep_if _ s.items v.sound;
      next_fits = v.next_fits;
    }
step-IsValid now s clears h v =
    unfold step in
    record { ids = Ascending-le 1 s.next_id s.items v.ids; sound = tt; next_fits = v.next_fits }

-- From a valid store, after any history of calls that does not use up the 64-bit ids, the ids are
-- distinct and ascend below `next_id_`, every item has counted at most its size, and every completed
-- item has an empty error.
pub run-IsValid :
    (s : TransferStore) (cs : List (ℕ × Call))
    → IsValid s
    → s.next_id + count_adds cs < u64_mod
    → IsValid (run s cs)
unfolding run
run-IsValid s [] v h = v
run-IsValid s ((now, c) ∷ cs) v h =
    let e = step-next_id now s c (omega arith) in
    run-IsValid (step now s c) cs (step-IsValid now s c (omega arith) v) (omega arith)
