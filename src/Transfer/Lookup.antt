-- ===== src/Transfer/Lookup.antt =====
-- What a lookup by id returns after each operation of transfer.cpp: the store is a finite map from
-- ids to items, and every method acts on that map at one id, or at all.
use mathlib.Core.Option
use localsend_handheld.Prelude.{
  ℕ, suc, ◌≡◌, refl, ap, ◌∙◌, Bool, true, false, not, ◌&&◌, ltb, leb, List, [], ◌∷◌, ◌++◌, Option,
  none, some, arith, ◌==◌, if◌then◌else◌, Bytes, keep_if, Option-cases, inl, inr,
}
use localsend_handheld.Transfer.{
  TransferItem, TransferStore, TransferStatus, TransferDirection, find_locked, write_locked,
  with_item, write_status, write_progress, write_failure, write_cancelled, is_finished, pending,
  preparing, transferring, completed, failed, cancelled, set_status, set_progress, fail, cancel,
  get, clear_completed, clear, add, new_item,
}
use localsend_handheld.Transfer.Ids.{Ascending, find_locked_below, find_locked_above}

pub find_locked-write_locked :
    (f : TransferItem → TransferItem) (keeps : (x : TransferItem) → (f x).id ≡ x.id) (id j : ℕ)
    (items : List TransferItem)
    → find_locked j (write_locked f id items)
      ≡ (if id == j then Option.map f (find_locked j items) else find_locked j items)
unfolding find_locked write_locked
find_locked-write_locked f keeps id j [] = ground arith
find_locked-write_locked f keeps id j (x ∷ items) =
    ground (arith, keeps x, find_locked-write_locked f keeps id j items)

pub find_locked-append :
    (j : ℕ) (items : List TransferItem) (x : TransferItem)
    → find_locked j items ≡ none
    → find_locked j (items ++ x ∷ []) ≡ (if x.id == j then some x else none)
unfolding find_locked
find_locked-append j [] x h = refl
find_locked-append j (y ∷ items) x h = ground (arith, find_locked-append j items x)

pub find_locked-append_some :
    (j : ℕ) (items : List TransferItem) (x y : TransferItem)
    → find_locked j items ≡ some y
    → find_locked j (items ++ x ∷ []) ≡ some y
unfolding find_locked
find_locked-append_some j [] x y h = cc
find_locked-append_some j (z ∷ items) x y h = ground (arith, find_locked-append_some j items x y)

-- The transfers that are over.
abbrev pub is_over : TransferStatus → Bool
is_over pending = false
is_over preparing = false
is_over transferring = false
is_over completed = true
is_over failed = true
is_over cancelled = true

is_finished-is_over : (status : TransferStatus) → is_finished status ≡ is_over status
is_finished-is_over pending = refl
is_finished-is_over preparing = refl
is_finished-is_over transferring = refl
is_finished-is_over completed = refl
is_finished-is_over failed = refl
is_finished-is_over cancelled = refl

-- What `clear_completed` leaves of a lookup.
abbrev pub unfinished : Option TransferItem → Option TransferItem
unfinished none = none
unfinished (some item) = if is_over item.status then none else some item

find_locked-keep_if :
    (j lo hi : ℕ) (items : List TransferItem)
    → Ascending lo hi items
    → find_locked j (keep_if (λ item. not (is_finished item.status)) items)
      ≡ unfinished (find_locked j items)
unfolding find_locked
find_locked-keep_if j lo hi [] h = refl
find_locked-keep_if j lo hi (x ∷ items) h = ground (
  arith,
  find_locked-keep_if j (suc x.id) hi items h.1,
  find_locked_below j (suc x.id) hi items,
  is_finished-is_over x.status,
)

pub with_item-get :
    (f : TransferItem → TransferItem) (keeps : (x : TransferItem) → (f x).id ≡ x.id) (id j : ℕ)
    (s : TransferStore)
    → get j (with_item f id s).0 ≡ (if id == j then Option.map f (get j s) else get j s)
unfolding get
with_item-get f keeps id j s = ground (arith, find_locked-write_locked f keeps id j s.items)

-- The calls that change the store.
pub data Call : Type 0 where
  adds : TransferDirection → Bytes → ℕ → Bytes → Bytes → Call
  sets_status : ℕ → TransferStatus → Call
  sets_progress : ℕ → ℕ → Call
  fails : ℕ → Bytes → Call
  cancels : ℕ → Call
  clears_completed clears : Call

-- One call at time `now`.
unfoldable pub step : ℕ → TransferStore → Call → TransferStore
unfolding add set_status set_progress fail cancel clear_completed clear
step now s (adds d n z a i) = (add now d n z a i s).1
step now s (sets_status id st) = (set_status now id st s).0
step now s (sets_progress id b) = (set_progress now id b s).0
step now s (fails id e) = (fail now id e s).0
step now s (cancels id) = (cancel now id s).0
step now s clears_completed = clear_completed s
step now s clears = clear s

-- The specification: a map from ids to items, and the next id.
abbrev pub View : Type 0
View = ℕ → Option TransferItem

abbrev alter : ℕ → (TransferItem → TransferItem) → View → View
alter id f v j = if id == j then Option.map f (v j) else v j

-- A transfer that is marked as completed counts all of its bytes and has no error.
abbrev pub with_status : ℕ → TransferStatus → TransferItem → TransferItem
with_status now completed x = record x {
  status = completed;
  bytes_transferred = x.size;
  error = [];
  updated_at = now;
}
with_status now status x = record x { status = status; updated_at = now }

write_status-with_status :
    (now : ℕ) (status : TransferStatus) (x : TransferItem)
    → write_status now status x ≡ with_status now status x
unfolding write_status
write_status-with_status now pending x = refl
write_status-with_status now preparing x = refl
write_status-with_status now transferring x = refl
write_status-with_status now completed x = refl
write_status-with_status now failed x = refl
write_status-with_status now cancelled x = refl

-- Progress starts a transfer.
abbrev pub started : TransferStatus → TransferStatus
started pending = transferring
started preparing = transferring
started status = status

-- A file with content that is all there is completed; otherwise the bytes count up to the size.
abbrev pub with_progress : ℕ → ℕ → TransferItem → TransferItem
with_progress now bytes x =
    if ltb 0 x.size && leb x.size bytes
    then record x { status = completed; bytes_transferred = x.size; error = []; updated_at = now }
    else record x {
      status = started x.status;
      bytes_transferred = if leb x.size bytes then x.size else bytes;
      updated_at = now;
    }

write_progress-started :
    (now bytes : ℕ) (status : TransferStatus) (x : TransferItem)
    → x.status ≡ status
    → write_progress now bytes x ≡ with_progress now bytes x
unfolding write_progress
write_progress-started now bytes pending x e = ground arith
write_progress-started now bytes preparing x e = ground arith
write_progress-started now bytes transferring x e = ground arith
write_progress-started now bytes completed x e = ground arith
write_progress-started now bytes failed x e = ground arith
write_progress-started now bytes cancelled x e = ground arith

abbrev pub spec_step : ℕ → ℕ → View → Call → View
spec_step now next v (adds d n z a i) j =
    if next == j
    then some (record {
      id = next;
      direction = d;
      status = pending;
      file_name = n;
      size = z;
      bytes_transferred = 0;
      peer_alias = a;
      peer_ip = i;
      error = [];
      created_at = now;
      updated_at = now;
    })
    else v j
spec_step now next v (sets_status id st) j = alter id (with_status now st) v j
spec_step now next v (sets_progress id b) j = alter id (with_progress now b) v j
spec_step now next v (fails id e) j =
    alter id (λ x. record x { status = failed; error = e; updated_at = now }) v j
spec_step now next v (cancels id) j =
    alter id (λ x. record x { status = cancelled; updated_at = now }) v j
spec_step now next v clears_completed j = unfinished (v j)
spec_step now next v clears j = none

add-get :
    (now lo : ℕ) (s : TransferStore) (d : TransferDirection) (n : Bytes) (z : ℕ) (a i : Bytes)
    (j : ℕ)
    → Ascending lo s.next_id s.items
    → get j (add now d n z a i s).1
      ≡ (if s.next_id == j then some (new_item now s.next_id d n z a i) else get j s)
unfolding get add
add-get now lo s d n z a i j h = elim (Option-cases (find_locked j s.items)) [
  | inl e ↦ ground (arith, find_locked-append j s.items (new_item now s.next_id d n z a i) e)
  | inr (y, e) ↦ ground (
    arith,
    find_locked-append_some j s.items (new_item now s.next_id d n z a i) y e,
    find_locked_above j lo s.next_id s.items,
  )
]

-- Each method implements its specification on the map of ids, on a store whose ids ascend: `add` binds the new id to a
-- pending item without bytes; the writers change the item of their id and no other and do nothing to a missing one;
-- a status of completed counts all bytes and clears the error, as does progress over the whole of a file with content,
-- and less progress starts a transfer and counts no more than the size; `clear_completed` drops exactly the items
-- that are completed, failed or cancelled, and `clear` all.
pub get-step :
    (now lo : ℕ) (s : TransferStore) (c : Call) (j : ℕ)
    → Ascending lo s.next_id s.items
    → get j (step now s c) ≡ spec_step now s.next_id (λ k. get k s) c j
get-step now lo s (adds d n z a i) j h = unfold step in add-get now lo s d n z a i j h
get-step now lo s (sets_status id st) j h =
    unfold step in
    with_item-get (write_status now st) (λ x. ground arith) id j s
    ∙ ap (λ f. alter id f (λ k. get k s) j) (λ p x. write_status-with_status now st x p)
get-step now lo s (sets_progress id b) j h =
    unfold step in
    with_item-get (write_progress now b) (λ x. ground arith) id j s
    ∙ ap (λ f. alter id f (λ k. get k s) j) (λ p x. write_progress-started now b x.status x refl p)
get-step now lo s (fails id e) j h =
    unfold step write_failure in with_item-get (write_failure now e) (λ x. ground arith) id j s
get-step now lo s (cancels id) j h =
    unfold step write_cancelled in with_item-get (write_cancelled now) (λ x. ground arith) id j s
get-step now lo s clears_completed j h =
    unfold step get in find_locked-keep_if j lo s.next_id s.items h
get-step now lo s clears j h = unfold step get in refl
