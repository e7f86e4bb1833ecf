-- ===== src/Examples/Devices.antt =====
-- Examples for the device store, the selection and the words of the protocol.
use localsend_handheld.Prelude.{ℕ, ◌≡◌, refl, false, List, [], ◌∷◌, some, codes, beq}
use localsend_handheld.Prelude.Decimal.{int_to_string, to_string}
use localsend_handheld.Protocol.{Device, default_device, mime_from_filename}
use localsend_handheld.Prelude.FilePath.{extension, filename, after_last, stem_extension, rsplit}
use localsend_handheld.DeviceStore
use localsend_handheld.DeviceStore.{
  DeviceEntry, discovered, manual, new_entry, device_key, endpoint_key, upsert, find_locked,
  write_locked, refresh, mark_stale_offline, is_stale,
}
use localsend_handheld.DeviceStore.Lookup.{
  device_step, upserts, marks_stale, removes, spec_step, get-device_step,
}
use localsend_handheld.DeviceStore.Invariant.{IsKeyed, run, run-IsKeyed}
use localsend_handheld.DeviceStore.Sorted.{IsRanked, with_rank, snapshot-IsRanked}
use localsend_handheld.DeviceSelection.{next_online_device_index, start_index, next_online_loop}

abbrev phone : Device
phone = record default_device { ip = codes "10.0.0.2"; alias = codes "Phone" }

abbrev laptop : Device
laptop = record default_device { ip = codes "10.0.0.3"; fingerprint = codes "ab12" }

key_of_phone : device_key phone ≡ codes "endpoint:10.0.0.2:53317"
unfolding device_key endpoint_key int_to_string to_string
key_of_phone = refl

abbrev known : List DeviceEntry
known =
    new_entry 5 laptop discovered (device_key laptop)
    ∷ record (new_entry 6 phone manual (device_key phone)) { online = false }
    ∷ []

known-IsKeyed : IsKeyed known
unfolding device_key endpoint_key int_to_string to_string find_locked beq
known-IsKeyed = (refl, refl, (refl, refl, tt))

get-device_step_example :
    DeviceStore.get (device_key laptop) (device_step 90 known (marks_stale 30))
    ≡ spec_step 90 (λ k. DeviceStore.get k known) (marks_stale 30) (device_key laptop)
get-device_step_example = get-device_step 90 known (marks_stale 30) (device_key laptop)

run-IsKeyed_example :
    IsKeyed (
      run known
        ((7, upserts laptop manual) ∷ (40, marks_stale 30) ∷ (41, removes (codes "x")) ∷ []))
run-IsKeyed_example =
    run-IsKeyed known
      ((7, upserts laptop manual) ∷ (40, marks_stale 30) ∷ (41, removes (codes "x")) ∷ [])
      known-IsKeyed

snapshot-IsRanked_example :
    IsRanked (DeviceStore.snapshot known)
    × ((r : ℕ) → with_rank r (DeviceStore.snapshot known) ≡ with_rank r known)
snapshot-IsRanked_example = snapshot-IsRanked known

next_online_wraps : next_online_device_index known (some 0) ≡ some 0
unfolding next_online_device_index next_online_loop start_index
next_online_wraps = refl

mime_of_photo : mime_from_filename (codes "a.tar.JPG") ≡ codes "image/jpeg"
unfolding mime_from_filename extension filename after_last stem_extension rsplit
mime_of_photo = refl
