-- ===== src/DeviceSelection.antt =====
-- src/core/device_selection.cpp: which peer of the snapshot is selected.
pub mod Cycle
use localsend_handheld.Prelude.{
  ℕ, zero, suc, ◌+◌, ◌%◌, Bool, true, false, ◌&&◌, List, [], ◌∷◌, ◌++◌, Option, none, some, ltb,
  if◌then◌else◌, Bytes, codes, is_empty, length, get_elem?,
}
use localsend_handheld.Prelude.Decimal.{int_to_string}
use localsend_handheld.Protocol.{Device}
use localsend_handheld.DeviceStore.{DeviceEntry, source_to_string}

-- `devices[i].online`, at an index in range.
abbrev pub online_at : List DeviceEntry → ℕ → Bool
online_at devices i = elim (get_elem? devices i) [ none ↦ false | some entry ↦ entry.online ]

-- The loop from index `i`, on the entries from there on.
unfoldable pub first_online_from : ℕ → List DeviceEntry → Option ℕ
first_online_from i [] = none
first_online_from i (entry ∷ devices) =
    if entry.online then some i else first_online_from (i + 1) devices

unfoldable pub first_online_device_index : List DeviceEntry → Option ℕ
unfolding first_online_from
first_online_device_index devices = first_online_from 0 devices

-- `current_index && *current_index < devices.size() ? (*current_index + 1) : 0`
unfoldable pub start_index : ℕ → Option ℕ → ℕ
start_index size none = 0
start_index size (some current) = if ltb current size then current + 1 else 0

-- The loop with `rounds` rounds left.
unfoldable pub next_online_loop : List DeviceEntry → ℕ → ℕ → ℕ → Option ℕ
next_online_loop devices start zero offset = none
next_online_loop devices start (suc rounds) offset =
    let rest = next_online_loop devices start rounds (offset + 1) in
    let index = (start + offset) % length devices in
    if online_at devices index then some index else rest

unfoldable pub next_online_device_index : List DeviceEntry → Option ℕ → Option ℕ
unfolding next_online_loop start_index
next_online_device_index devices current =
    if is_empty devices
    then none
    else next_online_loop devices (start_index (length devices) current) (length devices) 0

-- `current_index && *current_index < devices.size() && devices[*current_index].online`
abbrev pub current_online : List DeviceEntry → Option ℕ → Bool
current_online devices none = false
current_online devices (some current) = ltb current (length devices) && online_at devices current

abbrev pub entry_at : List DeviceEntry → Option ℕ → Option DeviceEntry
entry_at devices none = none
entry_at devices (some i) = get_elem? devices i

unfoldable pub selected_online_device : List DeviceEntry → Option ℕ → Option DeviceEntry
unfolding first_online_device_index
selected_online_device devices current =
    if current_online devices current
    then entry_at devices current
    else entry_at devices (first_online_device_index devices)

unfoldable pub format_selected_entry : DeviceEntry → Bytes
unfolding int_to_string
format_selected_entry selected =
    let device = selected.device in
    (if is_empty device.alias then codes "Unnamed peer" else device.alias)
    ++ (codes " "
        ++ ((if device.is_https then codes "[https] " else codes "[http] ")
            ++ (device.ip
                ++ (codes ":"
                    ++ (int_to_string device.port
                        ++ (codes " (" ++ (source_to_string selected.source ++ codes ")")))))))

unfoldable pub format_selected_device : List DeviceEntry → Option ℕ → Bytes
unfolding selected_online_device format_selected_entry
format_selected_device devices current = elim (selected_online_device devices current) [
  | none ↦ codes "No online peer selected"
  | some selected ↦ format_selected_entry selected
]
