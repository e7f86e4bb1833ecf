-- ===== src/StatusFormat.antt =====
-- src/core/status_format.cpp: the summaries that the user interface shows. The output stream is the
-- text that is written to it.
pub mod Percent
use localsend_handheld.Prelude.{
  ℕ, zero, suc, ◌+◌, ◌-◌, ◌*◌, ◌/◌, ◌%◌, min, Bool, true, false, ◌||◌, List, [], ◌∷◌, ◌++◌, Option,
  none, some, ltb, ◌==◌, if◌then◌else◌, Bytes, codes, is_empty, length, get_elem?,
}
use localsend_handheld.Prelude.Decimal.{to_string, int_to_string}
use localsend_handheld.Protocol.{Device}
use localsend_handheld.DeviceStore.{DeviceEntry, source_to_string}
use localsend_handheld.Transfer.{
  TransferItem, TransferDirection, send, receive, u64_mod, is_completed, direction_to_string,
  status_to_string,
}

abbrev pub protocol_label : Device → Bytes
protocol_label device = if device.is_https then codes "https" else codes "http"

-- `clamped * 100` wraps at 2^64. The quotient is at most 100, so the cast to `int` keeps it.
unfoldable pub progress_percent : TransferItem → ℕ
progress_percent item =
    let clamped = min item.bytes_transferred item.size in
    if item.size == 0
    then (if is_completed item.status then 100 else 0)
    else (clamped * 100 % u64_mod) / item.size

abbrev pub peer_label : TransferItem → Bytes
peer_label item =
    if is_empty item.peer_alias
    then (if is_empty item.peer_ip then codes "Unknown peer" else item.peer_ip)
    else item.peer_alias

unfoldable pub format_device_line : DeviceEntry → Bytes
format_device_line entry =
    let device = entry.device in
    (if entry.online then codes "online " else codes "offline ")
    ++ ((if is_empty device.alias then codes "Unnamed peer" else device.alias)
        ++ (codes " ["
            ++ (protocol_label device
                ++ (codes "] "
                    ++ (device.ip
                        ++ (codes ":"
                            ++ (int_to_string device.port
                                ++ (codes " ("
                                    ++ (source_to_string entry.source ++ codes ")")))))))))

-- The loop over the first `count` entries; `first` is `i == 0`.
unfoldable pub device_lines : Bool → ℕ → List DeviceEntry → Bytes
device_lines first zero devices = []
device_lines first (suc count) [] = []
device_lines first (suc count) (entry ∷ devices) =
    (if first then [] else codes "\n")
    ++ (format_device_line entry ++ device_lines false count devices)

unfoldable pub format_device_summary : List DeviceEntry → ℕ → Bytes
format_device_summary devices max_items =
    let count = min max_items (length devices) in
    if is_empty devices || max_items == 0
    then codes "No peers yet"
    else device_lines true count devices
      ++ (if ltb count (length devices)
          then codes "\n+" ++ (to_string (length devices - count) ++ codes " more")
          else [])

abbrev pub is_receive : TransferDirection → Bool
is_receive send = false
is_receive receive = true

unfoldable pub format_transfer_line : TransferItem → Bytes
format_transfer_line item =
    direction_to_string item.direction
    ++ (codes " "
        ++ (item.file_name
            ++ ((if is_receive item.direction then codes " <- " else codes " -> ")
                ++ (peer_label item
                    ++ (codes " ["
                        ++ (status_to_string item.status
                            ++ (codes ", "
                                ++ (to_string (progress_percent item)
                                    ++ (codes "%]"
                                        ++ (if is_empty item.error
                                            then []
                                            else codes " " ++ item.error))))))))))

abbrev pub line_at : Option TransferItem → Bytes
line_at none = []
line_at (some item) = format_transfer_line item

-- The loop at index `i` with `rounds` rounds left: the newest transfer stands last in the list.
unfoldable pub transfer_lines : List TransferItem → ℕ → ℕ → Bytes
transfer_lines transfers zero i = []
transfer_lines transfers (suc rounds) i =
    (if ltb 0 i then codes "\n" else [])
    ++ (line_at (get_elem? transfers (length transfers - 1 - i))
        ++ transfer_lines transfers rounds (i + 1))

unfoldable pub format_transfer_summary : List TransferItem → ℕ → Bytes
format_transfer_summary transfers max_items =
    let count = min max_items (length transfers) in
    if is_empty transfers || max_items == 0
    then codes "No transfers yet"
    else transfer_lines transfers count 0
      ++ (if ltb count (length transfers)
          then codes "\n+" ++ (to_string (length transfers - count) ++ codes " older")
          else [])
