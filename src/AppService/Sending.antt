-- ===== src/AppService/Sending.antt =====
-- The sends of app_service.cpp: at most one runs, in its thread.
use localsend_handheld.Prelude.{
  Bool, true, false, not, List, [], ◌∷◌, Option, none, some, if◌then◌else◌, Bytes, codes,
}
use localsend_handheld.Protocol.{Device}
use localsend_handheld.DeviceStore as Devices
use localsend_handheld.AppService.{AppService}

abbrev pub set_last_send_error : Bytes → AppService → AppService
set_last_send_error error a = record a { last_send_error = error }

abbrev pub set_send_status_message : Bytes → AppService → AppService
set_send_status_message message a = record a { send_status_message = message }

-- `start_send_to_device`; the thread that it starts works on the device and the files of the third result.
unfoldable pub start_send_to_device :
    Bytes → List Bytes → AppService → AppService × Bool × Option (Device × List Bytes)
start_send_to_device key file_paths a =
    if a.send_running
    then (set_last_send_error (codes "send already running") a, false, none)
    else elim (Devices.get key a.devices) [
      | none ↦ (set_last_send_error (codes "selected peer disappeared") a, false, none)
      | some entry ↦ elim file_paths [
        | [] ↦ (set_last_send_error (codes "no files selected") a, false, none)
        | path ∷ paths ↦ (
          record a {
            cancel_requested = false;
            last_send_error = [];
            send_status_message = codes "Starting send";
            send_running = true;
          },
          true,
          some (entry.device, path ∷ paths),
        )
      ]
    ]

unfoldable pub cancel_current_send : AppService → AppService × Bool
cancel_current_send a =
    if not a.send_running then (set_last_send_error (codes "no active send") a, false) else (
      record a { cancel_requested = true; last_send_error = codes "send cancellation requested" },
      true,
    )

-- The end of `send_worker`: the error that it met, or none.
unfoldable pub finish_send : Option Bytes → AppService → AppService
finish_send error a = record a {
  last_send_error = elim error [ none ↦ [] | some text ↦ text ];
  send_status_message = elim error [ none ↦ codes "Send complete" | some text ↦ [] ];
  send_running = false;
}

abbrev pub wait_for_send_idle : AppService → AppService
wait_for_send_idle a = record a { send_running = false }
