-- ===== src/Discovery/Found.antt =====
-- What a scan of discovery.cpp finds.
use localsend_handheld.Prelude.{
  ◌≡◌, refl, ap, ◌∙◌, List, [], ◌∷◌, Option, none, some, if◌then◌else◌, Bytes, beq, length,
  take-whole, ◌≤◌,
}
use localsend_handheld.Prelude.Int.{ℤ}
use localsend_handheld.Prelude.Map.{Map, find, find-insert, IsOrdered}
use localsend_handheld.Prelude.Map.Order.{IsOrdered-insert}
use localsend_handheld.Json.{Numbers}
use localsend_handheld.Protocol.{Device, MulticastDto}
use localsend_handheld.Protocol.DtoRoundTrip.{IsInt}
use localsend_handheld.Protocol.Sent.{IsSafe, read-announcement}
use localsend_handheld.Discovery.{
  to_device, Reception, endpoint, make_multicast_announcement, device_from_multicast, device_of,
  keep_device, receive_all, datagram, receive_size,
}

module _ (n : Numbers) (port : ℤ) where
  abbrev pub replaced : Bytes → Option Device → Option Device → Option Device
  replaced key none before = before
  replaced key (some device) before = if beq (endpoint device) key then some device else before

  -- The last device that came from an endpoint, or the one that was there before.
  abbrev pub latest : Bytes → List Reception → Option Device → Option Device
  latest key [] before = before
  latest key (reception ∷ receptions) before =
      latest key receptions (replaced key (device_of n port reception) before)

  keep_device-IsOrdered :
      (device : Option Device) (m : Map Device) → IsOrdered m → IsOrdered (keep_device n device m)
  keep_device-IsOrdered none m h = h
  keep_device-IsOrdered (some device) m h = IsOrdered-insert (endpoint device) device m h

  receive_all-IsOrdered :
      (receptions : List Reception) (m : Map Device)
      → IsOrdered m
      → IsOrdered (receive_all n port receptions m)
  unfolding receive_all
  receive_all-IsOrdered [] m h = h
  receive_all-IsOrdered (reception ∷ receptions) m h =
      receive_all-IsOrdered receptions _ (keep_device-IsOrdered (device_of n port reception) m h)

  find-keep_device :
      (key : Bytes) (device : Option Device) (m : Map Device)
      → find key (keep_device n device m) ≡ replaced key device (find key m)
  find-keep_device key none m = refl
  find-keep_device key (some device) m = find-insert (endpoint device) key device m

  find-receive_all :
      (key : Bytes) (receptions : List Reception) (m : Map Device)
      → find key (receive_all n port receptions m) ≡ latest key receptions (find key m)
  unfolding receive_all
  find-receive_all key [] m = refl
  find-receive_all key (reception ∷ receptions) m =
      find-receive_all key receptions (keep_device n (device_of n port reception) m)
      ∙ ap (latest key receptions) (find-keep_device key (device_of n port reception) m)

  -- What a scan keeps is in the order of the endpoints, each once, and for each endpoint, an address and a port,
  -- it is the device of the last datagram that was read as one from there.
  receive_all-latest :
      (receptions : List Reception)
      → IsOrdered (receive_all n port receptions [])
        × ((key : Bytes) → find key (receive_all n port receptions []) ≡ latest key receptions none)
  receive_all-latest receptions = (
    receive_all-IsOrdered receptions [] tt,
    λ key. unfold find in find-receive_all key receptions [],
  )

-- A device that announces itself in a datagram of at most 8192 bytes is found by whoever receives it, as
-- `to_device` gives it for the address of the sender: for a port that is an `int` and survives as a
-- JSON number.
pub device_of-make_multicast_announcement :
    (n : Numbers) (dto : MulticastDto) (ip : Bytes) (port : ℤ)
    → IsInt dto.port
    → IsSafe n dto.port
    → length (make_multicast_announcement n dto) ≤ receive_size
    → device_of n port (datagram (make_multicast_announcement n dto) (some ip))
      ≡ some (to_device dto ip port)
unfolding device_of device_from_multicast make_multicast_announcement
device_of-make_multicast_announcement n dto ip port i s h =
    let whole = take-whole receive_size (make_multicast_announcement n dto) h in
    let heard = (read-announcement n dto i s).0 in rw (device_of, whole, heard) refl
