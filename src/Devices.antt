-- ===== src/Devices.antt =====
-- The listing of the network devices: `raw_socket_list_devices` of src/c/raw_socket.c, and
-- `list_devices_impl` of src/c/capture_backend_linux.c, which src/main.cpp calls. A name is a C
-- string.
pub mod Members
pub mod Listing
mod Tests
use my_wireshark.Base.{
  ℕ, ◌-◌, ltb, ◌==◌, if◌then◌else◌, ◌||◌, not, Bool, true, false, List, [], ◌∷◌, ◌++◌, map, Option,
  none, some, length, take,
}
use my_wireshark.Base.Text.{same_bytes}

abbrev pub raw_socket_name_len : ℕ
raw_socket_name_len = 256

abbrev pub capture_name_len : ℕ
capture_name_len = 256

abbrev pub capture_max_devices : ℕ
capture_max_devices = 32

-- `strncpy(to, from, size - 1)` with the last byte of `to` set to 0
abbrev pub copied_name : ℕ → List ℕ → List ℕ
copied_name size name = take (size - 1) name

-- Whether a name is among those in the output.
unfoldable pub is_listed : List ℕ → List (List ℕ) → Bool
is_listed name [] = false
is_listed name (other ∷ rest) = same_bytes other name || is_listed name rest

-- The body of the loop, on an entry of `getifaddrs`; `none` is a null name.
unfoldable pub add_device : Option (List ℕ) → List (List ℕ) → List (List ℕ)
unfolding is_listed
add_device none output = output
add_device (some name) output =
    if is_listed name output then output else output ++ copied_name raw_socket_name_len name ∷ []

unfoldable pub list_loop : ℕ → List (Option (List ℕ)) → List (List ℕ) → List (List ℕ)
unfolding add_device
list_loop max_devices [] output = output
list_loop max_devices (entry ∷ rest) output =
    let more = list_loop max_devices rest (add_device entry output) in
    if ltb (length output) max_devices then more else output

-- `has_output` is false for a null pointer; `none` of `getifaddrs` is its failure, and `none` of the
-- result a return of -1. No caller gives a negative `max_devices`.
unfoldable pub raw_socket_list_devices :
    Bool → ℕ → Option (List (Option (List ℕ))) → Option (List (List ℕ))
unfolding list_loop
raw_socket_list_devices has_output max_devices addrs =
    if not has_output || max_devices == 0
    then none
    else elim addrs [ none ↦ none | some entries ↦ some (list_loop max_devices entries []) ]

pub record CaptureDevice : Type 0 where
  pub name : List ℕ
  pub description : List ℕ

abbrev pub capture_device : List ℕ → CaptureDevice
capture_device name = record { name = copied_name capture_name_len name; description = [] }

unfoldable pub list_devices_impl : ℕ → Option (List (Option (List ℕ))) → Option (List CaptureDevice)
unfolding raw_socket_list_devices
list_devices_impl max_devices addrs =
    elim (raw_socket_list_devices true
      (if ltb capture_max_devices max_devices then capture_max_devices else max_devices) addrs) [
        | none ↦ none
        | some names ↦ some (map capture_device names)
      ]
