-- ===== src/Devices/Tests.antt =====
-- A listing of the devices by src/c/capture_backend_linux.c, and its theorem applied.
use my_wireshark.Base.{ℕ, ◌≡◌, refl, min, List, [], ◌∷◌, map, Option, none, some, arith}
use my_wireshark.Base.Text.{codes, same_bytes}
use my_wireshark.Devices.{capture_max_devices, capture_device, list_devices_impl}
use my_wireshark.Devices.Listing.{names, IsListing, list_devices_impl-IsListing}

-- Two addresses of one device, an entry without a name, and another device.
abbrev entries : List (Option (List ℕ))
entries = some (codes "lo") ∷ some (codes "eth0") ∷ none ∷ some (codes "lo") ∷ []

lists :
    list_devices_impl 5 (some entries) ≡ some (map capture_device (codes "lo" ∷ codes "eth0" ∷ []))
unfolding list_devices_impl same_bytes
lists = refl

list_devices_impl-IsListing_example :
    (output : List (List ℕ)) × (list_devices_impl 5 (some entries)
      ≡ some (map (λ name. record { name = name; description = [] }) output))
    × IsListing (min 5 capture_max_devices) (names entries) output
list_devices_impl-IsListing_example =
    list_devices_impl-IsListing 5 entries (omega arith) (omega arith)
