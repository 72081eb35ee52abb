-- ===== src/Main.antt =====
-- `main` of src/main.cpp up to the start of the capture: the command line, the device and the
-- filters. A string is the list of its bytes.
pub mod Args
pub mod Session
mod Tests
use my_wireshark.Base.{
  ℕ, ltb, ◌==◌, if◌then◌else◌, ◌||◌, Bool, true, false, List, [], ◌∷◌, map, Option, none, some,
  get_elem?,
}
use my_wireshark.Base.Text.{codes, same_bytes, c_str}
use my_wireshark.Devices.{CaptureDevice, capture_max_devices, list_devices_impl}
use my_wireshark.Disp.Node.{Node}
use my_wireshark.Disp.Compile.{Outcome, filter, error, undefined, no_fuel, dispfilter_compile}

-- The variables that the arguments set.
pub record Options : Type 0 where
  pub cli_iface : List ℕ
  pub have_iface : Bool
  pub cli_capture_filter : List ℕ
  pub cli_display_filter : List ℕ
  pub cli_pcap_path : List ℕ

abbrev pub no_options : Options
no_options = record {
  cli_iface = [];
  have_iface = false;
  cli_capture_filter = [];
  cli_display_filter = [];
  cli_pcap_path = [];
}

-- The effect of an argument with the value after it; `none` if it is none of the four.
unfoldable pub set_option : List ℕ → List ℕ → Options → Option Options
set_option arg value o =
    if same_bytes arg (codes "-i")
    then some (record o { cli_iface = value; have_iface = true })
    else if same_bytes arg (codes "-f")
    then some (record o { cli_capture_filter = value })
    else if same_bytes arg (codes "-Y")
    then some (record o { cli_display_filter = value })
    else if same_bytes arg (codes "-w")
    then some (record o { cli_pcap_path = value })
    else none

-- The options, or the argument that is unknown or incomplete.
pub data ParsedArgs : Type 0 where
  options : Options → ParsedArgs
  bad_argument : List ℕ → ParsedArgs

-- The loop over the arguments after the program's name.
unfoldable pub parse_args : Options → List (List ℕ) → ParsedArgs
unfolding set_option
parse_args o [] = options o
parse_args o (arg ∷ []) = bad_argument arg
parse_args o (arg ∷ value ∷ rest) = elim (set_option arg value o) [
  | none ↦ bad_argument arg
  | some o' ↦ parse_args o' rest
]

-- What the user enters without -i. `choice` is the value of the variable after `std::cin >>
-- choice`, with `none` for a negative one; the others are those after `std::getline`.
pub record Entered : Type 0 where
  pub choice : Option ℕ
  pub capture_filter : List ℕ
  pub display_filter : List ℕ
  pub pcap_path : List ℕ

pub record Selection : Type 0 where
  pub device_name : List ℕ
  pub capture_filter : List ℕ
  pub display_filter : List ℕ
  pub pcap_path : List ℕ

-- The device of a choice that is an index of the list.
abbrev pub chosen_device : List CaptureDevice → Option ℕ → Option CaptureDevice
chosen_device devices none = none
chosen_device devices (some i) = get_elem? devices i

abbrev pub entered_on : Entered → Option CaptureDevice → Option Selection
entered_on e none = none
entered_on e (some device) = some (record {
  device_name = device.name;
  capture_filter = e.capture_filter;
  display_filter = e.display_filter;
  pcap_path = e.pcap_path;
})

-- The device and the texts; `none` for an invalid choice.
unfoldable pub select : Options → List CaptureDevice → Entered → Option Selection
select o devices e =
    if o.have_iface
    then some (record {
      device_name = o.cli_iface;
      capture_filter = o.cli_capture_filter;
      display_filter = o.cli_display_filter;
      pcap_path = o.cli_pcap_path;
    })
    else entered_on e (chosen_device devices e.choice)

-- A return of 1 with its message, the start of the capture with the display filter, and a write in
-- `dispfilter_compile` that C leaves undefined.
pub data Start : Type 0 where
  bad_arguments no_devices invalid_choice invalid_filter : Start
  capturing : Selection → Node → Start
  undefined_start : Start

abbrev pub compiled : Selection → Outcome → Start
compiled s (filter root) = capturing s root
compiled s (error e) = invalid_filter
compiled s undefined = undefined_start
compiled s no_fuel = undefined_start

-- From the selection on; `alloc` tells whether `dispfilter_compile` has room.
abbrev pub selected : Bool → Option Selection → Start
selected alloc none = invalid_choice
selected alloc (some s) = compiled s (dispfilter_compile alloc (some (c_str s.display_filter)))

-- From the list of devices on: `device_count` is positive if it is made and has a device.
abbrev pub listed : Bool → Options → Entered → Option (List CaptureDevice) → Start
listed alloc o e none = no_devices
listed alloc o e (some []) = no_devices
listed alloc o e (some (d ∷ ds)) = selected alloc (select o (d ∷ ds) e)

abbrev pub parsed : Bool → Option (List (Option (List ℕ))) → Entered → ParsedArgs → Start
parsed alloc addrs e (bad_argument arg) = bad_arguments
parsed alloc addrs e (options o) = listed alloc o e (list_devices_impl capture_max_devices addrs)

-- `main` up to the start of the capture, with the answer of `getifaddrs`.
unfoldable pub main_start : Bool → List (List ℕ) → Option (List (Option (List ℕ))) → Entered → Start
unfolding parse_args
main_start alloc args addrs e = parsed alloc addrs e (parse_args no_options args)

-- The status that `main` returns after the capture, whose result is true for 0.
unfoldable pub exit_status : Bool → ℕ
exit_status capture_result = if capture_result then 0 else 1
