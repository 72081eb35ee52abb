-- ===== src/Main/Tests.antt =====
-- Command lines of src/main.cpp, and the theorems about them applied.
use mathlib.Core.List.{Memᴰ}
use my_wireshark.Base.{
  ℕ, ◌≡◌, ◌≢◌, refl, Bool, true, false, List, [], ◌∷◌, ◌++◌, Option, none, some, arith, replicate,
  All-replicate, IsBytes-test, all_test,
}
use my_wireshark.Base.Text.{c_str, codes, same_bytes}
use my_wireshark.Disp.Node.{Node, field_tcp_port, cmp_eq, port, cmp_node}
use my_wireshark.Disp.Compile.{dispfilter_compile}
use my_wireshark.Cap.Lexer.{parse_ipv4_word}
use my_wireshark.Capture.{
  other, Frame, received, stopped, Calls, World, returned, choose_filter, run_impl,
}
use my_wireshark.Capture.Loop.{IsIdle}
use my_wireshark.Capture.Runs.{Outputs}
use my_wireshark.Devices.{list_devices_impl}
use my_wireshark.Pipeline.{
  Threads, Thread, capture_thread, main_thread, run_threads, started, IsOver,
}
use my_wireshark.Pipeline.Underway.{IsCaught, Prints}
use my_wireshark.Pipeline.Live.{IsFair, schedule}
use my_wireshark.Pipeline.Whole.{gather}
use my_wireshark.Main.{
  Options, no_options, options, bad_argument, parse_args, Entered, Selection, select, capturing,
  undefined_start, main_start,
}
use my_wireshark.Main.Args.{
  Flag, display, output, command_line, AreLast, Explains, parse_args-command_line,
  parse_args-Explains,
}
use my_wireshark.Main.Session.{Began, default_max_size, main_start-run, main_start-defined}

abbrev settings : List (Flag × List ℕ)
settings =
    (display, codes "udp") ∷ (output, codes "out.pcap") ∷ (display, codes "tcp.port == 443") ∷ []

abbrev args : List (List ℕ)
args = command_line settings

parse_args-command_line_example :
    (o : Options) × (parse_args no_options args ≡ options o) × AreLast settings no_options o
parse_args-command_line_example = parse_args-command_line settings

abbrev incomplete : List (List ℕ)
incomplete = codes "-i" ∷ codes "eth0" ∷ codes "-w" ∷ []

parse_args-Explains_example : Explains no_options incomplete (parse_args no_options incomplete)
parse_args-Explains_example = parse_args-Explains incomplete

complains : parse_args no_options incomplete ≡ bad_argument (codes "-w")
unfolding parse_args same_bytes
complains = refl

abbrev by_flag : List (List ℕ)
by_flag =
    codes "-i"
    ∷ codes "eth0"
    ∷ codes "-Y"
    ∷ codes "tcp.port == 443"
    ∷ codes "-w"
    ∷ codes "out.pcap"
    ∷ []

abbrev entries : List (Option (List ℕ))
entries = some (codes "lo") ∷ some (codes "eth0") ∷ []

abbrev nothing_entered : Entered
nothing_entered = record { choice = none; capture_filter = []; display_filter = []; pcap_path = [] }

abbrev tree : Node
tree = cmp_node field_tcp_port cmp_eq (port 443)

abbrev selection : Selection
selection = record {
  device_name = codes "eth0";
  capture_filter = [];
  display_filter = codes "tcp.port == 443";
  pcap_path = codes "out.pcap";
}

starts : main_start true by_flag (some entries) nothing_entered ≡ capturing selection tree
unfolding main_start list_devices_impl same_bytes select c_str dispfilter_compile parse_ipv4_word
starts = refl

-- The user chooses the second device of the list.
abbrev second_entered : Entered
second_entered = record nothing_entered {
  choice = some 1;
  display_filter = codes "tcp.port == 443";
  pcap_path = codes "out.pcap";
}

chooses : main_start true [] (some entries) second_entered ≡ capturing selection tree
unfolding main_start list_devices_impl same_bytes select c_str dispfilter_compile parse_ipv4_word
chooses = refl

abbrev frame : Frame
frame = record { bytes = 1 ∷ 2 ∷ 3 ∷ []; ts_seconds = 1_700_000_001; ts_microseconds = 0 }

frame-IsCaught : IsCaught frame
frame-IsCaught = record {
  bytes = IsBytes-test frame.bytes (unfold all_test in refl);
  short = omega arith;
}

abbrev rounds : List (List Thread)
rounds = replicate 4 (main_thread ∷ capture_thread ∷ [])

abbrev calls : Calls
calls = record {
  alloc = true;
  opens = true;
  attaches = true;
  fopens = true;
  installs = true;
  restores = true;
  fcloses = true;
  recvs = received frame ∷ stopped ∷ [];
  stats = some (1, 0);
}

abbrev idle : World (List Frame)
idle = record {
  socket_open = false;
  filter = none;
  file_open = false;
  stream = [];
  file = none;
  handler = other 7;
  active = false;
  last_stats = none;
  user = [];
}

abbrev disk : List ℕ → List ℕ → Bool × List ℕ
disk content bytes = (true, content ++ bytes)

main_start-run_example :
    Began by_flag (some entries) nothing_entered selection tree
    × ((w : World (List Frame)) × (p : Threads) × (run_impl gather disk calls
            (some (c_str []))
            (some (c_str (codes "out.pcap")))
            idle
          ≡ returned true w)
        × (run_threads (schedule rounds) (started default_max_size (some tree) w.user) ≡ some p)
        × IsIdle w
        × (w.handler ≡ idle.handler)
        × IsOver p
        × Outputs (some (c_str (codes "out.pcap"))) (frame ∷ []) idle w
        × Prints (some tree) 0 (frame ∷ []) p.printed)
unfolding c_str
main_start-run_example =
    main_start-run disk (λ content bytes. refl) calls refl refl refl refl refl refl refl
      ((omega arith, omega arith, omega arith), tt) (frame-IsCaught, tt) true by_flag (some entries)
      nothing_entered {prog = none} idle rounds starts (unfold choose_filter in refl) (omega arith)
      (record { socket_closed = refl; file_closed = refl; not_active = refl }) refl
      (All-replicate IsFair (Memᴰ.tail (Memᴰ.head refl), Memᴰ.head refl) 4) (omega arith)

abbrev parsed_options : Options
parsed_options = record no_options {
  cli_iface = codes "eth0";
  have_iface = true;
  cli_display_filter = codes "tcp.port == 443";
  cli_pcap_path = codes "out.pcap";
}

parses : parse_args no_options by_flag ≡ options parsed_options
unfolding parse_args same_bytes
parses = refl

main_start-defined_example :
    main_start true by_flag (some entries) nothing_entered ≢ undefined_start
main_start-defined_example =
    main_start-defined true by_flag (some entries) nothing_entered parsed_options parses
      (omega arith) (omega arith)
