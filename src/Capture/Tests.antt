-- ===== src/Capture/Tests.antt =====
-- Runs of src/c/capture_backend_linux.c, and its theorems applied to them.
use my_wireshark.Base.{
  ℕ, ◌+◌, ◌≡◌, inr, refl, Bool, true, false, List, [], ◌∷◌, ◌++◌, Option, none, some, arith, leb,
  length, replicate,
}
use my_wireshark.Base.Text.{codes, same_bytes}
use my_wireshark.Cap.Node.{ethertype}
use my_wireshark.Cap.Insn.{Insn}
use my_wireshark.Cap.Codegen.{compile_node, gen_push, pl_resolve, push_all, emit_leaf}
use my_wireshark.Cap.Compile.{capfilter_compile}
use my_wireshark.Cap.Correct.{program_of}
use my_wireshark.Capture.{
  other, Frame, received, stopped, Calls, World, chosen, choose_filter, run_impl,
}
use my_wireshark.Capture.Loop.{IsIdle}
use my_wireshark.Capture.Runs.{RunEnds, run_impl-RunEnds}

abbrev first : Frame
first = record { bytes = replicate 14 1; ts_seconds = 1_700_000_000; ts_microseconds = 999_999 }

abbrev second : Frame
second = record { bytes = 1 ∷ 2 ∷ 3 ∷ []; ts_seconds = 1_700_000_001; ts_microseconds = 0 }

abbrev calls : Calls
calls = record {
  alloc = true;
  opens = true;
  attaches = true;
  fopens = true;
  installs = true;
  restores = true;
  fcloses = true;
  recvs = received first ∷ received second ∷ stopped ∷ [];
  stats = some (2, 0);
}

-- The callback keeps the lengths.
abbrev cb : Frame → List ℕ → List ℕ
cb f lengths = lengths ++ length f.bytes ∷ []

abbrev idle : World (List ℕ)
idle = record {
  socket_open = false;
  filter = none;
  file_open = false;
  stream = [];
  file = none;
  handler = other 7;
  active = false;
  last_stats = none;
  user = [];
}

idle-IsIdle : IsIdle idle
idle-IsIdle = record { socket_closed = refl; file_closed = refl; not_active = refl }

-- A disk with room for 60 bytes, and one without a bound.
abbrev small_disk : List ℕ → List ℕ → Bool × List ℕ
small_disk content bytes = (leb (length content + length bytes) 60, content ++ bytes)

abbrev disk : List ℕ → List ℕ → Bool × List ℕ
disk content bytes = (true, content ++ bytes)

abbrev path : Option (List ℕ)
path = some (codes "out.pcap")

abbrev text : Option (List ℕ)
text = some (codes "arp")

abbrev prog : List Insn
unfolding program_of
prog = program_of (ethertype 0x0806)

compiles : choose_filter true text ≡ chosen (some prog)
unfolding choose_filter program_of same_bytes compile_node gen_push pl_resolve push_all emit_leaf
    capfilter_compile
compiles = refl

run_impl-RunEnds_example : RunEnds cb calls path idle (run_impl cb small_disk calls text path idle)
run_impl-RunEnds_example =
    run_impl-RunEnds cb small_disk (λ content bytes. inr refl) calls
      ((omega arith, omega arith, omega arith), ((omega arith, omega arith, omega arith), tt)) text
      path idle idle-IsIdle (omega arith)
