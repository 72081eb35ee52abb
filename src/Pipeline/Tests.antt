-- ===== src/Pipeline/Tests.antt =====
-- Two frames through the threads of src/main.cpp, and the theorems about them applied.
use mathlib.Core.List.{Memᴰ}
use my_wireshark.Base.{
  ℕ, ◌≡◌, refl, Bool, true, false, List, [], ◌∷◌, ◌++◌, Option, none, some, arith, replicate, All,
  All-replicate, IsBytes-test, all_test,
}
use my_wireshark.Base.Text.{codes}
use my_wireshark.Capture.{
  other, Frame, received, stopped, Calls, World, returned, choose_filter, run_impl,
}
use my_wireshark.Capture.Loop.{frames, IsIdle}
use my_wireshark.Capture.Runs.{Outputs}
use my_wireshark.Pipeline.{
  Threads, Thread, capture_thread, main_thread, run_threads, started, IsOver,
}
use my_wireshark.Pipeline.Underway.{IsCaught, Prints}
use my_wireshark.Pipeline.Order.{Accounts, run_threads-Accounts}
use my_wireshark.Pipeline.Live.{IsFair, schedule, rounds-print}
use my_wireshark.Pipeline.Whole.{gather, capture-print}

abbrev first : Frame
first = record { bytes = replicate 14 1; ts_seconds = 1_700_000_000; ts_microseconds = 999_999 }

abbrev second : Frame
second = record { bytes = 1 ∷ 2 ∷ 3 ∷ []; ts_seconds = 1_700_000_001; ts_microseconds = 0 }

abbrev two : List Frame
two = first ∷ second ∷ []

two-IsCaught : All IsCaught two
two-IsCaught = (
  record { bytes = IsBytes-test first.bytes (unfold all_test in refl); short = omega arith },
  (record { bytes = IsBytes-test second.bytes (unfold all_test in refl); short = omega arith }, tt),
)

abbrev turns : List Thread
turns = main_thread ∷ capture_thread ∷ capture_thread ∷ main_thread ∷ []

run_threads-Accounts_example :
    (p : Threads) × (run_threads turns (started 1 none two) ≡ some p) × Accounts none 1 two p
run_threads-Accounts_example = run_threads-Accounts none tt 1 two two-IsCaught turns

-- The main thread is first in each round, and mostly waits.
abbrev rounds : List (List Thread)
rounds = replicate 6 (main_thread ∷ main_thread ∷ capture_thread ∷ [])

rounds-IsFair : All IsFair rounds
rounds-IsFair = All-replicate IsFair (Memᴰ.tail (Memᴰ.tail (Memᴰ.head refl)), Memᴰ.head refl) 6

rounds-print_example :
    (p : Threads) × (run_threads (schedule rounds) (started 1 none two) ≡ some p)
    × IsOver p
    × (p.buffer.queue ≡ [])
    × Prints none 0 two p.printed
rounds-print_example =
    rounds-print none tt 1 (omega arith) two two-IsCaught rounds rounds-IsFair (omega arith)

abbrev calls : Calls
calls = record {
  alloc = true;
  opens = true;
  attaches = true;
  fopens = true;
  installs = true;
  restores = true;
  fcloses = true;
  recvs = received first ∷ received second ∷ stopped ∷ [];
  stats = some (2, 0);
}

abbrev idle : World (List Frame)
idle = record {
  socket_open = false;
  filter = none;
  file_open = false;
  stream = [];
  file = none;
  handler = other 7;
  active = false;
  last_stats = none;
  user = [];
}

abbrev disk : List ℕ → List ℕ → Bool × List ℕ
disk content bytes = (true, content ++ bytes)

abbrev path : Option (List ℕ)
path = some (codes "out.pcap")

capture-print_example :
    (w : World (List Frame)) × (p : Threads) × (run_impl gather disk calls none path idle
      ≡ returned true w)
    × (run_threads (schedule rounds) (started 1 none w.user) ≡ some p)
    × IsIdle w
    × (w.handler ≡ idle.handler)
    × IsOver p
    × Outputs path (frames calls.recvs) idle w
    × Prints none 0 (frames calls.recvs) p.printed
capture-print_example =
    capture-print disk (λ content bytes. refl) calls refl refl refl refl refl refl refl
      ((omega arith, omega arith, omega arith), ((omega arith, omega arith, omega arith), tt))
      two-IsCaught none tt 1 (omega arith) none path idle rounds {prog = none}
      (unfold choose_filter in refl) tt
      (record { socket_closed = refl; file_closed = refl; not_active = refl }) refl rounds-IsFair
      (omega arith)
