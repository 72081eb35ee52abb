-- ===== src/Ring/Tests.antt =====
-- A ring for src/c/raw_socket.c, and its theorem applied to it.
use my_wireshark.Base.{
  ℕ, ◌==◌, if◌then◌else◌, true, false, [], ◌∷◌, Option, none, some, ◌≡◌, arith, List, ◌++◌, ◌+◌,
  Bool, refl, replicate,
}
use my_wireshark.Base.Text.{codes}
use my_wireshark.Capture.{
  other, Frame, raw_socket_max_frame, Calls, World, returned, choose_filter, run_impl,
}
use my_wireshark.Capture.Loop.{callbacks, IsIdle}
use my_wireshark.Capture.Runs.{Outputs}
use my_wireshark.Ring.Feed.{results, packets}
use my_wireshark.Ring.Whole.{run_impl-ring}
use my_wireshark.Ring.{PacketHeader, Block, RawSocketCtx, woken}
use my_wireshark.Ring.Lap.{
  Filled, returned_block, given_back, place_after, frames_of, receive_blocks, raw_socket_recv-laps,
}

abbrev first : PacketHeader
first = record {
  tp_next_offset = 96;
  tp_snaplen = 14;
  tp_sec = 1_700_000_000;
  tp_nsec = 5_999;
  frame = replicate 16 1;
}

abbrev second : PacketHeader
second = record {
  tp_next_offset = 0;
  tp_snaplen = 3;
  tp_sec = 1_700_000_001;
  tp_nsec = 0;
  frame = replicate 4 2;
}

abbrev headers : ℕ → Option PacketHeader
headers off = if off == 48 then some first else if off == 144 then some second else none

abbrev closed : Block
closed = record { is_user = true; num_pkts = 2; offset_to_first_pkt = 48; header_at = headers }

abbrev single : Block
single = record { is_user = true; num_pkts = 1; offset_to_first_pkt = 144; header_at = headers }

-- Both blocks are closed, and the cursor is before the last one.
abbrev two_closed : RawSocketCtx
two_closed = record {
  stop_requested = false;
  ring = single ∷ closed ∷ [];
  cur_block = 1;
  cur_pkt_idx = 0;
  cur_pkt_offset = 0;
  cur_num_pkts = 0;
}

abbrev filled : List Filled
filled =
    record { block = closed; first = first; others = second ∷ [] }
    ∷ record { block = single; first = second; others = [] }
    ∷ []

raw_socket_recv-laps_example :
    (c : RawSocketCtx) × (receive_blocks 0 65536 [] filled two_closed
      ≡ some (frames_of 65536 filled, c))
    × (c.ring ≡ given_back two_closed.ring 1 filled)
    × (c.cur_block ≡ place_after 2 1 filled)
    × (c.cur_pkt_idx ≡ 0)
    × (c.stop_requested ≡ false)
raw_socket_recv-laps_example =
    raw_socket_recv-laps 0 65536 [] filled two_closed refl refl (omega arith) (omega arith)
      (refl, refl, refl, (refl, (refl, tt)), (refl, refl, refl, (refl, tt), tt))

abbrev woken_up : RawSocketCtx
woken_up = record two_closed { stop_requested = true }

abbrev calls : Calls
calls = record {
  alloc = true;
  opens = true;
  attaches = true;
  fopens = true;
  installs = true;
  restores = true;
  fcloses = true;
  recvs = results 2 raw_socket_max_frame (woken woken_up ∷ []) (packets filled + 1) two_closed;
  stats = some (3, 0);
}

-- The callback counts the frames.
abbrev count : Frame → ℕ → ℕ
count f n = n + 1

abbrev idle : World ℕ
idle = record {
  socket_open = false;
  filter = none;
  file_open = false;
  stream = [];
  file = none;
  handler = other 7;
  active = false;
  last_stats = none;
  user = 0;
}

abbrev disk : List ℕ → List ℕ → Bool × List ℕ
disk content bytes = (true, content ++ bytes)

abbrev path : Option (List ℕ)
path = some (codes "out.pcap")

run_impl-ring_example :
    (w : World ℕ) × (run_impl count disk calls none path idle ≡ returned true w)
    × IsIdle w
    × (w.handler ≡ idle.handler)
    × (w.user ≡ callbacks count (frames_of raw_socket_max_frame filled) 0)
    × Outputs path (frames_of raw_socket_max_frame filled) idle w
run_impl-ring_example =
    run_impl-ring count disk (λ content bytes. refl) calls refl refl refl refl refl refl 0 [] filled
      two_closed woken_up (returned_block closed) none path idle {prog = none} refl refl refl
      (omega arith) (omega arith)
      (refl, refl, refl, (refl, (refl, tt)), (refl, refl, refl, (refl, tt), tt)) refl refl refl
      (omega arith) (unfold choose_filter in refl) tt
      (record { socket_closed = refl; file_closed = refl; not_active = refl })
