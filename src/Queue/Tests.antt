-- ===== src/Queue/Tests.antt =====
-- Two frames through a queue of one, and the theorems about src/cpp/packet_queue.cpp applied to it.
use my_wireshark.Base.{◌≡◌, ◌≤◌, refl, true, false, List, [], ◌∷◌, ◌++◌, some, none, length}
use my_wireshark.Queue.{
  CapturedFrame, PacketQueue, push, Call, push_call, pop_call, close_call, History, perform_all,
  fresh,
}
use my_wireshark.Queue.Fifo.{perform_all-fifo}

abbrev first : CapturedFrame
first = record { contents = 1 ∷ []; ts_seconds = 5; ts_microseconds = 0 }

abbrev second : CapturedFrame
second = record { contents = 2 ∷ []; ts_seconds = 5; ts_microseconds = 1 }

abbrev calls : List Call
calls = push_call first ∷ pop_call ∷ push_call second ∷ close_call ∷ []

abbrev end : History
end = record {
  state = record { queue = second ∷ []; max_size = 1; closed = true };
  taken = first ∷ second ∷ [];
  given = first ∷ [];
}

runs : perform_all calls (fresh 1) ≡ some end
unfolding perform_all
runs = refl

perform_all-fifo_example : (end.taken ≡ end.given ++ end.state.queue) × (length end.state.queue ≤ 1)
perform_all-fifo_example = perform_all-fifo 1 calls runs

abbrev full : PacketQueue
full = record { queue = first ∷ []; max_size = 1; closed = false }

full_waits : push full second ≡ none
unfolding push
full_waits = refl
