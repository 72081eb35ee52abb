-- ===== src/Queue.antt =====
-- src/cpp/packet_queue.cpp. A call is the critical section that it runs once its wait is over; what
-- the threads do is a sequence of such calls.
pub mod Fifo
mod Tests
use my_wireshark.Base.{
  ◌>>=◌, ℕ, Bool, true, false, ◌||◌, not, List, [], ◌∷◌, ◌++◌, Option, none, some, ltb,
  if◌then◌else◌, length,
}

pub record CapturedFrame : Type 0 where
  pub contents : List ℕ
  pub ts_seconds : ℕ
  pub ts_microseconds : ℕ

pub record PacketQueue : Type 0 where
  pub queue : List CapturedFrame
  pub max_size : ℕ
  pub closed : Bool

abbrev pub packet_queue : ℕ → PacketQueue
packet_queue n = record { queue = []; max_size = n; closed = false }

-- `none` is a thread that waits.
unfoldable pub push : PacketQueue → CapturedFrame → Option PacketQueue
push q frame =
    if ltb (length q.queue) q.max_size || q.closed
    then (if q.closed then some q else some (record q { queue = q.queue ++ frame ∷ [] }))
    else none

-- The frame given, `none` for a return of false, and the queue after.
abbrev pub pop_front :
    PacketQueue → List CapturedFrame → Option (Option CapturedFrame × PacketQueue)
pop_front q [] = if q.closed then some (none, q) else none
pop_front q (frame ∷ rest) = some (some frame, record q { queue = rest })

unfoldable pub pop : PacketQueue → Option (Option CapturedFrame × PacketQueue)
pop q = pop_front q q.queue

unfoldable pub close : PacketQueue → PacketQueue
close q = record q { closed = true }

-- A call that a thread makes, and the queue with the frames that it has taken in and given out.
pub data Call : Type 0 where
  push_call : CapturedFrame → Call
  pop_call close_call : Call

pub record History : Type 0 where
  pub state : PacketQueue
  pub taken : List CapturedFrame
  pub given : List CapturedFrame

abbrev pub one : Option CapturedFrame → List CapturedFrame
one none = []
one (some frame) = frame ∷ []

unfoldable pub perform : Call → History → Option History
unfolding push pop close
perform (push_call frame) w = do
  q ← push w.state frame
  some (record {
    state = q;
    taken = if w.state.closed then w.taken else w.taken ++ frame ∷ [];
    given = w.given;
  })
perform pop_call w = do
  (out, q) ← pop w.state
  some (record { state = q; taken = w.taken; given = w.given ++ one out })
perform close_call w = some (record w { state = close w.state })

-- A sequence of calls none of which has to wait.
unfoldable pub perform_all : List Call → History → Option History
unfolding perform
perform_all [] w = some w
perform_all (c ∷ cs) w = do w' ← perform c w; perform_all cs w'

abbrev pub fresh : ℕ → History
fresh n = record { state = packet_queue n; taken = []; given = [] }
