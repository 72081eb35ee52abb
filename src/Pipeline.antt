-- ===== src/Pipeline.antt =====
-- The two threads of src/main.cpp: the capture thread, which pushes the frames that the capture
-- gives it into the queue and then closes it, and the main thread, which prints the frames that it
-- pops. The queue's lock makes a call on it one step; which thread takes the next step is free.
pub mod Underway
pub mod Pushes
pub mod Pops
pub mod Steps
pub mod Order
pub mod Moves
pub mod Live
pub mod Whole
mod Tests
use my_wireshark.Base.{
  ℕ, ◌%◌, ◌^◌, ◌≡◌, Bool, true, false, List, [], ◌∷◌, ◌++◌, Option, none, some, if◌then◌else◌,
  length,
}
use my_wireshark.Wire.{Parse, accepted, rejected, fault}
use my_wireshark.Capture.{Frame}
use my_wireshark.Queue.{CapturedFrame, PacketQueue, packet_queue, push, pop, close}
use my_wireshark.Disp.Node.{Node}
use my_wireshark.Printer.{Line, PacketPrinterContext, packet_printer_callback}

-- The frame that `PacketQueue::push` copies the bytes to.
abbrev pub captured : Frame → CapturedFrame
captured f = record {
  contents = f.bytes;
  ts_seconds = f.ts_seconds;
  ts_microseconds = f.ts_microseconds;
}

-- `ahead` holds the frames that `capture_backend_run` has yet to give to its callback, and
-- `printed` the numbers and lines that `packet_printer_callback` has printed. A thread has ended
-- once `capturing` or `printing` is false.
pub record Threads : Type 0 where
  pub ahead : List Frame
  pub capturing : Bool
  pub buffer : PacketQueue
  pub ctx : PacketPrinterContext
  pub printed : List (ℕ × Option Line)
  pub printing : Bool

-- What a turn of a thread does: a step, a wait on the queue, nothing as the thread has ended, or a
-- read outside the frame.
pub data Turn : Type 0 where
  moved : Threads → Turn
  waits over broken : Turn

abbrev pub queue_push_callback : Frame → PacketQueue → Option PacketQueue
queue_push_callback f q = push q (captured f)

abbrev pub pushed : Threads → List Frame → Option PacketQueue → Turn
pushed p rest none = waits
pushed p rest (some q) = moved (record p { ahead = rest; buffer = q })

-- The capture thread, before the frames that are ahead.
unfoldable pub capture_turn : Threads → List Frame → Turn
capture_turn p [] =
    if p.capturing then moved (record p { buffer = close p.buffer; capturing = false }) else over
capture_turn p (f ∷ rest) = pushed p rest (queue_push_callback f p.buffer)

abbrev pub shown : Threads → PacketQueue → Parse (PacketPrinterContext × ℕ × Option Line) → Turn
shown p q (accepted (ctx, number, line)) =
    moved (record p { buffer = q; ctx = ctx; printed = p.printed ++ (number, line) ∷ [] })
shown p q rejected = broken
shown p q fault = broken

-- The body of the main thread's loop, on what `pop` gave.
unfoldable pub popped : Threads → Option (Option CapturedFrame × PacketQueue) → Turn
popped p none = waits
popped p (some (none, q)) = moved (record p { buffer = q; printing = false })
popped p (some (some frame, q)) =
    shown p q (packet_printer_callback frame.contents (length frame.contents % 2 ^ 32) p.ctx)

unfoldable pub main_turn : Threads → Turn
main_turn p = if p.printing then popped p (pop p.buffer) else over

pub data Thread : Type 0 where
  capture_thread main_thread : Thread

unfoldable pub turn : Thread → Threads → Turn
unfolding capture_turn main_turn
turn capture_thread p = capture_turn p p.ahead
turn main_thread p = main_turn p

abbrev pub after : Threads → Turn → Option Threads
after p (moved p') = some p'
after p waits = some p
after p over = some p
after p broken = none

-- The turns that the threads get, in their order.
unfoldable pub run_threads : List Thread → Threads → Option Threads
unfolding turn
run_threads [] p = some p
run_threads (t ∷ ts) p = elim (after p (turn t p)) [ none ↦ none | some p' ↦ run_threads ts p' ]

-- The threads as `main` starts them, with a queue of the given bound.
abbrev pub started : ℕ → Option Node → List Frame → Threads
started max_size filter frames = record {
  ahead = frames;
  capturing = true;
  buffer = packet_queue max_size;
  ctx = record { count = 0; filter = filter };
  printed = [];
  printing = true;
}

-- Both threads have ended.
abbrev pub IsOver : Threads → Type 0
IsOver p = (p.capturing ≡ false) × (p.printing ≡ false)
