-- ===== src/Pipeline/Steps.antt =====
-- What a turn of a thread of src/main.cpp does to what holds between two turns.
use my_wireshark.Base.{ℕ, ◌≡◌, refl, Bool, true, false, List, Option, if◌then◌else◌}
use my_wireshark.Capture.{Frame}
use my_wireshark.Queue.{pop}
use my_wireshark.Disp.Node.{Node}
use my_wireshark.Printer.Decode.{IsFilter}
use my_wireshark.Pipeline.{
  Threads, Turn, over, popped, main_turn, Thread, capture_thread, main_thread, turn,
}
use my_wireshark.Pipeline.Underway.{IsUnderway, Goes}
use my_wireshark.Pipeline.Pushes.{capture_turn-Goes}
use my_wireshark.Pipeline.Pops.{pop-Goes}

module _ (filter : Option Node) (typed : IsFilter filter) (max_size : ℕ) (frames : List Frame) where
  abbrev Kept : Threads → Type 0
  Kept = IsUnderway filter max_size frames

  abbrev Fine : Threads → Turn → Type 0
  Fine = Goes filter max_size frames

  pub turn-Goes : (t : Thread) (p : Threads) → Kept p → Fine p (turn t p)
  unfolding turn main_turn
  turn-Goes capture_thread p i = capture_turn-Goes filter max_size frames p i
  turn-Goes main_thread p i = go p.printing refl
    where
      go : (b : Bool) → p.printing ≡ b → Fine p (if b then popped p (pop p.buffer) else over)
      go true on = pop-Goes filter typed max_size frames p i on
      go false on = tt
