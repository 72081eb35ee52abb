-- ===== src/Pipeline/Underway.antt =====
-- What holds between two turns of the threads of src/main.cpp.
use my_wireshark.Base.{
  ℕ, ◌+◌, ◌*◌, ◌%◌, ◌^◌, ◌≤◌, ◌<◌, ◌≡◌, Bool, true, false, not, List, [], ◌∷◌, ◌++◌, map, Option,
  arith, length, All, IsBytes,
}
use my_wireshark.Wire.{accepted}
use my_wireshark.Capture.{Frame, raw_socket_max_frame}
use my_wireshark.Disp.Node.{Node}
use my_wireshark.Printer.{Line, print_packet}
use my_wireshark.Pipeline.{captured, Threads, Turn, moved, waits, over, broken}

-- A frame as `raw_socket_recv` can give it.
pub record IsCaught (f : Frame) : Type 0 where
  pub bytes : IsBytes f.bytes
  pub short : length f.bytes ≤ raw_socket_max_frame

-- The frames are printed one by one: each has the next number, counted in 64 bits, and what
-- `print_packet` makes of it.
abbrev pub Prints : Option Node → ℕ → List Frame → List (ℕ × Option Line) → Type 0
Prints filter n [] [] = Unit
Prints filter n (f ∷ fs) ((number, line) ∷ rest) =
    (number ≡ (n + 1) % 2 ^ 64)
    × (print_packet f.bytes (length f.bytes) filter ≡ accepted line)
    × Prints filter (n + 1) fs rest
Prints filter n _ _ = ⊥

pub Prints-snoc :
    (filter : Option Node) (n : ℕ) (fs : List Frame) (ls : List (ℕ × Option Line)) (f : Frame)
    (number : ℕ) (line : Option Line)
    → Prints filter n fs ls
    → number ≡ (n + length fs + 1) % 2 ^ 64
    → print_packet f.bytes (length f.bytes) filter ≡ accepted line
    → Prints filter n (fs ++ f ∷ []) (ls ++ (number, line) ∷ [])
Prints-snoc filter n [] [] f number line h e q = (omega (arith, e), q, tt)
Prints-snoc filter n [] (l ∷ ls) f number line h e q = absurd h
Prints-snoc filter n (g ∷ fs) [] f number line h e q = absurd h
Prints-snoc filter n (g ∷ fs) ((k, l) ∷ ls) f number line (a, b, h) e q =
    (a, b, Prints-snoc filter (n + 1) fs ls f number line h (omega (arith, e)) q)

abbrev pub flag : Bool → ℕ
flag true = 1
flag false = 0

-- How many turns the threads can still take.
abbrev pub work : Threads → ℕ
work p = 2 * length p.ahead + length p.buffer.queue + flag p.capturing + flag p.printing

module _ (filter : Option Node) (max_size : ℕ) (frames : List Frame) where
  -- The frames are those printed, those in the queue and those ahead, in this order.
  pub record IsUnderway (p : Threads) : Type 0 where
    pub done : List Frame
    pub queued : List Frame
    pub order : frames ≡ done ++ (queued ++ p.ahead)
    pub queue_holds : p.buffer.queue ≡ map captured queued
    pub bound : length p.buffer.queue ≤ max_size
    pub size : p.buffer.max_size ≡ max_size
    pub closing : p.buffer.closed ≡ not p.capturing
    pub prints : Prints filter 0 done p.printed
    pub count : p.ctx.count ≡ length done % 2 ^ 64
    pub filter_kept : p.ctx.filter ≡ filter
    pub caught_queued : All IsCaught queued
    pub caught_ahead : All IsCaught p.ahead
    pub none_ahead : p.capturing ≡ false → p.ahead ≡ []
    pub none_queued : p.printing ≡ false → (p.capturing ≡ false) × (queued ≡ [])

  -- A turn keeps that, reads nothing outside a frame, and is one of the turns that were left.
  abbrev pub Goes : Threads → Turn → Type 0
  Goes p (moved p') = IsUnderway p' × (work p' < work p)
  Goes p waits = Unit
  Goes p over = Unit
  Goes p broken = ⊥
