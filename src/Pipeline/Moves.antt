-- ===== src/Pipeline/Moves.antt =====
-- One of the threads of src/main.cpp can always go on, until both have ended.
use my_wireshark.Base.{
  ℕ, ◌<◌, ◌≡◌, refl, ap, ◌∙◌, ◌⊎◌, inl, inr, Bool, true, false, ◌||◌, not, List, [], ◌∷◌, ◌++◌,
  Option, none, some, arith, ltb, ltb→le, if◌then◌else◌, length,
}
use my_wireshark.Capture.{Frame}
use my_wireshark.Queue.{CapturedFrame, PacketQueue, push, pop, pop_front, close}
use my_wireshark.Disp.Node.{Node}
use my_wireshark.Wire.{Parse, accepted, rejected, fault}
use my_wireshark.Printer.{Line, PacketPrinterContext}
use my_wireshark.Printer.Decode.{IsFilter}
use my_wireshark.Pipeline.{
  captured, Threads, Turn, moved, over, pushed, shown, capture_turn, popped, main_turn,
  capture_thread, main_thread, turn, IsOver,
}
use my_wireshark.Pipeline.Underway.{IsUnderway, Goes}
use my_wireshark.Pipeline.Steps.{turn-Goes}

-- A turn that is neither a wait nor over.
abbrev pub IsMove : Turn → Type 0
IsMove (moved p) = Unit
IsMove _ = ⊥

module _ (filter : Option Node) (typed : IsFilter filter) (max_size : ℕ) (room : 0 < max_size)
    (frames : List Frame) where
  abbrev Kept : Threads → Type 0
  Kept = IsUnderway filter max_size frames

  shown-IsMove :
      (p : Threads) (q : PacketQueue) (r : Parse (PacketPrinterContext × ℕ × Option Line))
      → Goes filter max_size frames p (shown p q r)
      → IsMove (shown p q r)
  shown-IsMove p q (accepted a) g = tt
  shown-IsMove p q rejected g = g
  shown-IsMove p q fault g = g

  -- A queue that is closed, or has a frame, lets the main thread move.
  main_turn-IsMove :
      (p : Threads)
      → Kept p
      → p.printing ≡ true
      → (p.buffer.closed ≡ true) ⊎ (0 < length p.buffer.queue)
      → IsMove (turn main_thread p)
  unfolding turn main_turn pop popped
  main_turn-IsMove p i on h = turns p.printing on (
      go p.buffer.queue h
        (turns-Goes p.printing on (turn-Goes filter typed max_size frames main_thread p i)))
    where
      turns :
          (b : Bool)
          → b ≡ true
          → IsMove (popped p (pop_front p.buffer p.buffer.queue))
          → IsMove (if b then popped p (pop_front p.buffer p.buffer.queue) else over)
      turns true e m = m
      turns false e m = cc

      turns-Goes :
          (b : Bool)
          → b ≡ true
          → Goes filter max_size frames p
              (if b then popped p (pop_front p.buffer p.buffer.queue) else over)
          → Goes filter max_size frames p (popped p (pop_front p.buffer p.buffer.queue))
      turns-Goes true e g = g
      turns-Goes false e g = cc

      closed : (b : Bool) → b ≡ true → IsMove (popped p (if b then some (none, p.buffer) else none))
      closed true e = tt
      closed false e = cc

      go :
          (xs : List CapturedFrame)
          → (p.buffer.closed ≡ true) ⊎ (0 < length xs)
          → Goes filter max_size frames p (popped p (pop_front p.buffer xs))
          → IsMove (popped p (pop_front p.buffer xs))
      go [] (inl c) g = closed p.buffer.closed c
      go [] (inr c) g = absurd (omega (arith, c))
      go (x ∷ xs) c g = shown-IsMove p _ _ g

  -- While it captures, the capture thread moves, or the queue has a frame.
  capture_turn-IsMove :
      (p : Threads)
      → Kept p
      → p.capturing ≡ true
      → IsMove (turn capture_thread p) ⊎ (0 < length p.buffer.queue)
  unfolding turn capture_turn push
  capture_turn-IsMove p i on = go p.ahead refl
    where
      closes :
          (b : Bool)
          → b ≡ true
          → IsMove
              (if b then moved (record p { buffer = close p.buffer; capturing = false }) else over)
      closes true e = tt
      closes false e = cc

      pushes :
          (f : Frame) (rest : List Frame) (b c : Bool)
          → ltb (length p.buffer.queue) p.buffer.max_size ≡ b
          → IsMove (
              pushed p rest (
                if b || c
                then (if c
                    then some p.buffer
                    else some (record p.buffer { queue = p.buffer.queue ++ captured f ∷ [] }))
                else none))
            ⊎ (0 < length p.buffer.queue)
      pushes f rest true true t = inl tt
      pushes f rest true false t = inl tt
      pushes f rest false true t = inl tt
      pushes f rest false false t =
          inr (omega (arith, ltb→le (length p.buffer.queue) p.buffer.max_size t, i.size, room))

      go :
          (fs : List Frame)
          → p.ahead ≡ fs
          → IsMove (capture_turn p fs) ⊎ (0 < length p.buffer.queue)
      go [] e = inl (closes p.capturing on)
      go (f ∷ rest) e =
          pushes f rest (ltb (length p.buffer.queue) p.buffer.max_size) p.buffer.closed refl

  -- No deadlock: until both threads have ended, one of them moves.
  pub progress :
      (p : Threads)
      → Kept p
      → IsOver p ⊎ (IsMove (turn capture_thread p) ⊎ IsMove (turn main_thread p))
  progress p i = go p.capturing p.printing refl refl
    where
      go :
          (b c : Bool)
          → p.capturing ≡ b
          → p.printing ≡ c
          → IsOver p ⊎ (IsMove (turn capture_thread p) ⊎ IsMove (turn main_thread p))
      go false false x y = inl (x, y)
      go true false x y = cc (x, (i.none_queued y).0)
      go false true x y = inr (inr (main_turn-IsMove p i y (inl (i.closing ∙ ap not x))))
      go true true x y = elim (capture_turn-IsMove p i x) [
        | inl m ↦ inr (inl m)
        | inr k ↦ inr (inr (main_turn-IsMove p i y (inr k)))
      ]
