-- ===== src/Pipeline/Pushes.antt =====
-- The turns of the capture thread of src/main.cpp.
use mathlib.Core.List.{map-append}
use my_wireshark.Base.{
  ℕ, ◌≡◌, refl, sym, ap, ◌∙◌, subst, Bool, true, false, not, ◌||◌, List, [], ◌∷◌, ◌++◌,
  append_assoc, Option, none, some, arith, ltb, ltb→lt, if◌then◌else◌, length, length-append, All,
  All-snoc,
}
use my_wireshark.Capture.{Frame}
use my_wireshark.Queue.{CapturedFrame, push, close}
use my_wireshark.Disp.Node.{Node}
use my_wireshark.Pipeline.{captured, Threads, Turn, moved, over, pushed, capture_turn}
use my_wireshark.Pipeline.Underway.{IsCaught, flag, IsUnderway, Goes}

module _ (filter : Option Node) (max_size : ℕ) (frames : List Frame) where
  abbrev Kept : Threads → Type 0
  Kept = IsUnderway filter max_size frames

  abbrev Fine : Threads → Turn → Type 0
  Fine = Goes filter max_size frames

  capture_turn-end : (p : Threads) → Kept p → p.ahead ≡ [] → Fine p (capture_turn p [])
  unfolding capture_turn close
  capture_turn-end p i e = go p.capturing refl
    where
      go :
          (b : Bool)
          → p.capturing ≡ b
          → Fine p
              (if b then moved (record p { buffer = close p.buffer; capturing = false }) else over)
      go false c = tt
      go true c = (
        record {
          done = i.done;
          queued = i.queued;
          order = i.order;
          queue_holds = i.queue_holds;
          bound = i.bound;
          size = i.size;
          closing = refl;
          prints = i.prints;
          count = i.count;
          filter_kept = i.filter_kept;
          caught_queued = i.caught_queued;
          caught_ahead = i.caught_ahead;
          none_ahead = λ _. e;
          none_queued = λ h. (refl, (i.none_queued h).1);
        },
        omega (arith, ap flag c),
      )

  -- While frames are ahead the queue is not closed.
  pub ahead-closed :
      (p : Threads) (f : Frame) (rest : List Frame)
      → Kept p
      → p.ahead ≡ f ∷ rest
      → p.buffer.closed ≡ false
  ahead-closed p f rest i e = go p.capturing refl
    where
      go : (b : Bool) → p.capturing ≡ b → p.buffer.closed ≡ false
      go true c = i.closing ∙ ap not c
      go false c = cc (i.none_ahead c, e)

  pushed-Goes :
      (p : Threads) (f : Frame) (rest : List Frame)
      → Kept p
      → p.ahead ≡ f ∷ rest
      → p.buffer.closed ≡ false
      → Fine p (capture_turn p (f ∷ rest))
  unfolding capture_turn push
  pushed-Goes p f rest i e open_still =
      go (ltb (length p.buffer.queue) p.buffer.max_size) p.buffer.closed refl open_still
    where
      caught : IsCaught f × All IsCaught rest
      caught = subst (All IsCaught) e i.caught_ahead

      longer : List CapturedFrame
      longer = p.buffer.queue ++ captured f ∷ []

      go :
          (b c : Bool)
          → ltb (length p.buffer.queue) p.buffer.max_size ≡ b
          → c ≡ false
          → Fine p (
              pushed p rest (
                if b || c
                then (if c then some p.buffer else some (record p.buffer { queue = longer }))
                else none))
      go b true t c = cc
      go false false t c = tt
      go true false t c = (
        record {
          done = i.done;
          queued = i.queued ++ f ∷ [];
          order =
              i.order
              ∙ ap (λ (fs : List Frame). i.done ++ (i.queued ++ fs)) e
              ∙ ap (λ (fs : List Frame). i.done ++ fs) (sym (append_assoc i.queued (f ∷ []) rest));
          queue_holds =
              ap (λ (q : List CapturedFrame). q ++ captured f ∷ []) i.queue_holds
              ∙ sym (map-append captured i.queued (f ∷ []));
          bound = omega (
            arith,
            length-append p.buffer.queue (captured f ∷ []),
            ltb→lt (length p.buffer.queue) p.buffer.max_size t,
            i.size,
          );
          size = i.size;
          closing = i.closing;
          prints = i.prints;
          count = i.count;
          filter_kept = i.filter_kept;
          caught_queued = All-snoc IsCaught i.queued f i.caught_queued caught.0;
          caught_ahead = caught.1;
          none_ahead = λ h. cc (i.none_ahead h, e);
          none_queued = λ h. cc (i.none_ahead (i.none_queued h).0, e);
        },
        omega (arith, ap length e, length-append p.buffer.queue (captured f ∷ [])),
      )

  pub capture_turn-Goes : (p : Threads) → Kept p → Fine p (capture_turn p p.ahead)
  capture_turn-Goes p i = go p.ahead refl
    where
      go : (fs : List Frame) → p.ahead ≡ fs → Fine p (capture_turn p fs)
      go [] e = capture_turn-end p i e
      go (f ∷ rest) e = pushed-Goes p f rest i e (ahead-closed p f rest i e)
