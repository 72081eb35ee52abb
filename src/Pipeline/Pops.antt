-- ===== src/Pipeline/Pops.antt =====
-- The turns of the main thread of src/main.cpp.
use my_wireshark.Base.{
  ℕ, ◌+◌, ◌%◌, ◌^◌, ◌≡◌, refl, sym, ap, ap₂, ◌∙◌, inl, inr, subst, Bool, true, false, not, List, [],
  ◌∷◌, ◌++◌, map, append_assoc, Option, none, some, arith, if◌then◌else◌, length, length-append,
  All,
}
use my_wireshark.Wire.{Parse, accepted, ◌>>=◌}
use my_wireshark.Capture.{Frame}
use my_wireshark.Queue.{CapturedFrame, PacketQueue, pop, pop_front}
use my_wireshark.Disp.Node.{Node}
use my_wireshark.Printer.{Line, PacketPrinterContext, print_packet, packet_printer_callback}
use my_wireshark.Printer.Decode.{IsFilter, print_packet-Selects}
use my_wireshark.Pipeline.{captured, Threads, Turn, shown, popped}
use my_wireshark.Pipeline.Underway.{IsCaught, Prints-snoc, flag, IsUnderway, Goes}

-- The callback on a frame: the count goes up by one, and the line is that of `print_packet`.
callback-prints :
    (filter : Option Node)
    → IsFilter filter
    → (ctx : PacketPrinterContext) (f : Frame) → ctx.filter ≡ filter
    → IsCaught f
    → (line : Option Line) × (packet_printer_callback f.bytes (length f.bytes % 2 ^ 32) ctx
        ≡ accepted
            (record ctx { count = (ctx.count + 1) % 2 ^ 64 }, (ctx.count + 1) % 2 ^ 64, line))
      × (print_packet f.bytes (length f.bytes) filter ≡ accepted line)
unfolding packet_printer_callback
callback-prints filter typed ctx f kept caught =
    let (_, found, _, _, _, shows) =
      print_packet-Selects f.bytes (length f.bytes) caught.bytes (omega arith) caught.short filter
        typed in
    elim shows [ inl (_, q) ↦ from (some found) q | inr (_, q) ↦ from none q ]
  where
    number : ℕ
    number = (ctx.count + 1) % 2 ^ 64

    fits : length f.bytes % 2 ^ 32 ≡ length f.bytes
    fits = omega (arith, caught.short)

    from :
        (line : Option Line)
        → print_packet f.bytes (length f.bytes) filter ≡ accepted line
        → (l : Option Line) × (packet_printer_callback f.bytes (length f.bytes % 2 ^ 32) ctx
            ≡ accepted (record ctx { count = number }, number, l))
          × (print_packet f.bytes (length f.bytes) filter ≡ accepted l)
    from line q = (
      line,
      ap
          (λ (r : Parse (Option Line)).
            r >>= λ l. accepted (record ctx { count = number }, number, l))
          (ap₂ (print_packet f.bytes) fits kept ∙ q),
      q,
    )

module _ (filter : Option Node) (typed : IsFilter filter) (max_size : ℕ) (frames : List Frame) where
  abbrev Kept : Threads → Type 0
  Kept = IsUnderway filter max_size frames

  abbrev Fine : Threads → Turn → Type 0
  Fine = Goes filter max_size frames

  popped-Goes :
      (p : Threads) (f : Frame) (rest : List Frame) (xs : List CapturedFrame) (i : Kept p)
      → p.printing ≡ true
      → i.queued ≡ f ∷ rest
      → p.buffer.queue ≡ captured f ∷ xs
      → xs ≡ map captured rest
      → Fine p (popped p (some (some (captured f), record p.buffer { queue = xs })))
  unfolding popped
  popped-Goes p f rest xs i on e holds tail =
      let (line, q, r) = callback-prints filter typed p.ctx f i.filter_kept caught.0 in
      subst (λ (o : Parse (PacketPrinterContext × ℕ × Option Line)). Fine p (shown p q₁ o)) (sym q)
        (
          record {
            done = i.done ++ f ∷ [];
            queued = rest;
            order =
                i.order
                ∙ ap (λ (fs : List Frame). i.done ++ (fs ++ p.ahead)) e
                ∙ sym (append_assoc i.done (f ∷ []) (rest ++ p.ahead));
            queue_holds = tail;
            bound = omega (arith, i.bound, ap length holds);
            size = i.size;
            closing = i.closing;
            prints =
                Prints-snoc filter 0 i.done p.printed f ((p.ctx.count + 1) % 2 ^ 64) line i.prints
                  (omega (arith, i.count)) r;
            count = omega (arith, i.count, length-append i.done (f ∷ []));
            filter_kept = i.filter_kept;
            caught_queued = caught.1;
            caught_ahead = i.caught_ahead;
            none_ahead = i.none_ahead;
            none_queued = λ h. cc (h, on);
          },
          omega (arith, ap length holds),
        )
    where
      q₁ : PacketQueue
      q₁ = record p.buffer { queue = xs }

      caught : IsCaught f × All IsCaught rest
      caught = subst (All IsCaught) e i.caught_queued

  closed-stopped : (b : Bool) → not b ≡ true → b ≡ false
  closed-stopped true h = cc
  closed-stopped false h = refl

  -- The queue is not empty exactly if the invariant's list of its frames is not.
  pub pop-Goes : (p : Threads) → Kept p → p.printing ≡ true → Fine p (popped p (pop p.buffer))
  unfolding pop popped
  pop-Goes p i on = go p.buffer.queue i.queued refl refl i.queue_holds
    where
      ended : i.queued ≡ [] → p.buffer.closed ≡ true → Fine p (popped p (some (none, p.buffer)))
      ended e c = (
        record {
          done = i.done;
          queued = i.queued;
          order = i.order;
          queue_holds = i.queue_holds;
          bound = i.bound;
          size = i.size;
          closing = i.closing;
          prints = i.prints;
          count = i.count;
          filter_kept = i.filter_kept;
          caught_queued = i.caught_queued;
          caught_ahead = i.caught_ahead;
          none_ahead = i.none_ahead;
          none_queued = λ _. (closed-stopped p.capturing (sym i.closing ∙ c), e);
        },
        omega (arith, ap flag on),
      )

      empty :
          (b : Bool)
          → p.buffer.closed ≡ b
          → i.queued ≡ []
          → Fine p (popped p (if b then some (none, p.buffer) else none))
      empty true c e = ended e c
      empty false c e = tt

      go :
          (xs : List CapturedFrame) (fs : List Frame)
          → p.buffer.queue ≡ xs
          → i.queued ≡ fs
          → xs ≡ map captured fs
          → Fine p (popped p (pop_front p.buffer xs))
      go [] [] a b e = empty p.buffer.closed refl b
      go [] (f ∷ fs) a b e = cc
      go (x ∷ xs) [] a b e = cc
      go (x ∷ xs) (f ∷ fs) a b e =
          let first : captured f ≡ x = cc in
          let second : xs ≡ map captured fs = cc in
          let holds : p.buffer.queue ≡ captured f ∷ xs = cc in
          subst
            (λ (y : CapturedFrame).
              Fine p (popped p (some (some y, record p.buffer { queue = xs }))))
            first (popped-Goes p f fs xs i on b holds second)
