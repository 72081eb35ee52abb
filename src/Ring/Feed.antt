-- ===== src/Ring/Feed.antt =====
-- What the loop of src/c/capture_backend_linux.c gets of the ring of src/c/raw_socket.c.
use native.Mathlib.Nat.{suc-add}
use mathlib.Core.List.{map-append}
use my_wireshark.Base.{
  ℕ, zero, suc, ◌+◌, ◌<◌, ◌≤◌, ◌≡◌, refl, sym, ap, ap₂, ◌∙◌, Bool, true, false, List, [], ◌∷◌, ◌++◌,
  append_assoc, map, Option, none, some, arith, length, get_elem?, ◌==◌, if◌then◌else◌,
}
use my_wireshark.Capture.{Frame, Recv, received}
use my_wireshark.Capture.Loop.{frames}
use my_wireshark.Capture.Loop
use my_wireshark.Ring.{
  Block, RawSocketCtx, hand_back, Poll, poll_failed, woken, Round, sleeps, stops, round_in,
  enter_block, deliver, round, Received, frame, stopped, failed, asleep, undefined, no_fuel, gives,
  again, fault, raw_socket_recv,
}
use my_wireshark.Ring.Drain.{receive, and_then}
use my_wireshark.Ring.Lap.{
  Filled, AreReady, given_back, place_after, frames_of, joined, receive_blocks,
  raw_socket_recv-laps,
}

module _ (fuel buf_len : ℕ) (polls : List Poll) where
  -- The results of `n` calls of `raw_socket_recv`, up to one that ends the loop or does not return.
  unfoldable pub results : ℕ → RawSocketCtx → List Recv
  results zero ctx = []
  results (suc n) ctx = elim (raw_socket_recv fuel buf_len polls ctx) [
    | frame f ctx' ↦ received f ∷ results n ctx'
    | stopped ↦ Recv.stopped ∷ []
    | failed ↦ Recv.failed ∷ []
    | _ ↦ []
  ]

  -- Calls that all give a frame come first.
  receive-results :
      (n m : ℕ) (ctx c : RawSocketCtx) (fs : List Frame)
      → receive fuel buf_len polls n ctx ≡ some (fs, c)
      → results (n + m) ctx ≡ map received fs ++ results m c
  unfolding receive results
  receive-results zero m ctx c fs e =
      let none_read : [] ≡ fs = cc in
      let same : ctx ≡ c = cc in
      ap (λ (k : ℕ). results k ctx) (omega arith)
      ∙ ap₂ (λ (gs : List Frame) (x : RawSocketCtx). map received gs ++ results m x) none_read same
  receive-results (suc n) m ctx c fs e =
      ap (λ (k : ℕ). results k ctx) (suc-add n m)
      ∙ go (raw_socket_recv fuel buf_len polls ctx) e (receive-results n m)
    where
      go :
          (r : Received)
          → (elim r [ frame f ctx' ↦ and_then f (receive fuel buf_len polls n ctx') | _ ↦ none ])
            ≡ some (fs, c)
          → ((ctx' c' : RawSocketCtx) (gs : List Frame)
              → receive fuel buf_len polls n ctx' ≡ some (gs, c')
              → results (n + m) ctx' ≡ map received gs ++ results m c')
          → (elim r [
            | frame f ctx' ↦ received f ∷ results (n + m) ctx'
            | stopped ↦ Recv.stopped ∷ []
            | failed ↦ Recv.failed ∷ []
            | _ ↦ []
          ])
            ≡ map received fs ++ results m c
      go (frame f ctx') q ih = rest (receive fuel buf_len polls n ctx') refl q
        where
          rest :
              (o : Option (List Frame × RawSocketCtx))
              → receive fuel buf_len polls n ctx' ≡ o
              → and_then f o ≡ some (fs, c)
              → received f ∷ results (n + m) ctx' ≡ map received fs ++ results m c
          rest none x y = cc
          rest (some (gs, c')) x y =
              let read : f ∷ gs ≡ fs = cc in
              let same : c' ≡ c = cc in
              ap (λ (rs : List Recv). received f ∷ rs) (ih ctx' c' gs x)
              ∙ ap₂ (λ (hs : List Frame) (x : RawSocketCtx). map received hs ++ results m x) read
                  same
      go stopped q ih = cc
      go failed q ih = cc
      go asleep q ih = cc
      go undefined q ih = cc
      go no_fuel q ih = cc

-- The packets of the blocks.
abbrev pub packets : List Filled → ℕ
packets [] = 0
packets (b ∷ bs) = suc (length b.others) + packets bs

module _ (fuel buf_len : ℕ) (polls : List Poll) where
  receive_blocks-results :
      (bs : List Filled) (m : ℕ) (ctx c : RawSocketCtx) (fs : List Frame)
      → receive_blocks fuel buf_len polls bs ctx ≡ some (fs, c)
      → results (suc fuel) buf_len polls (packets bs + m) ctx
        ≡ map received fs ++ results (suc fuel) buf_len polls m c
  receive_blocks-results [] m ctx c fs e =
      let none_read : [] ≡ fs = cc in
      let same : ctx ≡ c = cc in
      ap (λ (k : ℕ). results (suc fuel) buf_len polls k ctx) (omega arith)
      ∙ ap₂
          (λ (gs : List Frame) (x : RawSocketCtx).
            map received gs ++ results (suc fuel) buf_len polls m x)
          none_read same
  receive_blocks-results (b ∷ bs) m ctx c fs e =
      go (receive (suc fuel) buf_len polls (suc (length b.others)) ctx) refl e
        (λ c₁ c₂ hs. receive_blocks-results bs m c₁ c₂ hs)
    where
      found : Option (List Frame × RawSocketCtx)
      found = some (fs, c)

      all : ℕ → RawSocketCtx → List Recv
      all = results (suc fuel) buf_len polls

      next :
          (gs : List Frame) (c₁ : RawSocketCtx) (o : Option (List Frame × RawSocketCtx))
          → receive (suc fuel) buf_len polls (suc (length b.others)) ctx ≡ some (gs, c₁)
          → receive_blocks fuel buf_len polls bs c₁ ≡ o
          → joined gs o ≡ some (fs, c)
          → ((hs : List Frame) (c₂ : RawSocketCtx)
              → receive_blocks fuel buf_len polls bs c₁ ≡ some (hs, c₂)
              → all (packets bs + m) c₁ ≡ map received hs ++ all m c₂)
          → all (suc (length b.others) + packets bs + m) ctx ≡ map received fs ++ all m c
      next gs c₁ none q r z ih = cc
      next gs c₁ (some (hs, c₂)) q r z ih =
          let read : gs ++ hs ≡ fs = cc in
          let same : c₂ ≡ c = cc in
          ap (λ (k : ℕ). all k ctx) (omega arith)
          ∙ receive-results (suc fuel) buf_len polls (suc (length b.others)) (packets bs + m) ctx c₁
              gs q
          ∙ ap (λ (rs : List Recv). map received gs ++ rs) (ih hs c₂ r)
          ∙ sym (append_assoc (map received gs) (map received hs) (all m c₂))
          ∙ ap (λ (rs : List Recv). rs ++ all m c₂) (sym (map-append received gs hs))
          ∙ ap₂ (λ (ks : List Frame) (x : RawSocketCtx). map received ks ++ all m x) read same

      go :
          (o : Option (List Frame × RawSocketCtx))
          → receive (suc fuel) buf_len polls (suc (length b.others)) ctx ≡ o
          → (elim o [
            | none ↦ none
            | some (gs, c₁) ↦ joined gs (receive_blocks fuel buf_len polls bs c₁)
          ])
            ≡ found
          → ((c₁ c₂ : RawSocketCtx) (hs : List Frame)
              → receive_blocks fuel buf_len polls bs c₁ ≡ some (hs, c₂)
              → all (packets bs + m) c₁ ≡ map received hs ++ all m c₂)
          → all (suc (length b.others) + packets bs + m) ctx ≡ map received fs ++ all m c
      go none q r ih = cc
      go (some (gs, c₁)) q r ih =
          next gs c₁ (receive_blocks fuel buf_len polls bs c₁) q refl r (λ hs c₂. ih c₁ c₂ hs)

-- A sleep before a block that is the kernel's, from which a request to stop wakes up.
raw_socket_recv-stopped :
    (fuel buf_len : ℕ) (polls : List Poll) (bd : Block) (c d : RawSocketCtx)
    → c.stop_requested ≡ false
    → c.cur_pkt_idx ≡ 0
    → get_elem? c.ring c.cur_block ≡ some bd
    → bd.is_user ≡ false
    → d.stop_requested ≡ true
    → raw_socket_recv (suc (suc fuel)) buf_len (woken d ∷ polls) c ≡ stopped
unfolding raw_socket_recv round round_in enter_block
raw_socket_recv-stopped fuel buf_len polls bd c d s i g u h =
    ap (λ (r : Round). ended (suc fuel) (woken d ∷ polls) r) sleeping
    ∙ ap (λ (r : Round). ended fuel polls r) stopping
  where
    ended : ℕ → List Poll → Round → Received
    ended n ps r = elim r [
      | gives f ctx' ↦ frame f ctx'
      | again ctx' ↦ raw_socket_recv n buf_len ps ctx'
      | stops ↦ stopped
      | fault ↦ undefined
      | sleeps ↦ elim ps [
        | [] ↦ asleep
        | poll_failed ∷ ps' ↦ failed
        | woken ctx' ∷ ps' ↦ raw_socket_recv n buf_len ps' ctx'
      ]
    ]

    entered : RawSocketCtx
    entered = record c { cur_num_pkts = bd.num_pkts; cur_pkt_offset = bd.offset_to_first_pkt }

    inside : Round
    inside = if bd.num_pkts == 0 then again (hand_back bd entered) else deliver buf_len bd entered

    first : (c.cur_pkt_idx == 0) ≡ true
    first = ground (arith, i)

    sleeping : round buf_len c ≡ sleeps
    sleeping =
        ap (λ (b : Bool). if b then stops else round_in buf_len c (get_elem? c.ring c.cur_block)) s
        ∙ ap (round_in buf_len c) g
        ∙ ap (λ (b : Bool). if b then enter_block buf_len bd c else deliver buf_len bd c) first
        ∙ ap (λ (b : Bool). if b then inside else sleeps) u

    stopping : round buf_len d ≡ stops
    stopping =
        ap (λ (b : Bool). if b then stops else round_in buf_len d (get_elem? d.ring d.cur_block)) h

pub frames-received : (fs : List Frame) → frames (map received fs ++ Recv.stopped ∷ []) ≡ fs
frames-received [] = refl
frames-received (f ∷ fs) = ap (λ gs. f ∷ gs) (frames-received fs)

pub stops-received : (fs : List Frame) → Loop.stops (map received fs ++ Recv.stopped ∷ []) ≡ true
stops-received [] = refl
stops-received (f ∷ fs) = stops-received fs

-- The kernel has closed some blocks of the ring, from the cursor on and round its end, with their
-- packets in chains; the next block is the kernel's, and the sleep before it ends with a request
-- to stop. Then the calls of `raw_socket_recv` that the capture makes have as results the packets
-- in order, each cut to the buffer, and then RAW_SOCKET_STOPPED.
pub results-laps :
    (fuel buf_len : ℕ) (polls : List Poll) (bs : List Filled) (ctx d : RawSocketCtx) (bd : Block)
    → ctx.stop_requested ≡ false
    → ctx.cur_pkt_idx ≡ 0
    → ctx.cur_block < length ctx.ring
    → length bs ≤ length ctx.ring
    → AreReady ctx.ring ctx.cur_block bs
    → get_elem?
        (given_back ctx.ring ctx.cur_block bs)
        (place_after (length ctx.ring) ctx.cur_block bs)
      ≡ some bd
    → bd.is_user ≡ false
    → d.stop_requested ≡ true
    → results (suc (suc fuel)) buf_len (woken d ∷ polls) (packets bs + 1) ctx
      ≡ map received (frames_of buf_len bs) ++ Recv.stopped ∷ []
unfolding results
results-laps fuel buf_len polls bs ctx d bd s x h l r g u e =
    let (c, q, ring, place, x', s') =
      raw_socket_recv-laps (suc fuel) buf_len (woken d ∷ polls) bs ctx s x h l r in
    let at : get_elem? c.ring c.cur_block ≡ some bd =
      ap₂ (λ (blocks : List Block) (i : ℕ). get_elem? blocks i) ring place ∙ g in
    receive_blocks-results (suc fuel) buf_len (woken d ∷ polls) bs 1 ctx c (frames_of buf_len bs) q
    ∙ ap
        (λ (o : Received). map received (frames_of buf_len bs) ++ (elim o [
          | frame f ctx' ↦ received f ∷ []
          | stopped ↦ Recv.stopped ∷ []
          | failed ↦ Recv.failed ∷ []
          | _ ↦ []
        ]))
        (raw_socket_recv-stopped fuel buf_len polls bd c d s' x' at u e)
