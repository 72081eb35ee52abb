-- ===== src/Ring/Drain.antt =====
-- A block of the ring of src/c/raw_socket.c that the kernel has closed is read to its end.
use my_wireshark.Base.{
  ℕ, zero, suc, ◌+◌, ◌%◌, ◌^◌, ◌≡◌, refl, ap, ◌∙◌, leb, ◌==◌, if◌then◌else◌, Bool, true, false,
  List, [], ◌∷◌, Option, none, some, arith, length, get_elem?, set, map,
}
use my_wireshark.Capture.{Frame}
use my_wireshark.Ring.{
  PacketHeader, Block, RawSocketCtx, hand_back, Round, gives, again, sleeps, stops, fault, frame_of,
  move_on, deliver, enter_block, round_in, deliver_at, round, Poll, Received, frame, stopped,
  failed, asleep, undefined, poll_failed, woken, raw_socket_recv,
}

-- The packets of a block, each at the offset that the one before gives.
abbrev pub IsChain : Block → ℕ → List PacketHeader → Type 0
IsChain bd off [] = Unit
IsChain bd off (h ∷ hs) =
    (bd.header_at off ≡ some h) × IsChain bd ((off + h.tp_next_offset) % 2 ^ 32) hs

-- The frame of a call and those of the calls after it.
abbrev pub and_then :
    Frame → Option (List Frame × RawSocketCtx) → Option (List Frame × RawSocketCtx)
and_then f none = none
and_then f (some (fs, c)) = some (f ∷ fs, c)

-- `n` calls of `raw_socket_recv` that all give a frame.
unfoldable pub receive : ℕ → ℕ → List Poll → ℕ → RawSocketCtx → Option (List Frame × RawSocketCtx)
receive fuel buf_len polls zero ctx = some ([], ctx)
receive fuel buf_len polls (suc n) ctx = elim (raw_socket_recv fuel buf_len polls ctx) [
  | frame f ctx' ↦ and_then f (receive fuel buf_len polls n ctx')
  | _ ↦ none
]

-- The block is the kernel's again, and the cursor stands before the next one.
pub record HandedOver (bd : Block) (ctx c : RawSocketCtx) : Type 0 where
  pub ring_after : c.ring ≡ set ctx.ring ctx.cur_block (record bd { is_user = false })
  pub block_after : c.cur_block ≡ (ctx.cur_block + 1) % length ctx.ring
  pub idx_after : c.cur_pkt_idx ≡ 0
  pub stop_after : c.stop_requested ≡ false

module _ (fuel buf_len : ℕ) (polls : List Poll) (bd : Block) where
  -- The calls give the packets and end behind the block.
  abbrev pub Drains : RawSocketCtx → List PacketHeader → Type 0
  Drains ctx hs =
      (c : RawSocketCtx) × (receive (suc fuel) buf_len polls (length hs) ctx
        ≡ some (map (frame_of buf_len) hs, c))
      × HandedOver bd ctx c

  recv-gives :
      (ctx c : RawSocketCtx) (f : Frame)
      → round buf_len ctx ≡ gives f c
      → raw_socket_recv (suc fuel) buf_len polls ctx ≡ frame f c
  unfolding raw_socket_recv
  recv-gives ctx c f e =
      ap
        (λ (r : Round). elim r [
          | gives f' ctx' ↦ frame f' ctx'
          | again ctx' ↦ raw_socket_recv fuel buf_len polls ctx'
          | stops ↦ stopped
          | fault ↦ undefined
          | sleeps ↦ elim polls [
            | [] ↦ asleep
            | poll_failed ∷ polls' ↦ failed
            | woken ctx' ∷ polls' ↦ raw_socket_recv fuel buf_len polls' ctx'
          ]
        ])
        e

  receive-step :
      (n : ℕ) (ctx c c' : RawSocketCtx) (f : Frame) (fs : List Frame)
      → round buf_len ctx ≡ gives f c
      → receive (suc fuel) buf_len polls n c ≡ some (fs, c')
      → receive (suc fuel) buf_len polls (suc n) ctx ≡ some (f ∷ fs, c')
  unfolding receive
  receive-step n ctx c c' f fs e e' =
      ap
        (λ (r : Received). elim r [
          | frame f' ctx' ↦ and_then f' (receive (suc fuel) buf_len polls n ctx')
          | _ ↦ none
        ])
        (recv-gives ctx c f e)
      ∙ ap (and_then f) e'

  -- The block at the cursor, while no stop is requested.
  round-in :
      (ctx : RawSocketCtx) (b : Bool)
      → ctx.stop_requested ≡ false
      → get_elem? ctx.ring ctx.cur_block ≡ some bd
      → (ctx.cur_pkt_idx == 0) ≡ b
      → round buf_len ctx ≡ (if b then enter_block buf_len bd ctx else deliver buf_len bd ctx)
  unfolding round round_in
  round-in ctx b s g i =
      ap
        (λ (stop : Bool).
          if stop then stops else round_in buf_len ctx (get_elem? ctx.ring ctx.cur_block))
        s
      ∙ ap (round_in buf_len ctx) g
      ∙ ap (λ (first : Bool). if first then enter_block buf_len bd ctx else deliver buf_len bd ctx)
          i

  deliver-packet :
      (ctx : RawSocketCtx) (h : PacketHeader)
      → bd.header_at ctx.cur_pkt_offset ≡ some h
      → deliver buf_len bd ctx ≡ gives (frame_of buf_len h) (move_on bd h ctx)
  unfolding deliver deliver_at
  deliver-packet ctx h e = ap (deliver_at buf_len bd ctx) e

  abbrev next_packet : PacketHeader → RawSocketCtx → RawSocketCtx
  next_packet h ctx = record ctx {
    cur_pkt_idx = ctx.cur_pkt_idx + 1;
    cur_pkt_offset = (ctx.cur_pkt_offset + h.tp_next_offset) % 2 ^ 32;
  }

  abbrev behind : RawSocketCtx → RawSocketCtx
  behind ctx = record (hand_back bd ctx) { cur_pkt_idx = 0 }

  move_on-if :
      (ctx : RawSocketCtx) (h : PacketHeader) (b : Bool)
      → leb ctx.cur_num_pkts (ctx.cur_pkt_idx + 1) ≡ b
      → move_on bd h ctx ≡ (if b then behind ctx else next_packet h ctx)
  unfolding move_on
  move_on-if ctx h b e = ap (λ (last : Bool). if last then behind ctx else next_packet h ctx) e

  -- From a round that delivers the packet at the cursor.
  drain :
      (hs : List PacketHeader) (h : PacketHeader) (ctx start : RawSocketCtx)
      → round buf_len start ≡ deliver buf_len bd ctx
      → ctx.stop_requested ≡ false
      → get_elem? ctx.ring ctx.cur_block ≡ some bd
      → ctx.cur_num_pkts ≡ ctx.cur_pkt_idx + suc (length hs)
      → IsChain bd ctx.cur_pkt_offset (h ∷ hs)
      → (c : RawSocketCtx) × (receive (suc fuel) buf_len polls (suc (length hs)) start
          ≡ some (map (frame_of buf_len) (h ∷ hs), c))
        × HandedOver bd ctx c
  unfolding receive
  drain [] h ctx start r s g n (e, _) =
      let m = move_on-if ctx h true (ground (arith, n)) in
      (
        behind ctx,
        receive-step 0 start (behind ctx) (behind ctx) (frame_of buf_len h) []
            (r ∙ deliver-packet ctx h e ∙ ap (gives (frame_of buf_len h)) m) refl,
        record { ring_after = refl; block_after = refl; idx_after = refl; stop_after = s },
      )
  drain (h' ∷ hs) h ctx start r s g n (e, chain) =
      let m = move_on-if ctx h false (ground (arith, n)) in
      let next = next_packet h ctx in
      let (c, q, o) =
        drain hs h' next next (round-in next false s g (ground arith)) s g (omega (arith, n))
          chain in
      (
        c,
        receive-step (suc (length hs)) start next c (frame_of buf_len h)
            (map (frame_of buf_len) (h' ∷ hs))
            (r ∙ deliver-packet ctx h e ∙ ap (gives (frame_of buf_len h)) m) q,
        record {
          ring_after = o.ring_after;
          block_after = o.block_after;
          idx_after = o.idx_after;
          stop_after = o.stop_after;
        },
      )

  -- A block at the cursor that the kernel has closed with its packets in a chain is read by as
  -- many calls of `raw_socket_recv` as it has packets, while no stop is requested; each call ends
  -- in the first round of its loop. The calls give the packets in order, each cut to the buffer,
  -- and then the block is the kernel's again and the cursor stands before the next block of the
  -- ring.
  pub raw_socket_recv-Drains :
      (ctx : RawSocketCtx) (h : PacketHeader) (hs : List PacketHeader)
      → ctx.stop_requested ≡ false
      → ctx.cur_pkt_idx ≡ 0
      → get_elem? ctx.ring ctx.cur_block ≡ some bd
      → bd.is_user ≡ true
      → bd.num_pkts ≡ suc (length hs)
      → IsChain bd bd.offset_to_first_pkt (h ∷ hs)
      → Drains ctx (h ∷ hs)
  unfolding enter_block
  raw_socket_recv-Drains ctx h hs s i g u n chain =
      let (c, q, o) = drain hs h entered ctx enters s g (omega (arith, n, i)) chain in
      (
        c,
        q,
        record {
          ring_after = o.ring_after;
          block_after = o.block_after;
          idx_after = o.idx_after;
          stop_after = o.stop_after;
        },
      )
    where
      entered : RawSocketCtx
      entered = record ctx { cur_num_pkts = bd.num_pkts; cur_pkt_offset = bd.offset_to_first_pkt }

      closed : Round
      closed = if bd.num_pkts == 0 then again (hand_back bd entered) else deliver buf_len bd entered

      nonempty : (bd.num_pkts == 0) ≡ false
      nonempty = ground (arith, n)

      enters : round buf_len ctx ≡ deliver buf_len bd entered
      enters =
          round-in ctx true s g (ground (arith, i))
          ∙ ap (λ (b : Bool). if b then closed else sleeps) u
          ∙ ap
              (λ (b : Bool). if b then again (hand_back bd entered) else deliver buf_len bd entered)
              nonempty
