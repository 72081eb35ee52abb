-- ===== src/Ring.antt =====
-- `raw_socket_recv` of src/c/raw_socket.c: the cursor over the ring of blocks that it shares with
-- the kernel.
pub mod Drain
pub mod Lap
pub mod Feed
pub mod Whole
mod Tests
use my_wireshark.Base.{
  ℕ, zero, suc, ◌+◌, ◌%◌, ◌^◌, ◌/◌, ltb, leb, ◌==◌, if◌then◌else◌, Bool, true, false, List, [], ◌∷◌,
  Option, none, some, length, get_elem?, set, take,
}
use my_wireshark.Capture.{Frame}

-- `struct tpacket3_hdr`, with the bytes of the frame that start `tp_mac` bytes after it.
pub record PacketHeader : Type 0 where
  pub tp_next_offset : ℕ
  pub tp_snaplen : ℕ
  pub tp_sec : ℕ
  pub tp_nsec : ℕ
  pub frame : List ℕ

-- `struct tpacket_block_desc`: `is_user` is TP_STATUS_USER of its status, and `header_at` the
-- packet header at an offset of the block, `none` where the kernel has put none.
pub record Block : Type 0 where
  pub is_user : Bool
  pub num_pkts : ℕ
  pub offset_to_first_pkt : ℕ
  pub header_at : ℕ → Option PacketHeader

-- `raw_socket_ctx_t` with its ring; `block_nr` is the number of blocks.
pub record RawSocketCtx : Type 0 where
  pub stop_requested : Bool
  pub ring : List Block
  pub cur_block : ℕ
  pub cur_pkt_idx : ℕ
  pub cur_pkt_offset : ℕ
  pub cur_num_pkts : ℕ

-- A block goes back to the kernel, and the cursor to the next one.
abbrev pub hand_back : Block → RawSocketCtx → RawSocketCtx
hand_back bd ctx = record ctx {
  ring = set ctx.ring ctx.cur_block (record bd { is_user = false });
  cur_block = (ctx.cur_block + 1) % length ctx.ring;
}

-- What a round of the loop ends in: a frame, the next round at once, a call of `poll`, a return of
-- RAW_SOCKET_STOPPED, or a read of the ring where there is no header.
pub data Round : Type 0 where
  gives : Frame → RawSocketCtx → Round
  again : RawSocketCtx → Round
  sleeps stops fault : Round

-- The smaller of the frame and the buffer is copied.
abbrev pub frame_of : ℕ → PacketHeader → Frame
frame_of buf_len hdr = record {
  bytes = take (if ltb hdr.tp_snaplen buf_len then hdr.tp_snaplen else buf_len) hdr.frame;
  ts_seconds = hdr.tp_sec;
  ts_microseconds = hdr.tp_nsec / 1000;
}

-- The cursor behind a packet.
unfoldable pub move_on : Block → PacketHeader → RawSocketCtx → RawSocketCtx
move_on bd hdr ctx =
    if leb ctx.cur_num_pkts (ctx.cur_pkt_idx + 1)
    then record (hand_back bd ctx) { cur_pkt_idx = 0 }
    else record ctx {
      cur_pkt_idx = ctx.cur_pkt_idx + 1;
      cur_pkt_offset = (ctx.cur_pkt_offset + hdr.tp_next_offset) % 2 ^ 32;
    }

-- The packet header that is at the cursor.
unfoldable pub deliver_at : ℕ → Block → RawSocketCtx → Option PacketHeader → Round
deliver_at buf_len bd ctx none = fault
deliver_at buf_len bd ctx (some hdr) = gives (frame_of buf_len hdr) (move_on bd hdr ctx)

unfoldable pub deliver : ℕ → Block → RawSocketCtx → Round
deliver buf_len bd ctx = deliver_at buf_len bd ctx (bd.header_at ctx.cur_pkt_offset)

-- The start of a block, which must be ours.
unfoldable pub enter_block : ℕ → Block → RawSocketCtx → Round
enter_block buf_len bd ctx =
    if bd.is_user
    then (let ctx' = record ctx {
      cur_num_pkts = bd.num_pkts;
      cur_pkt_offset = bd.offset_to_first_pkt;
    } in
        if bd.num_pkts == 0 then again (hand_back bd ctx') else deliver buf_len bd ctx')
    else sleeps

-- The block that is at the cursor.
unfoldable pub round_in : ℕ → RawSocketCtx → Option Block → Round
round_in buf_len ctx none = fault
round_in buf_len ctx (some bd) =
    if ctx.cur_pkt_idx == 0 then enter_block buf_len bd ctx else deliver buf_len bd ctx

unfoldable pub round : ℕ → RawSocketCtx → Round
round buf_len ctx =
    if ctx.stop_requested then stops else round_in buf_len ctx (get_elem? ctx.ring ctx.cur_block)

-- The result of `poll`: an error other than EINTR, or what the context is after the sleep.
pub data Poll : Type 0 where
  poll_failed : Poll
  woken : RawSocketCtx → Poll

-- What `raw_socket_recv` returns. `asleep` is a `poll` without an answer yet.
pub data Received : Type 0 where
  frame : Frame → RawSocketCtx → Received
  stopped failed asleep undefined no_fuel : Received

-- The loop, a unit of fuel for each round, with the answers of `poll` in turn.
unfoldable pub raw_socket_recv : ℕ → ℕ → List Poll → RawSocketCtx → Received
raw_socket_recv zero buf_len polls ctx = no_fuel
raw_socket_recv (suc fuel) buf_len polls ctx = elim (round buf_len ctx) [
  | gives f ctx' ↦ frame f ctx'
  | again ctx' ↦ raw_socket_recv fuel buf_len polls ctx'
  | stops ↦ stopped
  | fault ↦ undefined
  | sleeps ↦ elim polls [
    | [] ↦ asleep
    | poll_failed ∷ polls' ↦ failed
    | woken ctx' ∷ polls' ↦ raw_socket_recv fuel buf_len polls' ctx'
  ]
]

unfoldable pub raw_socket_request_stop : RawSocketCtx → RawSocketCtx
raw_socket_request_stop ctx = record ctx { stop_requested = true }

-- `request_stop_impl` and `on_sigint` of src/c/capture_backend_linux.c, on `g_active_ctx`: `none`
-- is null.
unfoldable pub request_stop_impl : Option RawSocketCtx → Option RawSocketCtx
unfolding raw_socket_request_stop
request_stop_impl none = none
request_stop_impl (some ctx) = some (raw_socket_request_stop ctx)

unfoldable pub on_sigint : ℕ → Option RawSocketCtx → Option RawSocketCtx
unfolding request_stop_impl
on_sigint signum active = request_stop_impl active
