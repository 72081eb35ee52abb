-- ===== src/Ring/Whole.antt =====
-- A capture of src/c/capture_backend_linux.c from the ring of src/c/raw_socket.c.
use my_wireshark.Base.{
  ℕ, suc, ◌+◌, ◌<◌, ◌≤◌, ◌≡◌, sym, ap, ◌∙◌, subst, Bool, true, false, List, [], ◌∷◌, ◌++◌, map,
  Option, some, length, get_elem?, All,
}
use my_wireshark.Cap.Insn.{Insn}
use my_wireshark.Capture.{
  Frame, raw_socket_max_frame, Recv, received, Calls, World, returned, chosen, choose_filter,
  run_impl,
}
use my_wireshark.Capture.Pcap.{IsFrame}
use my_wireshark.Capture.Loop.{frames, stops, callbacks, IsIdle}
use my_wireshark.Capture.Runs.{Outputs, IsShortText}
use my_wireshark.Capture.Success.{run_impl-succeeds}
use my_wireshark.Ring.{Block, RawSocketCtx, Poll, woken}
use my_wireshark.Ring.Lap.{Filled, AreReady, given_back, place_after, frames_of}
use my_wireshark.Ring.Feed.{results, frames-received, stops-received, packets, results-laps}

module _ {S : Type 0} (cb : Frame → S → S) (fwrite : List ℕ → List ℕ → Bool × List ℕ)
    (writes : (content bytes : List ℕ) → fwrite content bytes ≡ (true, content ++ bytes))
    (calls : Calls) (opens : calls.opens ≡ true) (attaches : calls.attaches ≡ true)
    (fopens : calls.fopens ≡ true) (installs : calls.installs ≡ true)
    (restores : calls.restores ≡ true) (fcloses : calls.fcloses ≡ true) where
  -- The blocks of the ring from the cursor on, and round its end, are closed by the kernel with
  -- their packets in chains, the next block is the kernel's, and the sleep before it ends with a
  -- request to stop. The loop of `run_impl` has the results of `raw_socket_recv` on this ring,
  -- every other call succeeds, and the filter text, of fewer than 256 bytes, is compiled. Then
  -- `run_impl` returns 0, leaves nothing open and puts the handler of SIGINT back: the callback has
  -- had the packets of the blocks, once each and in order, each cut to 65536 bytes, and the output
  -- file, if one was asked for, is on the disk and read back as these packets.
  pub run_impl-ring :
      (fuel : ℕ) (polls : List Poll) (bs : List Filled) (ctx d : RawSocketCtx) (bd : Block)
      (text path : Option (List ℕ)) (w : World S) {prog : Option (List Insn)}
      → calls.recvs
        ≡ results (suc (suc fuel)) raw_socket_max_frame (woken d ∷ polls) (packets bs + 1) ctx
      → ctx.stop_requested ≡ false
      → ctx.cur_pkt_idx ≡ 0
      → ctx.cur_block < length ctx.ring
      → length bs ≤ length ctx.ring
      → AreReady ctx.ring ctx.cur_block bs
      → get_elem?
          (given_back ctx.ring ctx.cur_block bs)
          (place_after (length ctx.ring) ctx.cur_block bs)
        ≡ some bd
      → bd.is_user ≡ false
      → d.stop_requested ≡ true
      → All IsFrame (frames_of raw_socket_max_frame bs)
      → choose_filter calls.alloc text ≡ chosen prog
      → IsShortText text
      → IsIdle w
      → (w' : World S) × (run_impl cb fwrite calls text path w ≡ returned true w')
        × IsIdle w'
        × (w'.handler ≡ w.handler)
        × (w'.user ≡ callbacks cb (frames_of raw_socket_max_frame bs) w.user)
        × Outputs path (frames_of raw_socket_max_frame bs) w w'
  run_impl-ring fuel polls bs ctx d bd text path w feeds s x h l r g u e fit picked short idle =
      let given : List Frame = frames_of raw_socket_max_frame bs in
      let all : calls.recvs ≡ map received given ++ Recv.stopped ∷ [] =
        feeds ∙ results-laps fuel raw_socket_max_frame polls bs ctx d bd s x h l r g u e in
      let same : given ≡ frames calls.recvs = sym (ap frames all ∙ frames-received given) in
      let ends : stops calls.recvs ≡ true = ap stops all ∙ stops-received given in
      let (w', q, i, h', user, o) =
        run_impl-succeeds cb fwrite writes calls opens attaches fopens installs restores fcloses
          ends text path w picked short (subst (All IsFrame) same fit) idle in
      (
        w',
        q,
        i,
        h',
        user ∙ ap (λ (fs : List Frame). callbacks cb fs w.user) (sym same),
        subst (λ (fs : List Frame). Outputs path fs w w') (sym same) o,
      )
