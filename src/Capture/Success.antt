-- ===== src/Capture/Success.antt =====
-- A run of src/c/capture_backend_linux.c in which every call succeeds.
use my_wireshark.Base.{
  ℕ, ◌≡◌, refl, ap, ◌⊎◌, inr, Bool, true, false, List, [], ◌∷◌, ◌++◌, Option, none, some,
  if◌then◌else◌, All, subst,
}
use my_wireshark.Cap.Insn.{Insn}
use my_wireshark.Capture.{
  Frame, pcap_global_header, pcap_record_header, Recv, received, stopped, failed, Calls, World, Run,
  Handler, returned, broken, Chosen, chosen, invalid, wrong, choose_filter,
  write_pcap_global_header, write_data, write_pcap_record, save, fclose_result, finish_run,
  capture_loop, open_file, attach_filter, run_impl,
}
use my_wireshark.Capture.Pcap.{IsFrame}
use my_wireshark.Capture.Loop.{frames, stops, callbacks, ended, IsIdle}
use my_wireshark.Capture.Runs.{Outputs, HandlerLeft, RunEnds, IsShortText, run_impl-RunEnds}

module _ {S : Type 0} (cb : Frame → S → S) (fwrite : List ℕ → List ℕ → Bool × List ℕ)
    (writes : (content bytes : List ℕ) → fwrite content bytes ≡ (true, content ++ bytes)) where
  -- A run that returns 0.
  abbrev Succeeds : Run S → Type 0
  Succeeds r = (w : World S) × (r ≡ returned true w)

  abbrev IsOk : Bool × World S → Type 0
  IsOk p = p.0 ≡ true

  write_data-IsOk : (xs : List ℕ) (w : World S) → IsOk (write_data cb fwrite xs w)
  write_data-IsOk [] w = refl
  write_data-IsOk (x ∷ xs) w = ap (λ (p : Bool × List ℕ). p.0) (writes w.stream (x ∷ xs))

  save-IsOk : (f : Frame) (w : World S) → IsOk (save cb fwrite f w)
  unfolding save write_pcap_record
  save-IsOk f w =
      go w.file_open (fwrite w.stream (pcap_record_header f))
        (writes w.stream (pcap_record_header f))
    where
      go :
          (b : Bool) (p : Bool × List ℕ)
          → p ≡ (true, w.stream ++ pcap_record_header f)
          → IsOk (elim b [
            | true ↦ elim p.0 [
              | true ↦ write_data cb fwrite f.bytes (record w { stream = p.1 })
              | false ↦ (false, record w { stream = p.1 })
            ]
            | false ↦ (true, w)
          ])
      go true (true, content) e = write_data-IsOk f.bytes (record w { stream = content })
      go true (false, content) e = cc
      go false p e = refl

  module _ (calls : Calls) (opens : calls.opens ≡ true) (attaches : calls.attaches ≡ true)
      (fopens : calls.fopens ≡ true) (installs : calls.installs ≡ true)
      (restores : calls.restores ≡ true) (fcloses : calls.fcloses ≡ true)
      (ends : stops calls.recvs ≡ true) where
    capture_loop-Succeeds :
        (previous : Handler) (rs : List Recv) (w : World S)
        → stops rs ≡ true
        → Succeeds (capture_loop cb fwrite calls previous rs w)
    unfolding capture_loop finish_run
    capture_loop-Succeeds previous [] w h = cc
    capture_loop-Succeeds previous (stopped ∷ rs) w h = (ended calls previous w, closed fcloses)
      where
        result : (o c : Bool) → c ≡ true → fclose_result o c true ≡ true
        result true true e = refl
        result true false e = cc
        result false c e = refl

        closed :
            calls.fcloses ≡ true
            → returned (fclose_result w.file_open calls.fcloses true) (ended calls previous w)
              ≡ returned true (ended calls previous w)
        closed e =
            ap (λ (b : Bool). returned b (ended calls previous w))
              (result w.file_open calls.fcloses e)
    capture_loop-Succeeds previous (failed ∷ rs) w h = cc
    capture_loop-Succeeds previous (received f ∷ rs) w h =
        go (save cb fwrite f w) (save-IsOk f w) λ w'. capture_loop-Succeeds previous rs w' h
      where
        go :
            (p : Bool × World S)
            → IsOk p
            → ((w' : World S) → Succeeds (capture_loop cb fwrite calls previous rs w'))
            → Succeeds (elim p.0 [
              | true ↦
                  capture_loop cb fwrite calls previous rs (record p.1 { user = cb f p.1.user })
              | false ↦ finish_run cb fwrite calls previous false p.1
            ])
        go (true, w') e ih = ih (record w' { user = cb f w'.user })
        go (false, w') e ih = cc

    open_file-Succeeds :
        (path : Option (List ℕ)) (w : World S) → Succeeds (open_file cb fwrite calls path w)
    unfolding open_file write_pcap_global_header
    open_file-Succeeds none w = capture_loop-Succeeds _ calls.recvs _ ends
    open_file-Succeeds (some []) w = capture_loop-Succeeds _ calls.recvs _ ends
    open_file-Succeeds (some (ch ∷ path)) w =
        rw (fopens, writes [] pcap_global_header) (capture_loop-Succeeds _ calls.recvs _ ends)

    attach_filter-Succeeds :
        (prog : Option (List Insn)) (path : Option (List ℕ)) (w : World S)
        → Succeeds (attach_filter cb fwrite calls prog path w)
    unfolding attach_filter
    attach_filter-Succeeds none path w = open_file-Succeeds path w
    attach_filter-Succeeds (some prog) path w = rw (attaches) (open_file-Succeeds path _)

    -- If the filter text, of fewer than 256 bytes, is compiled, every call of the system succeeds
    -- and the results of `raw_socket_recv` end by a request to stop, `run_impl` returns 0. It has
    -- then given each frame to the callback once, in order; the output file, if one was asked for,
    -- is on the disk and read back as those frames; no socket, file or context is left; and the
    -- handler of SIGINT is the one from before.
    pub run_impl-succeeds :
        (text path : Option (List ℕ)) (w : World S) {prog : Option (List Insn)}
        → choose_filter calls.alloc text ≡ chosen prog
        → IsShortText text
        → All IsFrame (frames calls.recvs)
        → IsIdle w
        → (w' : World S) × (run_impl cb fwrite calls text path w ≡ returned true w')
          × IsIdle w'
          × (w'.handler ≡ w.handler)
          × (w'.user ≡ callbacks cb (frames calls.recvs) w.user)
          × Outputs path (frames calls.recvs) w w'
    unfolding run_impl
    run_impl-succeeds text path w {prog} e short fit idle =
        let (w', q) = done in
        let (_, i, h, u, o) =
          subst (RunEnds cb calls path w) q
            (run_impl-RunEnds cb fwrite whole calls fit text path w idle short) in
        (w', q, i, kept calls.installs calls.restores installs restores h, u, o)
      where
        kept :
            {after : Handler} (b c : Bool)
            → b ≡ true
            → c ≡ true
            → HandlerLeft b c w.handler after
            → after ≡ w.handler
        kept true true e e' h = h
        kept true false e e' h = cc
        kept false c e e' h = cc

        whole :
            (content bytes : List ℕ)
            → ((fwrite content bytes).0 ≡ false) ⊎ ((fwrite content bytes).1 ≡ content ++ bytes)
        whole content bytes = inr (ap (λ (p : Bool × List ℕ). p.1) (writes content bytes))

        go :
            (c : Chosen)
            → c ≡ chosen prog
            → Succeeds (elim c [
              | invalid ↦ returned false w
              | wrong ↦ broken
              | chosen prog' ↦
                  if calls.opens
                  then attach_filter cb fwrite calls prog' path
                      (record w { socket_open = true; filter = none })
                  else returned false w
            ])
        go (chosen prog') q = rw (opens) (attach_filter-Succeeds prog' path _)
        go invalid q = cc
        go wrong q = cc

        done : Succeeds (run_impl cb fwrite calls text path w)
        done = go (choose_filter calls.alloc text) e
