-- ===== src/Pipeline/Whole.antt =====
-- The capture of src/c/capture_backend_linux.c as the source of the capture thread of src/main.cpp.
use my_wireshark.Base.{
  ℕ, ◌+◌, ◌*◌, ◌≤◌, ◌<◌, ◌≡◌, sym, ap, ◌∙◌, subst, true, List, [], ◌∷◌, ◌++◌, append_assoc,
  append-nil, Bool, Option, some, length, All,
}
use my_wireshark.Cap.Insn.{Insn}
use my_wireshark.Capture.{Frame, Calls, World, returned, chosen, choose_filter, run_impl}
use my_wireshark.Capture.Pcap.{IsFrame}
use my_wireshark.Capture.Loop.{frames, stops, callbacks, IsIdle}
use my_wireshark.Capture.Runs.{Outputs, IsShortText}
use my_wireshark.Capture.Success.{run_impl-succeeds}
use my_wireshark.Disp.Node.{Node}
use my_wireshark.Printer.Decode.{IsFilter}
use my_wireshark.Pipeline.{Threads, Thread, run_threads, started, IsOver}
use my_wireshark.Pipeline.Underway.{IsCaught, Prints}
use my_wireshark.Pipeline.Live.{IsFair, schedule, rounds-print}

-- The calls of the callback, as the list of their frames.
abbrev pub gather : Frame → List Frame → List Frame
gather f fs = fs ++ f ∷ []

callbacks-gather : (fs gs : List Frame) → callbacks gather fs gs ≡ gs ++ fs
callbacks-gather [] gs = sym (append-nil gs)
callbacks-gather (f ∷ fs) gs = callbacks-gather fs (gs ++ f ∷ []) ∙ append_assoc gs (f ∷ []) fs

module _ (fwrite : List ℕ → List ℕ → Bool × List ℕ)
    (writes : (content bytes : List ℕ) → fwrite content bytes ≡ (true, content ++ bytes))
    (calls : Calls) (opens : calls.opens ≡ true) (attaches : calls.attaches ≡ true)
    (fopens : calls.fopens ≡ true) (installs : calls.installs ≡ true)
    (restores : calls.restores ≡ true) (fcloses : calls.fcloses ≡ true)
    (ends : stops calls.recvs ≡ true) (fit : All IsFrame (frames calls.recvs))
    (caught : All IsCaught (frames calls.recvs)) (filter : Option Node) (typed : IsFilter filter)
    (max_size : ℕ) (room : 0 < max_size) where
  -- From the socket to the screen: the capture filter, of fewer than 256 bytes, is compiled, every
  -- call of the system succeeds, frames of up to 65536 bytes come until a stop is requested, and
  -- the threads take turns in rounds in which each has at least one, as many as twice the frames
  -- and two. Then `run_impl` returns 0, leaves nothing open and puts the handler of SIGINT back;
  -- the frames that it has given to its callback, through the queue, have been printed once each
  -- and in order; and an output file, if one was asked for, is on the disk and read back as the
  -- same frames.
  pub capture-print :
      (text path : Option (List ℕ)) (w : World (List Frame)) (rs : List (List Thread))
      {prog : Option (List Insn)}
      → choose_filter calls.alloc text ≡ chosen prog
      → IsShortText text
      → IsIdle w
      → w.user ≡ []
      → All IsFair rs
      → 2 * length (frames calls.recvs) + 2 ≤ length rs
      → (w' : World (List Frame)) × (p : Threads) × (run_impl gather fwrite calls text path w
          ≡ returned true w')
        × (run_threads (schedule rs) (started max_size filter w'.user) ≡ some p)
        × IsIdle w'
        × (w'.handler ≡ w.handler)
        × IsOver p
        × Outputs path (frames calls.recvs) w w'
        × Prints filter 0 (frames calls.recvs) p.printed
  capture-print text path w rs e short idle empty fair enough =
      let (w', q, i, h', u, o) =
        run_impl-succeeds gather fwrite writes calls opens attaches fopens installs restores fcloses
          ends text path w e short fit idle in
      let given : frames calls.recvs ≡ w'.user = sym (
        u
        ∙ callbacks-gather (frames calls.recvs) w.user
        ∙ ap (λ (gs : List Frame). gs ++ frames calls.recvs) empty) in
      let (p, r, done, _, printed) =
        rounds-print filter typed max_size room (frames calls.recvs) caught rs fair enough in
      (
        w',
        p,
        q,
        subst (λ (fs : List Frame). run_threads (schedule rs) (started max_size filter fs) ≡ some p)
            given r,
        i,
        h',
        done,
        o,
        printed,
      )
