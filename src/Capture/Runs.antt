-- ===== src/Capture/Runs.antt =====
-- What a run of src/c/capture_backend_linux.c leaves behind: the file, the callbacks, the socket.
use my_wireshark.Base.{
  ℕ, ◌<◌, ◌≡◌, refl, ap, ◌∙◌, ◌⊎◌, inl, inr, Bool, true, false, List, [], ◌∷◌, ◌++◌, Option, none,
  some, if◌then◌else◌, if_elim, length, All, subst,
}
use my_wireshark.Capture.{
  Handler, sig_dfl, on_sigint, signal, previous_sigint_handler, Frame, pcap_global_header, Calls,
  World, Run, returned, waiting, broken, start_loop, open_file, attach_filter, run_impl,
}
use my_wireshark.Capture.Pcap.{records, IsFrame, read_pcap, read_pcap-records}
use my_wireshark.Cap.Insn.{Insn}
use my_wireshark.Cap.Lexer.{max_tokens}
use my_wireshark.Cap.Compile.{
  Outcome, everything, program, error, undefined, no_fuel, capfilter_compile,
}
use my_wireshark.Cap.Compile.Correct.{Returns, capfilter_compile-Returns}
use my_wireshark.Capture.{Chosen, chosen, invalid, wrong, chosen_of, choose_filter}
use my_wireshark.Capture.Loop.{
  frames, stops, goes_on, recorded, IsOnDisk, IsIdle, callbacks, LoopEnds, capture_loop-LoopEnds,
}

-- The output of a run that returns 0: the frames, read back from the file on the disk, or no change
-- of it without a path.
abbrev pub Outputs : {S : Type 0} → Option (List ℕ) → List Frame → World S → World S → Type 0
Outputs none fs w w' = w'.file ≡ w.file
Outputs (some []) fs w w' = w'.file ≡ w.file
Outputs (some (ch ∷ path)) fs w w' =
    (content : List ℕ) × (w'.file ≡ some content) × (read_pcap content ≡ some fs)

-- The output while it waits: of the open file only the bytes that `fwrite` has taken are known.
abbrev pub Streams : {S : Type 0} → Option (List ℕ) → List Frame → World S → World S → Type 0
Streams none fs w w' = w'.file ≡ w.file
Streams (some []) fs w w' = w'.file ≡ w.file
Streams (some (ch ∷ path)) fs w w' = read_pcap w'.stream ≡ some fs

-- The handler of SIGINT after a run whose loop has ended, from the one before, by whether the call
-- that installs `on_sigint` and the one that restores the previous handler succeed.
abbrev pub HandlerLeft : Bool → Bool → Handler → Handler → Type 0
HandlerLeft true true before after = after ≡ before
HandlerLeft true false before after = after ≡ on_sigint
HandlerLeft false true before after = after ≡ sig_dfl
HandlerLeft false false before after = after ≡ before

signal-HandlerLeft :
    (installs restores : Bool) (before : Handler) {after : Handler}
    → after
      ≡ signal restores (previous_sigint_handler installs before) (signal installs on_sigint before)
    → HandlerLeft installs restores before after
signal-HandlerLeft true true before e = e
signal-HandlerLeft true false before e = e
signal-HandlerLeft false true before e = e
signal-HandlerLeft false false before e = e

-- What a run on the calls leaves of `w`.
abbrev pub RunEnds :
    {S : Type 0} → (Frame → S → S) → Calls → Option (List ℕ) → World S → Run S → Type 0
RunEnds cb calls path w (waiting w') =
    (goes_on calls.recvs ≡ true)
    × (w'.user ≡ callbacks cb (frames calls.recvs) w.user)
    × Streams path (frames calls.recvs) w w'
RunEnds cb calls path w (returned true w') =
    (stops calls.recvs ≡ true)
    × IsIdle w'
    × HandlerLeft calls.installs calls.restores w.handler w'.handler
    × (w'.user ≡ callbacks cb (frames calls.recvs) w.user)
    × Outputs path (frames calls.recvs) w w'
RunEnds cb calls path w (returned false w') =
    IsIdle w'
    × ((w'.handler ≡ w.handler) ⊎ HandlerLeft calls.installs calls.restores w.handler w'.handler)
RunEnds cb calls path w broken = ⊥

-- A text whose tokens `capfilter_compile` has room for.
abbrev pub IsShortText : Option (List ℕ) → Type 0
IsShortText none = Unit
IsShortText (some text) = length text < max_tokens

module _ {S : Type 0} (cb : Frame → S → S) (fwrite : List ℕ → List ℕ → Bool × List ℕ)
    (whole : (content bytes : List ℕ)
      → ((fwrite content bytes).0 ≡ false) ⊎ ((fwrite content bytes).1 ≡ content ++ bytes)) where
  module _ (calls : Calls) (fit : All IsFrame (frames calls.recvs)) where
    -- From the start of the loop, with what the file has then.
    loop-RunEnds :
        (path : Option (List ℕ)) (w w₁ : World S)
        → w₁.user ≡ w.user
        → w₁.handler ≡ w.handler
        → ((w' : World S)
            → w'.stream ≡ recorded w₁.file_open w₁.stream (frames calls.recvs)
            → w'.file ≡ w₁.file
            → Streams path (frames calls.recvs) w w')
        → ((w' : World S)
            → w'.stream ≡ recorded w₁.file_open w₁.stream (frames calls.recvs)
            → IsOnDisk w₁.file_open w'.stream w₁.file w'.file
            → Outputs path (frames calls.recvs) w w')
        → RunEnds cb calls path w (start_loop cb fwrite calls w₁)
    loop-RunEnds path w w₁ u h wait out =
        go _ (capture_loop-LoopEnds cb fwrite whole calls previous calls.recvs begun)
      where
        previous : Handler
        previous = previous_sigint_handler calls.installs w₁.handler

        begun : World S
        begun = record w₁ { handler = signal calls.installs on_sigint w₁.handler; active = true }

        left :
            {after : Handler}
            → after ≡ signal calls.restores previous begun.handler
            → HandlerLeft calls.installs calls.restores w.handler after
        left {after} e =
            subst (λ (x : Handler). HandlerLeft calls.installs calls.restores x after) h
              (signal-HandlerLeft calls.installs calls.restores w₁.handler e)

        go :
            (r : Run S)
            → LoopEnds cb fwrite whole calls previous calls.recvs begun r
            → RunEnds cb calls path w r
        go (waiting w') (e, (u', k), d) =
            (e, u' ∙ ap (callbacks cb (frames calls.recvs)) u, wait w' k d)
        go (returned true w') (e, (i, x), (u', k), d) =
            (e, i, left x, u' ∙ ap (callbacks cb (frames calls.recvs)) u, out w' k d)
        go (returned false w') (i, x) = (i, inr (left x))
        go broken k = k

    -- An idle world but for an open socket.
    record HasSocket (w w₁ : World S) : Type 0 where
      pub same_user : w₁.user ≡ w.user
      pub same_file : w₁.file ≡ w.file
      pub no_open_file : w₁.file_open ≡ false
      pub same_handler : w₁.handler ≡ w.handler
      pub no_active : w₁.active ≡ false

    no_file :
        (w w₁ w' : World S)
        → HasSocket w w₁
        → IsOnDisk w₁.file_open w'.stream w₁.file w'.file
        → w'.file ≡ w.file
    no_file w w₁ w' h d =
        subst (λ (b : Bool). IsOnDisk b w'.stream w₁.file w'.file) h.no_open_file d ∙ h.same_file

    open_file-RunEnds :
        (path : Option (List ℕ)) (w w₁ : World S)
        → HasSocket w w₁
        → RunEnds cb calls path w (open_file cb fwrite calls path w₁)
    unfolding open_file
    open_file-RunEnds none w w₁ h =
        loop-RunEnds none w w₁ h.same_user h.same_handler (λ w' k d. d ∙ h.same_file)
          λ w' k d. no_file w w₁ w' h d
    open_file-RunEnds (some []) w w₁ h =
        loop-RunEnds (some []) w w₁ h.same_user h.same_handler (λ w' k d. d ∙ h.same_file)
          λ w' k d. no_file w w₁ w' h d
    open_file-RunEnds (some (ch ∷ path)) w w₁ h =
        if_elim (RunEnds cb calls (some (ch ∷ path)) w) calls.fopens
          (λ _. go (fwrite [] pcap_global_header).0 (whole [] pcap_global_header))
          λ _. (
            record { socket_closed = refl; file_closed = h.no_open_file; not_active = h.no_active },
            inl h.same_handler,
          )
      where
        opened : World S
        opened = record w₁ {
          file_open = true;
          stream = (fwrite [] pcap_global_header).1;
          file = none;
        }

        back :
            (fwrite [] pcap_global_header).1 ≡ pcap_global_header
            → (w' : World S) → w'.stream ≡ opened.stream ++ records (frames calls.recvs)
            → read_pcap w'.stream ≡ some (frames calls.recvs)
        back e w' k =
            ap read_pcap (k ∙ ap (λ c. c ++ records (frames calls.recvs)) e)
            ∙ read_pcap-records (frames calls.recvs) fit

        go :
            (b : Bool)
            → (b ≡ false) ⊎ ((fwrite [] pcap_global_header).1 ≡ pcap_global_header)
            → RunEnds cb calls (some (ch ∷ path)) w (elim b [
              | true ↦ start_loop cb fwrite calls opened
              | false ↦ returned false (record opened { file_open = false; socket_open = false })
            ])
        go true (inl e) = cc
        go true (inr e) =
            loop-RunEnds (some (ch ∷ path)) w opened h.same_user h.same_handler
              (λ w' k d. back e w' k) λ w' k d. (w'.stream, d, back e w' k)
        go false e = (
          record { socket_closed = refl; file_closed = refl; not_active = h.no_active },
          inl h.same_handler,
        )

    attach_filter-RunEnds :
        (prog : Option (List Insn)) (path : Option (List ℕ)) (w w₁ : World S)
        → HasSocket w w₁
        → RunEnds cb calls path w (attach_filter cb fwrite calls prog path w₁)
    unfolding attach_filter
    attach_filter-RunEnds none path w w₁ h = open_file-RunEnds path w w₁ h
    attach_filter-RunEnds (some prog) path w w₁ h =
        if_elim (RunEnds cb calls path w) calls.attaches
          (λ _.
            open_file-RunEnds path w (record w₁ { filter = some prog })
              (record {
                same_user = h.same_user;
                same_file = h.same_file;
                no_open_file = h.no_open_file;
                same_handler = h.same_handler;
                no_active = h.no_active;
              }))
          λ _. (
            record { socket_closed = refl; file_closed = h.no_open_file; not_active = h.no_active },
            inl h.same_handler,
          )

    abbrev IsRight : Chosen → Type 0
    IsRight wrong = ⊥
    IsRight _ = Unit

    chosen_of-IsRight : (o : Outcome) → Returns o → IsRight (chosen_of o)
    chosen_of-IsRight everything h = tt
    chosen_of-IsRight (program p) h = tt
    chosen_of-IsRight (error e) h = tt
    chosen_of-IsRight undefined h = absurd h
    chosen_of-IsRight no_fuel h = absurd h

    choose_filter-IsRight :
        (text : Option (List ℕ)) → IsShortText text → IsRight (choose_filter calls.alloc text)
    unfolding choose_filter
    choose_filter-IsRight none h = tt
    choose_filter-IsRight (some []) h = tt
    choose_filter-IsRight (some (ch ∷ rest)) h =
        chosen_of-IsRight (capfilter_compile calls.alloc (some (ch ∷ rest)))
          (capfilter_compile-Returns calls.alloc (ch ∷ rest) h).0

    -- A call of `fwrite` either fails or takes all of its bytes, the filter text has fewer than 256
    -- bytes, and the lengths and time stamps of the frames fit 32 bits. Then `run_impl` either
    -- waits for a frame or returns; what it returns leaves the socket and the file closed and no
    -- context for the handler. It returns 0 only after a request to stop. Each frame received so
    -- far has then gone to the callback once, in order, and the output file, if one was asked for,
    -- is on the disk and read back as those frames. While it waits, the frames have gone to the
    -- callback in the same way, and the bytes that `fwrite` has taken are read back as them; the
    -- file on the disk is not determined. The handler of SIGINT is again the one from before the
    -- run if both calls of `signal` succeed, or both fail. If only the first fails it is SIG_DFL,
    -- if only the second fails it is `on_sigint`. A return of -1 leaves it so too, or as it was.
    pub run_impl-RunEnds :
        (text path : Option (List ℕ)) (w : World S)
        → IsIdle w
        → IsShortText text
        → RunEnds cb calls path w (run_impl cb fwrite calls text path w)
    unfolding run_impl
    run_impl-RunEnds text path w idle short =
        go (choose_filter calls.alloc text) (choose_filter-IsRight text short)
      where
        socket : HasSocket w (record w { socket_open = true; filter = none })
        socket = record {
          same_user = refl;
          same_file = refl;
          no_open_file = idle.file_closed;
          same_handler = refl;
          no_active = idle.not_active;
        }

        go :
            (c : Chosen)
            → IsRight c
            → RunEnds cb calls path w (elim c [
              | invalid ↦ returned false w
              | wrong ↦ broken
              | chosen prog ↦
                  if calls.opens
                  then attach_filter cb fwrite calls prog path
                      (record w { socket_open = true; filter = none })
                  else returned false w
            ])
        go invalid h = (idle, inl refl)
        go wrong h = h
        go (chosen prog) h =
            if_elim (RunEnds cb calls path w) calls.opens
              (λ _. attach_filter-RunEnds prog path w _ socket) λ _. (idle, inl refl)
