-- ===== src/Capture/Loop.antt =====
-- What the loop of src/c/capture_backend_linux.c leaves behind: the file, the callbacks, the socket.
use my_wireshark.Base.{
  ℕ, ◌≡◌, refl, ap, ◌∙◌, sym, ◌⊎◌, inl, inr, Bool, true, false, List, [], ◌∷◌, ◌++◌, append_assoc,
  append-nil, Option, some, subst,
}
use my_wireshark.Capture.{
  Frame, pcap_record_header, Recv, received, stopped, failed, Calls, World, Run, returned, waiting,
  broken, Handler, signal, fclose_result, fclose_file, write_data, write_pcap_record, save,
  finish_run, capture_loop,
}
use my_wireshark.Capture.Pcap.{records}

-- The frames before the first result that ends the loop.
abbrev pub frames : List Recv → List Frame
frames [] = []
frames (received f ∷ rs) = f ∷ frames rs
frames (stopped ∷ rs) = []
frames (failed ∷ rs) = []

-- Whether the first result that ends the loop is a request to stop.
abbrev pub stops : List Recv → Bool
stops [] = false
stops (received f ∷ rs) = stops rs
stops (stopped ∷ rs) = true
stops (failed ∷ rs) = false

-- No result ends the loop.
abbrev pub goes_on : List Recv → Bool
goes_on [] = true
goes_on (received f ∷ rs) = goes_on rs
goes_on (stopped ∷ rs) = false
goes_on (failed ∷ rs) = false

-- The file on the disk after a run that returns 0, if one is open or not: the bytes that were
-- given to it, or what was there.
abbrev pub IsOnDisk : Bool → List ℕ → Option (List ℕ) → Option (List ℕ) → Type 0
IsOnDisk true stream before after = after ≡ some stream
IsOnDisk false stream before after = after ≡ before

fclose-IsOnDisk :
    (is_open closes : Bool) (stream : List ℕ) (before : Option (List ℕ))
    → fclose_result is_open closes true ≡ true
    → IsOnDisk is_open stream before (fclose_file is_open closes stream before)
fclose-IsOnDisk true true stream before e = refl
fclose-IsOnDisk true false stream before e = cc
fclose-IsOnDisk false closes stream before e = refl

-- What the end of a run makes of the world.
abbrev pub ended : {S : Type 0} → Calls → Handler → World S → World S
ended calls previous w = record w {
  handler = signal calls.restores previous w.handler;
  active = false;
  file_open = false;
  file = fclose_file w.file_open calls.fcloses w.stream w.file;
  last_stats = calls.stats;
  socket_open = false;
}

-- A file that is written gets the records of the frames.
abbrev pub recorded : Bool → List ℕ → List Frame → List ℕ
recorded true content fs = content ++ records fs
recorded false content fs = content

-- Nothing of a run is left: no socket, no file, and no context for the handler.
pub record IsIdle {S : Type 0} (w : World S) : Type 0 where
  pub socket_closed : w.socket_open ≡ false
  pub file_closed : w.file_open ≡ false
  pub not_active : w.active ≡ false

-- The callback on each frame, in their order.
abbrev pub callbacks : {S : Type 0} → (Frame → S → S) → List Frame → S → S
callbacks cb [] s = s
callbacks cb (f ∷ fs) s = callbacks cb fs (cb f s)

module _ {S : Type 0} (cb : Frame → S → S) (fwrite : List ℕ → List ℕ → Bool × List ℕ)
    (whole : (content bytes : List ℕ)
      → ((fwrite content bytes).0 ≡ false) ⊎ ((fwrite content bytes).1 ≡ content ++ bytes)) where
  -- Every frame went to the callback and into the stream, in their order.
  abbrev pub Captured : List Frame → World S → World S → Type 0
  Captured fs w w' =
      (w'.user ≡ callbacks cb fs w.user) × (w'.stream ≡ recorded w.file_open w.stream fs)

  -- Nothing is left, and the handler is put back if that call succeeds.
  abbrev pub Ended : Calls → Handler → World S → World S → Type 0
  Ended calls previous w w' = IsIdle w' × (w'.handler ≡ signal calls.restores previous w.handler)

  -- The loop on the results `rs` from `w`.
  abbrev pub LoopEnds : Calls → Handler → List Recv → World S → Run S → Type 0
  LoopEnds calls previous rs w (waiting w') =
      (goes_on rs ≡ true) × Captured (frames rs) w w' × (w'.file ≡ w.file)
  LoopEnds calls previous rs w (returned true w') =
      (stops rs ≡ true)
      × Ended calls previous w w'
      × Captured (frames rs) w w'
      × IsOnDisk w.file_open w'.stream w.file w'.file
  LoopEnds calls previous rs w (returned false w') = Ended calls previous w w'
  LoopEnds calls previous rs w broken = ⊥

  ended-Ended :
      (calls : Calls) (previous : Handler) (w w' : World S)
      → w'.handler ≡ w.handler
      → Ended calls previous w (ended calls previous w')
  ended-Ended calls previous w w' e = (
    record { socket_closed = refl; file_closed = refl; not_active = refl },
    ap (signal calls.restores previous) e,
  )

  closed_false : (is_open closes : Bool) → fclose_result is_open closes false ≡ false
  closed_false true true = refl
  closed_false true false = refl
  closed_false false closes = refl

  finish_run-failed :
      (calls : Calls) (previous : Handler) (rs : List Recv) (w w' : World S)
      → w'.handler ≡ w.handler
      → LoopEnds calls previous rs w (finish_run cb fwrite calls previous false w')
  unfolding finish_run
  finish_run-failed calls previous rs w w' e =
      rw (closed_false w'.file_open calls.fcloses) (ended-Ended calls previous w w' e)

  nothing_new : (b : Bool) (content : List ℕ) → content ≡ recorded b content []
  nothing_new true content = sym (append-nil content)
  nothing_new false content = refl

  finish_run-stopped :
      (calls : Calls) (previous : Handler) (rs : List Recv) (w : World S)
      → LoopEnds calls previous (stopped ∷ rs) w (finish_run cb fwrite calls previous true w)
  unfolding finish_run
  finish_run-stopped calls previous rs w = go (fclose_result w.file_open calls.fcloses true) refl
    where
      go :
          (b : Bool)
          → fclose_result w.file_open calls.fcloses true ≡ b
          → LoopEnds calls previous (stopped ∷ rs) w (returned b (ended calls previous w))
      go true q = (
        refl,
        ended-Ended calls previous w w refl,
        (refl, nothing_new w.file_open w.stream),
        fclose-IsOnDisk w.file_open calls.fcloses w.stream w.file q,
      )
      go false q = ended-Ended calls previous w w refl

  -- The bytes of a call that succeeded are at the end of the file.
  abbrev Wrote : List ℕ → World S → Bool × World S → Type 0
  Wrote xs w (true, w') =
      (w'.user ≡ w.user) × (w'.file_open ≡ w.file_open) × (w'.stream ≡ w.stream ++ xs)
  Wrote xs w (false, w') = Unit

  fwrite-Wrote :
      (xs : List ℕ) (w : World S)
      → Wrote xs w ((fwrite w.stream xs).0, record w { stream = (fwrite w.stream xs).1 })
  fwrite-Wrote xs w = go (fwrite w.stream xs).0 (whole w.stream xs)
    where
      go :
          (b : Bool)
          → (b ≡ false) ⊎ ((fwrite w.stream xs).1 ≡ w.stream ++ xs)
          → Wrote xs w (b, record w { stream = (fwrite w.stream xs).1 })
      go true (inl e) = cc
      go true (inr e) = (refl, refl, e)
      go false h = tt

  write_data-Wrote : (xs : List ℕ) (w : World S) → Wrote xs w (write_data cb fwrite xs w)
  write_data-Wrote [] w = (refl, refl, sym (append-nil w.stream))
  write_data-Wrote (x ∷ xs) w = fwrite-Wrote (x ∷ xs) w

  write_pcap_record-Wrote :
      (f : Frame) (w : World S) → Wrote (records (f ∷ [])) w (write_pcap_record cb fwrite f w)
  unfolding write_pcap_record
  write_pcap_record-Wrote f w =
      go (fwrite w.stream (pcap_record_header f)).0 (fwrite-Wrote (pcap_record_header f) w)
    where
      after : World S
      after = record w { stream = (fwrite w.stream (pcap_record_header f)).1 }

      both :
          (p : Bool × World S)
          → after.stream ≡ w.stream ++ pcap_record_header f
          → Wrote f.bytes after p
          → Wrote (records (f ∷ [])) w p
      both (true, w') e (u, o, k) =
          (u, o, k ∙ ap (λ c. c ++ f.bytes) e ∙ simp (append_assoc, append-nil) refl)
      both (false, w') e h = tt

      go :
          (b : Bool)
          → Wrote (pcap_record_header f) w (b, after)
          → Wrote
              (records (f ∷ []))
              w
              (elim b [ true ↦ write_data cb fwrite f.bytes after | false ↦ (false, after) ])
      go true h = both (write_data cb fwrite f.bytes after) h.2 (write_data-Wrote f.bytes after)
      go false h = tt

  abbrev Saved : Frame → World S → Bool × World S → Type 0
  Saved f w (true, w') =
      (w'.user ≡ w.user)
      × (w'.file_open ≡ w.file_open)
      × (w'.stream ≡ recorded w.file_open w.stream (f ∷ []))
  Saved f w (false, w') = Unit

  save-Saved : (f : Frame) (w : World S) → Saved f w (save cb fwrite f w)
  unfolding save
  save-Saved f w = go w.file_open refl
    where
      written :
          (p : Bool × World S) → w.file_open ≡ true → Wrote (records (f ∷ [])) w p → Saved f w p
      written (true, w') q (u, o, k) = (u, o, rw (q) k)
      written (false, w') q h = tt

      go :
          (b : Bool)
          → w.file_open ≡ b
          → Saved f w (elim b [ true ↦ write_pcap_record cb fwrite f w | false ↦ (true, w) ])
      go true q = written (write_pcap_record cb fwrite f w) q (write_pcap_record-Wrote f w)
      go false q = (refl, refl, rw (q) refl)

  recorded-cons :
      (b : Bool) (content : List ℕ) (f : Frame) (fs : List Frame)
      → recorded b (recorded b content (f ∷ [])) fs ≡ recorded b content (f ∷ fs)
  recorded-cons true content f fs =
      append_assoc content (records (f ∷ [])) (records fs)
      ∙ ap (λ t. content ++ (pcap_record_header f ++ t))
          (ap (λ t. t ++ records fs) (append-nil f.bytes))
  recorded-cons false content f fs = refl

  -- Neither the handler nor the file on the disk is changed by writing a record.
  abbrev Keeps : World S → Bool × World S → Type 0
  Keeps w p = (p.1.handler ≡ w.handler) × (p.1.file ≡ w.file)

  save-Keeps : (f : Frame) (w : World S) → Keeps w (save cb fwrite f w)
  unfolding save write_pcap_record
  save-Keeps f w = go w.file_open (fwrite w.stream (pcap_record_header f)).0 f.bytes
    where
      after : World S
      after = record w { stream = (fwrite w.stream (pcap_record_header f)).1 }

      go :
          (o b : Bool) (xs : List ℕ)
          → Keeps w (elim o [
            | true ↦ elim b [ true ↦ write_data cb fwrite xs after | false ↦ (false, after) ]
            | false ↦ (true, w)
          ])
      go true true [] = (refl, refl)
      go true true (x ∷ xs) = (refl, refl)
      go true false xs = (refl, refl)
      go false b xs = (refl, refl)

  pub capture_loop-LoopEnds :
      (calls : Calls) (previous : Handler) (rs : List Recv) (w : World S)
      → LoopEnds calls previous rs w (capture_loop cb fwrite calls previous rs w)
  unfolding capture_loop
  capture_loop-LoopEnds calls previous [] w = (refl, (refl, nothing_new w.file_open w.stream), refl)
  capture_loop-LoopEnds calls previous (stopped ∷ rs) w = finish_run-stopped calls previous rs w
  capture_loop-LoopEnds calls previous (failed ∷ rs) w =
      finish_run-failed calls previous (failed ∷ rs) w w refl
  capture_loop-LoopEnds calls previous (received f ∷ rs) w =
      go (save cb fwrite f w) (λ w'. capture_loop-LoopEnds calls previous rs w') (save-Saved f w)
        (save-Keeps f w)
    where
      later :
          (w' w'' : World S)
          → Saved f w (true, w')
          → Captured (frames rs) (record w' { user = cb f w'.user }) w''
          → Captured (f ∷ frames rs) w w''
      later w' w'' (u, o, k) (u', k') = (
        u' ∙ ap (λ s. callbacks cb (frames rs) (cb f s)) u,
        k'
            ∙ ap (λ b. recorded b w'.stream (frames rs)) o
            ∙ ap (λ c. recorded w.file_open c (frames rs)) k
            ∙ recorded-cons w.file_open w.stream f (frames rs),
      )

      more :
          (w' : World S) (r : Run S)
          → Saved f w (true, w')
          → Keeps w (true, w')
          → LoopEnds calls previous rs (record w' { user = cb f w'.user }) r
          → LoopEnds calls previous (received f ∷ rs) w r
      more w' (waiting w'') s (h, d) (e, c, d') = (e, later w' w'' s c, d' ∙ d)
      more w' (returned true w'') s (h, d) (e, (i, h'), c, d') = (
        e,
        (i, h' ∙ ap (signal calls.restores previous) h),
        later w' w'' s c,
        subst (λ (b : Bool). IsOnDisk b w''.stream w.file w''.file) s.1
            (subst (λ (o : Option (List ℕ)). IsOnDisk w'.file_open w''.stream o w''.file) d d'),
      )
      more w' (returned false w'') s (h, d) (i, h') =
          (i, h' ∙ ap (signal calls.restores previous) h)
      more w' broken s k h = h

      go :
          (p : Bool × World S)
          → ((w' : World S)
              → LoopEnds calls previous rs w' (capture_loop cb fwrite calls previous rs w'))
          → Saved f w p
          → Keeps w p
          → LoopEnds calls previous (received f ∷ rs) w (elim p.0 [
            | true ↦ capture_loop cb fwrite calls previous rs (record p.1 { user = cb f p.1.user })
            | false ↦ finish_run cb fwrite calls previous false p.1
          ])
      go (true, w') ih s k = more w' _ s k (ih (record w' { user = cb f w'.user }))
      go (false, w') ih s k = finish_run-failed calls previous (received f ∷ rs) w w' k.0
