-- ===== src/Main/Session.antt =====
-- With which device and filter src/main.cpp starts the capture, and what it then prints.
use my_wireshark.Base.{
  ℕ, ◌+◌, ◌*◌, ◌≤◌, ◌<◌, ◌≡◌, ◌≢◌, refl, sym, ap, ◌⊎◌, inl, inr, subst, Bool, true, false, List, [],
  ◌∷◌, ◌++◌, Option, none, some, if_elim, length, get_elem?, All, arith,
}
use my_wireshark.Cap.Insn.{Insn}
use my_wireshark.Base.Text.{c_str}
use my_wireshark.Capture.{Frame, Calls, World, returned, chosen, choose_filter, run_impl}
use my_wireshark.Capture.Pcap.{IsFrame}
use my_wireshark.Capture.Loop.{frames, stops, IsIdle}
use my_wireshark.Capture.Runs.{Outputs, IsShortText}
use my_wireshark.Devices.{CaptureDevice, capture_max_devices, list_devices_impl}
use my_wireshark.Disp.Node.{Node, null}
use my_wireshark.Disp.Lexer.{df_max_tokens}
use my_wireshark.Disp.Eval.Holds.{IsWellTyped}
use my_wireshark.Disp.Compile.{Outcome, filter, error, undefined, no_fuel, dispfilter_compile}
use my_wireshark.Disp.Compile.Correct.{
  parse-IsWellTyped, compile_text-IsParse, Returns, dispfilter_compile-Returns,
}
use my_wireshark.Printer.Decode.{IsFilter}
use my_wireshark.Pipeline.{Threads, Thread, run_threads, started, IsOver}
use my_wireshark.Pipeline.Underway.{IsCaught, Prints}
use my_wireshark.Pipeline.Live.{IsFair, schedule}
use my_wireshark.Pipeline.Whole.{gather, capture-print}
use my_wireshark.Main.{
  Options, no_options, ParsedArgs, options, bad_argument, parse_args, Entered, Selection,
  chosen_device, entered_on, select, capturing, undefined_start, compiled, selected, listed, parsed,
  main_start,
}

-- The selection is that of the options, with an interface given; or the user's, of a device in the
-- list.
abbrev pub Picks : Options → List CaptureDevice → Entered → Selection → Type 0
Picks o devices e s =
    ((o.have_iface ≡ true)
      × (s.device_name ≡ o.cli_iface)
      × (s.capture_filter ≡ o.cli_capture_filter)
      × (s.display_filter ≡ o.cli_display_filter)
      × (s.pcap_path ≡ o.cli_pcap_path))
    ⊎ ((o.have_iface ≡ false)
        × ((i : ℕ) × (device : CaptureDevice) × (e.choice ≡ some i)
            × (get_elem? devices i ≡ some device)
            × (s.device_name ≡ device.name))
        × (s.capture_filter ≡ e.capture_filter)
        × (s.display_filter ≡ e.display_filter)
        × (s.pcap_path ≡ e.pcap_path))

-- What a start of the capture has behind it: good arguments, a device in the list, a selection,
-- and a filter whose comparisons are well typed.
pub record Began (args : List (List ℕ)) (addrs : Option (List (Option (List ℕ)))) (e : Entered)
    (s : Selection) (root : Node) : Type 0 where
  pub given : Options
  pub devices : List CaptureDevice
  pub arguments : parse_args no_options args ≡ options given
  pub list : list_devices_impl capture_max_devices addrs ≡ some devices
  pub some_device : 0 < length devices
  pub picks : Picks given devices e s
  pub typed : IsFilter (some root)

-- A result of `select`.
abbrev MayPick : Options → List CaptureDevice → Entered → Option Selection → Type 0
MayPick o devices e none = Unit
MayPick o devices e (some s) = Picks o devices e s

select-MayPick :
    (o : Options) (devices : List CaptureDevice) (e : Entered)
    → MayPick o devices e (select o devices e)
unfolding select
select-MayPick o devices e =
    if_elim (MayPick o devices e) o.have_iface (λ h. inl (h, refl, refl, refl, refl))
      (λ h. choice h e.choice refl)
  where
    device :
        (i : ℕ) (r : Option CaptureDevice)
        → o.have_iface ≡ false
        → e.choice ≡ some i
        → get_elem? devices i ≡ r
        → MayPick o devices e (entered_on e r)
    device i none h c q = tt
    device i (some d) h c q = inr (h, (i, d, c, q, refl), refl, refl, refl)

    choice :
        o.have_iface ≡ false
        → (c : Option ℕ) → e.choice ≡ c
        → MayPick o devices e (entered_on e (chosen_device devices c))
    choice h none q = tt
    choice h (some i) q = device i (get_elem? devices i) h q refl

typed-IsFilter : (root : Node) → IsWellTyped root → IsFilter (some root)
typed-IsFilter null h = tt
typed-IsFilter _ h = h

compile-IsFilter :
    (alloc : Bool) (expr : List ℕ) {root : Node}
    → dispfilter_compile alloc (some expr) ≡ filter root
    → IsFilter (some root)
unfolding dispfilter_compile
compile-IsFilter false expr q = cc
compile-IsFilter true [] {root} q =
    let same : null ≡ root = cc in subst (λ (r : Node). IsFilter (some r)) same tt
compile-IsFilter true (ch ∷ rest) {root} q =
    typed-IsFilter root (parse-IsWellTyped (ch ∷ rest) root (compile_text-IsParse (ch ∷ rest) q))

main_start-Began :
    (alloc : Bool) (args : List (List ℕ)) (addrs : Option (List (Option (List ℕ)))) (e : Entered)
    {s : Selection} {root : Node}
    → main_start alloc args addrs e ≡ capturing s root
    → Began args addrs e s root
unfolding main_start
main_start-Began alloc args addrs e {s} {root} q = on_args (parse_args no_options args) refl q
  where
    on_filter :
        (o : Options) (d : CaptureDevice) (ds : List CaptureDevice) (t : Selection) (r : Outcome)
        → parse_args no_options args ≡ options o
        → list_devices_impl capture_max_devices addrs ≡ some (d ∷ ds)
        → Picks o (d ∷ ds) e t
        → dispfilter_compile alloc (some (c_str t.display_filter)) ≡ r
        → compiled t r ≡ capturing s root
        → Began args addrs e s root
    on_filter o d ds t (filter root') a l p f z =
        let same : t ≡ s = cc in
        let tree : root' ≡ root = cc in
        record {
          given = o;
          devices = d ∷ ds;
          arguments = a;
          list = l;
          some_device = omega arith;
          picks = subst (Picks o (d ∷ ds) e) same p;
          typed =
              subst (λ (n : Node). IsFilter (some n)) tree
                (compile-IsFilter alloc (c_str t.display_filter) f);
        }
    on_filter o d ds t (error x) a l p f z = cc
    on_filter o d ds t undefined a l p f z = cc
    on_filter o d ds t no_fuel a l p f z = cc

    on_selection :
        (o : Options) (d : CaptureDevice) (ds : List CaptureDevice) (t : Option Selection)
        → parse_args no_options args ≡ options o
        → list_devices_impl capture_max_devices addrs ≡ some (d ∷ ds)
        → MayPick o (d ∷ ds) e t
        → selected alloc t ≡ capturing s root
        → Began args addrs e s root
    on_selection o d ds none a l p z = cc
    on_selection o d ds (some t) a l p z =
        on_filter o d ds t (dispfilter_compile alloc (some (c_str t.display_filter))) a l p refl z

    on_list :
        (o : Options) (r : Option (List CaptureDevice))
        → parse_args no_options args ≡ options o
        → list_devices_impl capture_max_devices addrs ≡ r
        → listed alloc o e r ≡ capturing s root
        → Began args addrs e s root
    on_list o none a l z = cc
    on_list o (some []) a l z = cc
    on_list o (some (d ∷ ds)) a l z =
        on_selection o d ds (select o (d ∷ ds) e) a l (select-MayPick o (d ∷ ds) e) z

    on_args :
        (r : ParsedArgs)
        → parse_args no_options args ≡ r
        → parsed alloc addrs e r ≡ capturing s root
        → Began args addrs e s root
    on_args (bad_argument arg) a z = cc
    on_args (options o) a z = on_list o (list_devices_impl capture_max_devices addrs) a refl z

-- The bound of the queue that `main` makes.
abbrev pub default_max_size : ℕ
default_max_size = 4096

length-c_str : (xs : List ℕ) → length (c_str xs) ≤ length xs
unfolding c_str
length-c_str [] = omega arith
length-c_str (x ∷ xs) = ground (arith, length-c_str xs)

-- With texts for the display filter of fewer than 256 bytes, in the arguments and as entered,
-- `main` comes to the capture or to one of its messages: the lexer of `dispfilter_compile` does
-- not write past its tokens, and it ends.
pub main_start-defined :
    (alloc : Bool) (args : List (List ℕ)) (addrs : Option (List (Option (List ℕ)))) (e : Entered)
    (o : Options)
    → parse_args no_options args ≡ options o
    → length o.cli_display_filter < df_max_tokens
    → length e.display_filter < df_max_tokens
    → main_start alloc args addrs e ≢ undefined_start
unfolding main_start
main_start-defined alloc args addrs e o a given entered =
    subst (λ (r : ParsedArgs). parsed alloc addrs e r ≢ undefined_start) (sym a)
      (on_list (list_devices_impl capture_max_devices addrs))
  where
    on_filter : (t : Selection) (r : Outcome) → Returns r → compiled t r ≢ undefined_start
    on_filter t (filter root) h q = cc
    on_filter t (error x) h q = cc
    on_filter t undefined h q = h
    on_filter t no_fuel h q = h

    short :
        (devices : List CaptureDevice) (t : Selection)
        → Picks o devices e t
        → length t.display_filter < df_max_tokens
    short devices t (inl (_, _, _, d, _)) = omega (arith, ap length d, given)
    short devices t (inr (_, _, _, d, _)) = omega (arith, ap length d, entered)

    on_selection :
        (devices : List CaptureDevice) (t : Option Selection)
        → MayPick o devices e t
        → selected alloc t ≢ undefined_start
    on_selection devices none p q = cc
    on_selection devices (some t) p q =
        on_filter t (dispfilter_compile alloc (some (c_str t.display_filter)))
          (dispfilter_compile-Returns alloc (c_str t.display_filter)
            (omega (arith, length-c_str t.display_filter, short devices t p))).0
          q

    on_list : (r : Option (List CaptureDevice)) → listed alloc o e r ≢ undefined_start
    on_list none q = cc
    on_list (some []) q = cc
    on_list (some (d ∷ ds)) q =
        on_selection (d ∷ ds) (select o (d ∷ ds) e) (select-MayPick o (d ∷ ds) e) q

module _ (fwrite : List ℕ → List ℕ → Bool × List ℕ)
    (writes : (content bytes : List ℕ) → fwrite content bytes ≡ (true, content ++ bytes))
    (calls : Calls) (opens : calls.opens ≡ true) (attaches : calls.attaches ≡ true)
    (fopens : calls.fopens ≡ true) (installs : calls.installs ≡ true)
    (restores : calls.restores ≡ true) (fcloses : calls.fcloses ≡ true)
    (ends : stops calls.recvs ≡ true) (fit : All IsFrame (frames calls.recvs))
    (caught : All IsCaught (frames calls.recvs)) where
  -- The whole of `main`. It gets as far as the capture; the capture filter, of fewer than 256
  -- bytes, is compiled; every call of the system succeeds, the frames have up to 65536 bytes, and
  -- a request to stop ends them; and the threads take turns in rounds in which each has at least
  -- one, as many as twice the frames and two. Then the arguments were a command line, a device was
  -- listed, and the one taken is that of the arguments, or else the one of the list that the user
  -- chose; the capture returns 0, leaves nothing open and puts the handler of SIGINT back; both
  -- threads end; every frame that the capture gave out has been printed, once and in order, as
  -- `print_packet` shows it with the compiled display filter; and an output file, if one was named,
  -- is on the disk and read back as the same frames.
  pub main_start-run :
      (alloc : Bool) (args : List (List ℕ)) (addrs : Option (List (Option (List ℕ)))) (e : Entered)
      {s : Selection} {root : Node} {prog : Option (List Insn)} (w : World (List Frame))
      (rs : List (List Thread))
      → main_start alloc args addrs e ≡ capturing s root
      → choose_filter calls.alloc (some (c_str s.capture_filter)) ≡ chosen prog
      → IsShortText (some (c_str s.capture_filter))
      → IsIdle w
      → w.user ≡ []
      → All IsFair rs
      → 2 * length (frames calls.recvs) + 2 ≤ length rs
      → Began args addrs e s root
        × ((w' : World (List Frame)) × (p : Threads) × (run_impl gather fwrite calls
                (some (c_str s.capture_filter))
                (some (c_str s.pcap_path))
                w
              ≡ returned true w')
            × (run_threads (schedule rs) (started default_max_size (some root) w'.user) ≡ some p)
            × IsIdle w'
            × (w'.handler ≡ w.handler)
            × IsOver p
            × Outputs (some (c_str s.pcap_path)) (frames calls.recvs) w w'
            × Prints (some root) 0 (frames calls.recvs) p.printed)
  main_start-run alloc args addrs e {s} {root} w rs q chosen_text short idle empty fair enough =
      let began = main_start-Began alloc args addrs e q in
      (
        began,
        capture-print fwrite writes calls opens attaches fopens installs restores fcloses ends fit
            caught (some root) began.typed default_max_size (omega arith)
            (some (c_str s.capture_filter)) (some (c_str s.pcap_path)) w rs chosen_text short idle
            empty fair enough,
      )
