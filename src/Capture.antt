-- ===== src/Capture.antt =====
-- src/c/capture_backend_linux.c: the .pcap file it writes and the capture it runs. A file is the
-- list of its bytes. The structs are written as they lie in memory, the low byte of a number
-- first.
pub mod Pcap
pub mod Loop
pub mod Runs
pub mod Success
mod Tests
use my_wireshark.Base.{
  ℕ, suc, ◌+◌, ◌*◌, ◌/◌, ◌%◌, ◌^◌, ltb, ◌==◌, if◌then◌else◌, ◌&&◌, Bool, true, false, List, [], ◌∷◌,
  ◌++◌, Option, none, some, length,
}
use my_wireshark.Cap.Insn.{Insn}
use my_wireshark.Cap.Compile.{
  Outcome, program, everything, error, undefined, no_fuel, capfilter_compile,
}

-- A frame as `raw_socket_recv` gives it: the bytes in the buffer up to its result, and the time
-- stamp.
pub record Frame : Type 0 where
  pub bytes : List ℕ
  pub ts_seconds : ℕ
  pub ts_microseconds : ℕ

abbrev pub raw_socket_max_frame : ℕ
raw_socket_max_frame = 65536

-- `uint16_t` and `uint32_t`
abbrev pub u16 : ℕ → List ℕ
u16 n = n % 2 ^ 8 ∷ (n / 2 ^ 8 % 2 ^ 8) ∷ []

abbrev pub u32 : ℕ → List ℕ
u32 n = n % 2 ^ 8 ∷ (n / 2 ^ 8 % 2 ^ 8) ∷ (n / 2 ^ 16 % 2 ^ 8) ∷ (n / 2 ^ 24 % 2 ^ 8) ∷ []

abbrev pub pcap_magic_microseconds : ℕ
pcap_magic_microseconds = 0xa1b2c3d4

abbrev pub pcap_linktype_ethernet : ℕ
pcap_linktype_ethernet = 1

-- `pcap_global_header_t` as `write_pcap_global_header` fills it in
abbrev pub pcap_global_header : List ℕ
pcap_global_header =
    u32 pcap_magic_microseconds
    ++ (u16 2
        ++ (u16 4
            ++ (u32 0 ++ (u32 0 ++ (u32 raw_socket_max_frame ++ u32 pcap_linktype_ethernet)))))

-- `pcap_record_header_t` as `write_pcap_record` fills it in
abbrev pub pcap_record_header : Frame → List ℕ
pcap_record_header f =
    u32 f.ts_seconds ++ (u32 f.ts_microseconds ++ (u32 (length f.bytes) ++ u32 (length f.bytes)))

-- What `raw_socket_recv` returns: a frame, RAW_SOCKET_STOPPED, or -1.
pub data Recv : Type 0 where
  received : Frame → Recv
  stopped failed : Recv

-- What SIGINT does: the default, `on_sigint` of the source, or another handler.
pub data Handler : Type 0 where
  sig_dfl on_sigint : Handler
  other : ℕ → Handler

-- What the calls of the system answer during a run: whether they succeed, `signal` at its two
-- places too, and the results of `raw_socket_recv` and `raw_socket_get_stats`.
pub record Calls : Type 0 where
  pub alloc : Bool
  pub opens : Bool
  pub attaches : Bool
  pub fopens : Bool
  pub installs : Bool
  pub restores : Bool
  pub fcloses : Bool
  pub recvs : List Recv
  pub stats : Option (ℕ × ℕ)

-- What a run changes outside itself. `stream` is what the calls of `fwrite` have put into the
-- open FILE, and `file` the content of the output file on the disk: `none` where it is not
-- determined, which is from the opening of the file until `fclose` has written the stream, and
-- from then on if that fails. `handler` is the handler of SIGINT, `active` tells whether
-- `g_active_ctx` is set, `last_stats` is `none` while it is not valid, and `user` is what the
-- callback keeps.
pub record World (S : Type 0) : Type 0 where
  pub socket_open : Bool
  pub filter : Option (List Insn)
  pub file_open : Bool
  pub stream : List ℕ
  pub file : Option (List ℕ)
  pub handler : Handler
  pub active : Bool
  pub last_stats : Option (ℕ × ℕ)
  pub user : S

-- A return of 0 or -1, a capture that waits for the next frame, and a write in `capfilter_compile`
-- that C leaves undefined.
pub data Run (S : Type 0) : Type 0 where
  returned : Bool → World S → Run S
  waiting : World S → Run S
  broken : Run S

-- The program that the filter text is compiled to: `none` for no program.
pub data Chosen : Type 0 where
  chosen : Option (List Insn) → Chosen
  invalid wrong : Chosen

abbrev pub chosen_of : Outcome → Chosen
chosen_of everything = chosen none
chosen_of (program p) = chosen (some p)
chosen_of (error e) = invalid
chosen_of undefined = wrong
chosen_of no_fuel = wrong

unfoldable pub choose_filter : Bool → Option (List ℕ) → Chosen
choose_filter alloc none = chosen none
choose_filter alloc (some []) = chosen none
choose_filter alloc (some (ch ∷ rest)) = chosen_of (capfilter_compile alloc (some (ch ∷ rest)))

-- `signal(SIGINT, new)` on the handler that is there: a call that fails leaves it.
abbrev pub signal : Bool → Handler → Handler → Handler
signal true new handler = new
signal false new handler = handler

-- `previous_sigint_handler`: the result of the call that installs `on_sigint`, and SIG_DFL in place
-- of SIG_ERR.
abbrev pub previous_sigint_handler : Bool → Handler → Handler
previous_sigint_handler true handler = handler
previous_sigint_handler false handler = sig_dfl

-- The result of a run and the file on the disk after `fclose`, if a file is open.
abbrev pub fclose_result : Bool → Bool → Bool → Bool
fclose_result file_open fcloses result = elim file_open [
  | true ↦ fcloses && result
  | false ↦ result
]

abbrev pub fclose_file : Bool → Bool → List ℕ → Option (List ℕ) → Option (List ℕ)
fclose_file file_open fcloses stream file = elim file_open [
  | true ↦ if fcloses then some stream else none
  | false ↦ file
]

-- `cb` is the callback, and `fwrite stream bytes` whether a call took all of `bytes`, with the
-- bytes of the FILE after it.
module _ {S : Type 0} (cb : Frame → S → S) (fwrite : List ℕ → List ℕ → Bool × List ℕ) where
  unfoldable pub write_pcap_global_header : World S → Bool × World S
  write_pcap_global_header w =
      let (ok, content) = fwrite w.stream pcap_global_header in (ok, record w { stream = content })

  -- The second call is made for a frame that is not empty.
  abbrev pub write_data : List ℕ → World S → Bool × World S
  write_data [] w = (true, w)
  write_data (x ∷ xs) w =
      let (ok, content) = fwrite w.stream (x ∷ xs) in (ok, record w { stream = content })

  unfoldable pub write_pcap_record : Frame → World S → Bool × World S
  write_pcap_record f w =
      let (ok, content) = fwrite w.stream (pcap_record_header f) in
      elim ok [
        | true ↦ write_data f.bytes (record w { stream = content })
        | false ↦ (false, record w { stream = content })
      ]

  -- The record of a frame, if a file is written.
  unfoldable pub save : Frame → World S → Bool × World S
  unfolding write_pcap_record
  save f w = elim w.file_open [ true ↦ write_pcap_record f w | false ↦ (true, w) ]

  -- The end of `run_impl`, after its loop, with `previous_sigint_handler`.
  unfoldable pub finish_run : Calls → Handler → Bool → World S → Run S
  finish_run calls previous result w =
      returned (fclose_result w.file_open calls.fcloses result) (record w {
        handler = signal calls.restores previous w.handler;
        active = false;
        file_open = false;
        file = fclose_file w.file_open calls.fcloses w.stream w.file;
        last_stats = calls.stats;
        socket_open = false;
      })

  -- The loop, over the results of `raw_socket_recv`.
  unfoldable pub capture_loop : Calls → Handler → List Recv → World S → Run S
  unfolding save finish_run
  capture_loop calls previous [] w = waiting w
  capture_loop calls previous (stopped ∷ rs) w = finish_run calls previous true w
  capture_loop calls previous (failed ∷ rs) w = finish_run calls previous false w
  capture_loop calls previous (received f ∷ rs) w =
      let (ok, w') = save f w in
      elim ok [
        | true ↦ capture_loop calls previous rs (record w' { user = cb f w'.user })
        | false ↦ finish_run calls previous false w'
      ]

  abbrev pub start_loop : Calls → World S → Run S
  start_loop calls w =
      capture_loop calls (previous_sigint_handler calls.installs w.handler) calls.recvs
        (record w { handler = signal calls.installs on_sigint w.handler; active = true })

  -- Opening the output file: `none` and an empty path are no file.
  unfoldable pub open_file : Calls → Option (List ℕ) → World S → Run S
  unfolding write_pcap_global_header capture_loop
  open_file calls none w = start_loop calls w
  open_file calls (some []) w = start_loop calls w
  open_file calls (some (ch ∷ path)) w =
      if calls.fopens
      then (let (ok, w') =
            write_pcap_global_header (record w { file_open = true; stream = []; file = none }) in
          elim ok [
            | true ↦ start_loop calls w'
            | false ↦ returned false (record w' { file_open = false; socket_open = false })
          ])
      else returned false (record w { socket_open = false })

  unfoldable pub attach_filter : Calls → Option (List Insn) → Option (List ℕ) → World S → Run S
  unfolding open_file
  attach_filter calls none path w = open_file calls path w
  attach_filter calls (some prog) path w =
      if calls.attaches
      then open_file calls path (record w { filter = some prog })
      else returned false (record w { socket_open = false })

  -- `run_impl`; the device's name is left to the call that opens the socket.
  unfoldable pub run_impl : Calls → Option (List ℕ) → Option (List ℕ) → World S → Run S
  unfolding choose_filter attach_filter
  run_impl calls bpf_filter path w = elim (choose_filter calls.alloc bpf_filter) [
    | invalid ↦ returned false w
    | wrong ↦ broken
    | chosen prog ↦
        if calls.opens
        then attach_filter calls prog path (record w { socket_open = true; filter = none })
        else returned false w
  ]

-- `get_last_stats_impl`; `out` is false where its pointer is null.
unfoldable pub get_last_stats_impl : {S : Type 0} → Bool → World S → Option (ℕ × ℕ)
get_last_stats_impl out w = if out then w.last_stats else none
