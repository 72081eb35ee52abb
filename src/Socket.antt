-- ===== src/Socket.antt =====
-- `raw_socket_open` and `raw_socket_close` of src/c/raw_socket.c. The calls of the system that may
-- fail answer from a record; the flags of the devices are the kernel's, which is a parameter.
pub mod Flags
pub mod Open
pub mod Close
mod Tests
use my_wireshark.Base.{
  ℕ, ◌+◌, ◌-◌, bit_and, bit_or, ◌==◌, if◌then◌else◌, ◌&&◌, Bool, true, false, List, Option, none,
  some, take,
}
use my_wireshark.Ring.{Block, RawSocketCtx}

-- IFF_PROMISC, and its complement in the 16 bits of `ifr_flags`.
abbrev pub iff_promisc : ℕ
iff_promisc = 0x100

abbrev pub not_iff_promisc : ℕ
not_iff_promisc = 0xfeff

abbrev pub raw_socket_name_len : ℕ
raw_socket_name_len = 256

abbrev pub ifnamsiz : ℕ
ifnamsiz = 16

-- Whether the calls succeed; `mmap` gives the blocks of the ring.
pub record Answers : Type 0 where
  pub socket : Bool
  pub bind_to_device : Bool
  pub packet_version : Bool
  pub packet_rx_ring : Bool
  pub mmap : Option (List Block)
  pub malloc : Bool

-- What the process holds: descriptors, mappings of a ring and contexts on the heap, counted,
-- beside the state of the kernel.
pub record Process (K : Type 0) : Type 0 where
  pub kernel : K
  pub fds : ℕ
  pub maps : ℕ
  pub contexts : ℕ

-- The part of `raw_socket_ctx_t` that `raw_socket_recv` does not read, and the part that it reads.
pub record SocketCtx : Type 0 where
  pub device_name : List ℕ
  pub promisc_set_by_us : Bool
  pub cursor : RawSocketCtx

-- The cursor at the start of a new ring.
abbrev pub new_cursor : List Block → RawSocketCtx
new_cursor blocks = record {
  stop_requested = false;
  ring = blocks;
  cur_block = 0;
  cur_pkt_idx = 0;
  cur_pkt_offset = 0;
  cur_num_pkts = 0;
}

-- `ifr.ifr_name`
abbrev pub ifr_name : List ℕ → List ℕ
ifr_name name = take (ifnamsiz - 1) name

-- The counters that `getsockopt` reads, and whether `setsockopt` attaches the program;
-- `has_pointers` is false where a pointer is null.
unfoldable pub raw_socket_get_stats : Bool → Option (ℕ × ℕ) → Option (ℕ × ℕ)
raw_socket_get_stats has_pointers stats = if has_pointers then stats else none

unfoldable pub raw_socket_attach_filter : Bool → Bool → Bool
raw_socket_attach_filter has_pointers attaches = has_pointers && attaches

-- SIOCGIFFLAGS and SIOCSIFFLAGS on a device: `none` is a failure.
module _ {K : Type 0} (get_flags : K → List ℕ → Option ℕ)
    (set_flags : K → List ℕ → ℕ → Option K) where
  -- A return of null after `close(fd)`.
  abbrev pub give_up : Process K → Option SocketCtx × Process K
  give_up p = (none, record p { fds = p.fds - 1 })

  -- The flags with IFF_PROMISC, if they were without: whether they were set, and the kernel after.
  abbrev pub flags_set : K → Option K → Bool × K
  flags_set k none = (false, k)
  flags_set k (some k') = (true, k')

  unfoldable pub set_promisc : K → List ℕ → ℕ → Bool × K
  set_promisc k name flags =
      if bit_and flags iff_promisc == 0
      then flags_set k (set_flags k name (bit_or flags iff_promisc))
      else (false, k)

  -- From the mapping on.
  abbrev pub map_ring :
      Answers → List ℕ → Bool → Option (List Block) → Process K → Option SocketCtx × Process K
  map_ring a name by_us none p = give_up p
  map_ring a name by_us (some blocks) p =
      if a.malloc
      then (
        some (record {
          device_name = take (raw_socket_name_len - 1) name;
          promisc_set_by_us = by_us;
          cursor = new_cursor blocks;
        }),
        record p { maps = p.maps + 1; contexts = p.contexts + 1 },
      )
      else give_up (record p { maps = p.maps + 1 - 1 })

  -- From the request for TPACKET_V3 on.
  unfoldable pub make_ring : Answers → List ℕ → Bool → Process K → Option SocketCtx × Process K
  make_ring a name by_us p =
      if a.packet_version
      then (if a.packet_rx_ring then map_ring a name by_us a.mmap p else give_up p)
      else give_up p

  -- From the flags on.
  unfoldable pub with_flags : Answers → List ℕ → Option ℕ → Process K → Option SocketCtx × Process K
  unfolding set_promisc make_ring
  with_flags a name none p = give_up p
  with_flags a name (some flags) p =
      let (by_us, k) = set_promisc p.kernel (ifr_name name) flags in
      make_ring a name by_us (record p { kernel = k })

  unfoldable pub raw_socket_open :
      Answers → Option (List ℕ) → Process K → Option SocketCtx × Process K
  unfolding with_flags
  raw_socket_open a none p = (none, p)
  raw_socket_open a (some name) p =
      if a.socket
      then (let p' = record p { fds = p.fds + 1 } in
          if a.bind_to_device
          then with_flags a name (get_flags p'.kernel (ifr_name name)) p'
          else give_up p')
      else (none, p)

  abbrev pub kernel_or : K → Option K → K
  kernel_or k none = k
  kernel_or k (some k') = k'

  abbrev pub flags_cleared : K → List ℕ → Option ℕ → K
  flags_cleared k name none = k
  flags_cleared k name (some flags) = kernel_or k (set_flags k name (bit_and flags not_iff_promisc))

  -- The flags without IFF_PROMISC, if the context has set it.
  unfoldable pub clear_promisc : SocketCtx → K → K
  clear_promisc ctx k =
      let name = ifr_name ctx.device_name in
      if ctx.promisc_set_by_us then flags_cleared k name (get_flags k name) else k

  unfoldable pub raw_socket_close : Option SocketCtx → Process K → Process K
  unfolding clear_promisc
  raw_socket_close none p = p
  raw_socket_close (some ctx) p = record {
    kernel = clear_promisc ctx p.kernel;
    fds = p.fds - 1;
    maps = p.maps - 1;
    contexts = p.contexts - 1;
  }
