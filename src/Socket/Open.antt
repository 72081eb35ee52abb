-- ===== src/Socket/Open.antt =====
-- What `raw_socket_open` of src/c/raw_socket.c takes, and what it gives back where it fails.
use my_wireshark.Base.{
  ℕ, ◌+◌, ◌-◌, ◌≡◌, refl, bit_and, bit_or, ◌==◌, ==_iff, if_elim, Bool, true, false, List, Option,
  none, some, arith, take,
}
use my_wireshark.Ring.{Block}
use my_wireshark.Socket.{
  iff_promisc, raw_socket_name_len, Answers, Process, SocketCtx, new_cursor, ifr_name, give_up,
  flags_set, set_promisc, map_ring, make_ring, with_flags, raw_socket_open,
}

-- The same descriptors, mappings and contexts.
pub record HoldsSame {K : Type 0} (p p' : Process K) : Type 0 where
  pub same_fds : p'.fds ≡ p.fds
  pub same_maps : p'.maps ≡ p.maps
  pub same_contexts : p'.contexts ≡ p.contexts

-- One more of each.
pub record HoldsMore {K : Type 0} (p p' : Process K) : Type 0 where
  pub more_fds : p'.fds ≡ p.fds + 1
  pub more_maps : p'.maps ≡ p.maps + 1
  pub more_contexts : p'.contexts ≡ p.contexts + 1

module _ {K : Type 0} (get_flags : K → List ℕ → Option ℕ)
    (set_flags : K → List ℕ → ℕ → Option K) where
  -- The kernel after IFF_PROMISC was set on a device that was without it, or was left alone.
  abbrev pub Promisc : List ℕ → K → Bool → K → Type 0
  Promisc name k true k' =
      (flags : ℕ) × (get_flags k (ifr_name name) ≡ some flags)
      × (bit_and flags iff_promisc ≡ 0)
      × (set_flags k (ifr_name name) (bit_or flags iff_promisc) ≡ some k')
  Promisc name k false k' = k' ≡ k

  abbrev pub Opens : Answers → List ℕ → Process K → Option SocketCtx × Process K → Type 0
  Opens a name p (none, p') =
      HoldsSame p p' × ((by_us : Bool) × Promisc name p.kernel by_us p'.kernel)
  Opens a name p (some ctx, p') =
      HoldsMore p p'
      × (ctx.device_name ≡ take (raw_socket_name_len - 1) name)
      × ((blocks : List Block) × (a.mmap ≡ some blocks) × (ctx.cursor ≡ new_cursor blocks))
      × Promisc name p.kernel ctx.promisc_set_by_us p'.kernel

  set_promisc-Promisc :
      (name : List ℕ) (k : K) (flags : ℕ)
      → get_flags k (ifr_name name) ≡ some flags
      → let (by_us, k') = set_promisc get_flags set_flags k (ifr_name name) flags in
        Promisc name k by_us k'
  unfolding set_promisc
  set_promisc-Promisc name k flags e =
      if_elim (λ (r : Bool × K). Promisc name k r.0 r.1) (bit_and flags iff_promisc == 0)
        (λ off. go off (set_flags k (ifr_name name) (bit_or flags iff_promisc)) refl) (λ _. refl)
    where
      go :
          (bit_and flags iff_promisc == 0) ≡ true
          → (o : Option K) → set_flags k (ifr_name name) (bit_or flags iff_promisc) ≡ o
          → Promisc name k
              (flags_set get_flags set_flags k o).0
              (flags_set get_flags set_flags k o).1
      go off none q = refl
      go off (some k') q = (flags, e, (==_iff (bit_and flags iff_promisc) 0).0 off, q)

  make_ring-Opens :
      (a : Answers) (name : List ℕ) (by_us : Bool) (p : Process K) (k : K)
      → Promisc name p.kernel by_us k
      → Opens a name p
          (make_ring get_flags set_flags a name by_us (record p { kernel = k; fds = p.fds + 1 }))
  unfolding make_ring
  make_ring-Opens a name by_us p k c =
      if_elim (Opens a name p) a.packet_version
        (λ _. if_elim (Opens a name p) a.packet_rx_ring (λ _. mapped a.mmap refl) (λ _. released))
        (λ _. released)
    where
      opened : Process K
      opened = record p { kernel = k; fds = p.fds + 1 }

      released : Opens a name p (give_up get_flags set_flags opened)
      released =
          (record { same_fds = omega arith; same_maps = refl; same_contexts = refl }, (by_us, c))

      mapped :
          (o : Option (List Block))
          → a.mmap ≡ o
          → Opens a name p (map_ring get_flags set_flags a name by_us o opened)
      mapped none q = released
      mapped (some blocks) q =
          if_elim (Opens a name p) a.malloc
            (λ _. (
              record { more_fds = refl; more_maps = refl; more_contexts = refl },
              refl,
              (blocks, q, refl),
              c,
            ))
            (λ _. (
              record { same_fds = omega arith; same_maps = omega arith; same_contexts = refl },
              (by_us, c),
            ))

  -- `raw_socket_open`, whichever calls of the system fail: with a null return every descriptor,
  -- mapping and context is given back; otherwise the context holds one of each, with the cursor at
  -- the start of the ring and the name cut to its buffer. It says exactly whether IFF_PROMISC was
  -- set on the device, which is done only where it was off; else the kernel's flags are left
  -- alone.
  pub raw_socket_open-Opens :
      (a : Answers) (name : List ℕ) (p : Process K)
      → Opens a name p (raw_socket_open get_flags set_flags a (some name) p)
  unfolding raw_socket_open with_flags
  raw_socket_open-Opens a name p =
      if_elim (Opens a name p) a.socket
        (λ _.
          if_elim (Opens a name p) a.bind_to_device
            (λ _. flagged (get_flags p.kernel (ifr_name name)) refl) (λ _. given_back))
        (λ _. (record { same_fds = refl; same_maps = refl; same_contexts = refl }, (false, refl)))
    where
      given_back : Opens a name p (give_up get_flags set_flags (record p { fds = p.fds + 1 }))
      given_back =
          (record { same_fds = omega arith; same_maps = refl; same_contexts = refl }, (false, refl))

      flagged :
          (o : Option ℕ)
          → get_flags p.kernel (ifr_name name) ≡ o
          → Opens a name p (with_flags get_flags set_flags a name o (record p { fds = p.fds + 1 }))
      flagged none e = given_back
      flagged (some flags) e =
          let r = set_promisc get_flags set_flags p.kernel (ifr_name name) flags in
          make_ring-Opens a name r.0 p r.1 (set_promisc-Promisc name p.kernel flags e)
