-- ===== src/Socket/Close.antt =====
-- What `raw_socket_close` of src/c/raw_socket.c gives back, and what a failed `raw_socket_open`
-- does not.
use my_wireshark.Base.{
  ℕ, zero, suc, ◌+◌, ◌-◌, ◌^◌, ◌≤◌, ◌<◌, ◌≡◌, refl, sym, ap, ◌∙◌, bit_and, bit_or, ==_iff,
  if◌then◌else◌, ◌&&◌, Bool, true, false, List, [], ◌∷◌, Option, none, some, arith, take, subst,
  ◌⊎◌, inl, inr,
}
use my_wireshark.Ring.{Block}
use my_wireshark.Socket.{
  iff_promisc, not_iff_promisc, raw_socket_name_len, ifnamsiz, Answers, Process, SocketCtx,
  ifr_name, give_up, flags_set, set_promisc, make_ring, with_flags, kernel_or, flags_cleared,
  clear_promisc, raw_socket_open, raw_socket_close,
}
use my_wireshark.Socket.Flags.{cleared-set}
use my_wireshark.Socket.Open.{HoldsSame, Promisc, Opens, raw_socket_open-Opens}

take-take : {A : Type 0} (m n : ℕ) (xs : List A) → m ≤ n → take m (take n xs) ≡ take m xs
take-take zero n xs h = refl
take-take (suc m) zero xs h = absurd (omega (arith, h))
take-take (suc m) (suc n) [] h = refl
take-take (suc m) (suc n) (x ∷ xs) h = ap (λ ys. x ∷ ys) (take-take m n xs (omega (arith, h)))

-- The calls after those for the flags all succeed.
abbrev pub is_mapped : Option (List Block) → Bool
is_mapped none = false
is_mapped (some blocks) = true

abbrev pub makes_ring : Answers → Bool
makes_ring a = a.packet_version && (a.packet_rx_ring && (is_mapped a.mmap && a.malloc))

module _ {K : Type 0} (get_flags : K → List ℕ → Option ℕ)
    (set_flags : K → List ℕ → ℕ → Option K) where
  -- What closing leaves of the kernel `k'` that opening left of `k`: unless opening set IFF_PROMISC
  -- nothing is done. If it did, the flags cannot be read now, or cannot be set, and the kernel
  -- stays, or it is set to the flags from before.
  abbrev pub FlagsRestored : List ℕ → ℕ → Bool → K → K → K → Type 0
  FlagsRestored own flags false k k' k₂ = (k' ≡ k) × (k₂ ≡ k)
  FlagsRestored own flags true k k' k₂ =
      (set_flags k own (bit_or flags iff_promisc) ≡ some k')
      × (((get_flags k' own ≡ none) × (k₂ ≡ k'))
          ⊎ (((set_flags k' own flags ≡ none) × (k₂ ≡ k')) ⊎ (set_flags k' own flags ≡ some k₂)))

  -- Clearing the bit writes the flags from before opening.
  restored :
      (name : List ℕ) (k k' : K) (ctx : SocketCtx) (flags : ℕ)
      → ctx.device_name ≡ take (raw_socket_name_len - 1) name
      → get_flags k (ifr_name name) ≡ some flags
      → flags < 2 ^ 16
      → ((k₁ : K)
          → set_flags k (ifr_name name) (bit_or flags iff_promisc) ≡ some k₁
          → (get_flags k₁ (ifr_name name) ≡ none)
            ⊎ (get_flags k₁ (ifr_name name) ≡ some (bit_or flags iff_promisc)))
      → Promisc get_flags set_flags name k ctx.promisc_set_by_us k'
      → FlagsRestored
          (ifr_name name)
          flags
          ctx.promisc_set_by_us
          k
          k'
          (clear_promisc get_flags set_flags ctx k')
  unfolding clear_promisc
  restored name k k' ctx flags n e small reads c =
      subst
        (λ (m : List ℕ). FlagsRestored own flags ctx.promisc_set_by_us k k' (
          if ctx.promisc_set_by_us
          then flags_cleared get_flags set_flags k' m (get_flags k' m)
          else k'))
        (sym
          (ap ifr_name n ∙ take-take (ifnamsiz - 1) (raw_socket_name_len - 1) name (omega arith)))
        (go ctx.promisc_set_by_us c)
    where
      own : List ℕ
      own = ifr_name name

      cleared : ℕ
      cleared = bit_and (bit_or flags iff_promisc) not_iff_promisc

      wrote :
          set_flags k own (bit_or flags iff_promisc) ≡ some k'
          → (o : Option K) → set_flags k' own flags ≡ o
          → FlagsRestored own flags true k k' (kernel_or get_flags set_flags k' o)
      wrote set none q = (set, inr (inl (q, refl)))
      wrote set (some k₂) q = (set, inr (inr q))

      go :
          (b : Bool)
          → Promisc get_flags set_flags name k b k'
          → FlagsRestored own flags b k k'
              (if b then flags_cleared get_flags set_flags k' own (get_flags k' own) else k')
      go false q = (q, q)
      go true (f', e', off, set) =
          let agree : f' ≡ flags = cc (e, e') in
          let set' : set_flags k own (bit_or flags iff_promisc) ≡ some k' =
            ap (λ (f : ℕ). set_flags k own (bit_or f iff_promisc)) (sym agree) ∙ set in
          let before : cleared ≡ flags =
            cleared-set flags small (ap (λ (f : ℕ). bit_and f iff_promisc) (sym agree) ∙ off) in
          by_reading set' before (reads k' set')
        where
          after : Option ℕ → K
          after o = flags_cleared get_flags set_flags k' own o

          by_reading :
              set_flags k own (bit_or flags iff_promisc) ≡ some k'
              → cleared ≡ flags
              → (get_flags k' own ≡ none) ⊎ (get_flags k' own ≡ some (bit_or flags iff_promisc))
              → FlagsRestored own flags true k k' (after (get_flags k' own))
          by_reading set' before (inl q) = (set', inl (q, ap after q))
          by_reading set' before (inr q) =
              subst (FlagsRestored own flags true k k')
                (sym (
                  ap after q
                  ∙ ap (λ (f : ℕ). kernel_or get_flags set_flags k' (set_flags k' own f)) before))
                (wrote set' (set_flags k' own flags) refl)

  -- The device's flags fit 16 bits, and once `raw_socket_open` has set IFF_PROMISC on it, reading
  -- its flags either fails or gives what was set. If `raw_socket_open` gives a context, then
  -- `raw_socket_close` on it leaves the process with the descriptors, mappings and contexts that
  -- were there before, whichever calls fail. If opening set the bit, then closing leaves the
  -- kernel as it is where reading the flags or setting them fails, and else sets exactly the flags
  -- that the device had before; if it did not, the kernel is as before.
  pub raw_socket_open-close :
      (a : Answers) (name : List ℕ) (p p₁ : Process K) (ctx : SocketCtx) (flags : ℕ)
      → get_flags p.kernel (ifr_name name) ≡ some flags
      → flags < 2 ^ 16
      → ((k : K)
          → set_flags p.kernel (ifr_name name) (bit_or flags iff_promisc) ≡ some k
          → (get_flags k (ifr_name name) ≡ none)
            ⊎ (get_flags k (ifr_name name) ≡ some (bit_or flags iff_promisc)))
      → raw_socket_open get_flags set_flags a (some name) p ≡ (some ctx, p₁)
      → let p₂ = raw_socket_close get_flags set_flags (some ctx) p₁ in
        HoldsSame p p₂
        × FlagsRestored (ifr_name name) flags ctx.promisc_set_by_us p.kernel p₁.kernel p₂.kernel
  unfolding raw_socket_close
  raw_socket_open-close a name p p₁ ctx flags e small reads q =
      let (more, n, _, c) =
        subst (Opens get_flags set_flags a name p) q
          (raw_socket_open-Opens get_flags set_flags a name p) in
      (
        record {
          same_fds = omega (arith, more.more_fds);
          same_maps = omega (arith, more.more_maps);
          same_contexts = omega (arith, more.more_contexts);
        },
        restored name p.kernel p₁.kernel ctx flags n e small reads c,
      )

  fails-kernel :
      (a : Answers) (name : List ℕ) (by_us : Bool) (p : Process K)
      → makes_ring a ≡ false
      → ((make_ring get_flags set_flags a name by_us p).0 ≡ none)
        × ((make_ring get_flags set_flags a name by_us p).1.kernel ≡ p.kernel)
  unfolding make_ring
  fails-kernel a name by_us p h = go a.packet_version a.packet_rx_ring a.mmap a.malloc h
    where
      go :
          (v r : Bool) (o : Option (List Block)) (m : Bool)
          → (v && (r && (is_mapped o && m))) ≡ false
          → let b = record a { packet_version = v; packet_rx_ring = r; mmap = o; malloc = m } in
            ((make_ring get_flags set_flags b name by_us p).0 ≡ none)
            × ((make_ring get_flags set_flags b name by_us p).1.kernel ≡ p.kernel)
      go false r o m e = (refl, refl)
      go true false o m e = (refl, refl)
      go true true none m e = (refl, refl)
      go true true (some blocks) false e = (refl, refl)
      go true true (some blocks) true e = cc

  set_promisc-on :
      (k : K) (name : List ℕ) (flags : ℕ) (k' : K)
      → bit_and flags iff_promisc ≡ 0
      → set_flags k name (bit_or flags iff_promisc) ≡ some k'
      → set_promisc get_flags set_flags k name flags ≡ (true, k')
  unfolding set_promisc
  set_promisc-on k name flags k' off set =
      ap
        (λ (t : Bool).
          if t
          then flags_set get_flags set_flags k (set_flags k name (bit_or flags iff_promisc))
          else (false, k))
        ((==_iff (bit_and flags iff_promisc) 0).1 off)
      ∙ ap (flags_set get_flags set_flags k) set

  -- If IFF_PROMISC can be set on a device that is without it, the flags are then read as they were
  -- set, and a call of `raw_socket_open` after that fails, then it returns null and the device keeps the bit: no context is left by which
  -- `raw_socket_close` would clear it.
  pub raw_socket_open-promisc :
      (a : Answers) (name : List ℕ) (p : Process K) (flags : ℕ) (k : K)
      → a.socket ≡ true
      → a.bind_to_device ≡ true
      → get_flags p.kernel (ifr_name name) ≡ some flags
      → bit_and flags iff_promisc ≡ 0
      → set_flags p.kernel (ifr_name name) (bit_or flags iff_promisc) ≡ some k
      → get_flags k (ifr_name name) ≡ some (bit_or flags iff_promisc)
      → makes_ring a ≡ false
      → let (ctx, p') = raw_socket_open get_flags set_flags a (some name) p in
        (ctx ≡ none) × (get_flags p'.kernel (ifr_name name) ≡ some (bit_or flags iff_promisc))
  unfolding raw_socket_open with_flags
  raw_socket_open-promisc a name p flags k s b e off set got h =
      let (fails, kept) = fails-kernel a name true (record opened { kernel = k }) h in
      let reached : raw_socket_open get_flags set_flags a (some name) p ≡ made (true, k) =
        ap (λ (t : Bool). if t then bound a.bind_to_device else (none, p)) s
        ∙ ap bound b
        ∙ ap (λ (o : Option ℕ). with_flags get_flags set_flags a name o opened) e
        ∙ ap made (set_promisc-on p.kernel own flags k off set) in
      (
        ap (λ (r : Option SocketCtx × Process K). r.0) reached ∙ fails,
        ap (λ (r : Option SocketCtx × Process K). get_flags r.1.kernel own) reached
            ∙ ap (λ (x : K). get_flags x own) kept
            ∙ got,
      )
    where
      own : List ℕ
      own = ifr_name name

      opened : Process K
      opened = record p { fds = p.fds + 1 }

      made : Bool × K → Option SocketCtx × Process K
      made r = make_ring get_flags set_flags a name r.0 (record opened { kernel = r.1 })

      bound : Bool → Option SocketCtx × Process K
      bound t =
          if t
          then with_flags get_flags set_flags a name (get_flags p.kernel own) opened
          else give_up get_flags set_flags opened
