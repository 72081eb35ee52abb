-- ===== src/Ring/Lap.antt =====
-- Several blocks of the ring of src/c/raw_socket.c, read one after the other, round the end of the
-- ring.
use native.Mathlib.Nat.{mod-eq_of_lt, mod_self}
use my_wireshark.Base.{
  ℕ, zero, suc, ◌+◌, ◌%◌, ◌≤◌, ◌<◌, ◌≡◌, ◌≢◌, refl, sym, ap, ap₂, ◌∙◌, subst, ◌⊎◌, inl, inr, true,
  false, List, [], ◌∷◌, ◌++◌, Option, none, some, arith, length, get_elem?, set, map, le_or_lt,
}
use my_wireshark.Capture.{Frame}
use my_wireshark.Ring.{PacketHeader, Block, RawSocketCtx, frame_of, Poll}
use my_wireshark.Ring.Drain.{IsChain, receive, raw_socket_recv-Drains}

-- A block with its packets: the first and the others.
pub record Filled : Type 0 where
  pub block : Block
  pub first : PacketHeader
  pub others : List PacketHeader

abbrev pub returned_block : Block → Block
returned_block bd = record bd { is_user = false }

-- The blocks from place `i` of the ring on, which the kernel has closed with their packets in a
-- chain.
abbrev pub AreReady : List Block → ℕ → List Filled → Type 0
AreReady ring i [] = Unit
AreReady ring i (b ∷ bs) =
    (get_elem? ring i ≡ some b.block)
    × (b.block.is_user ≡ true)
    × (b.block.num_pkts ≡ suc (length b.others))
    × IsChain b.block b.block.offset_to_first_pkt (b.first ∷ b.others)
    × AreReady ring ((i + 1) % length ring) bs

-- The ring after those blocks are the kernel's again, and the place after them.
abbrev pub given_back : List Block → ℕ → List Filled → List Block
given_back ring i [] = ring
given_back ring i (b ∷ bs) =
    given_back (set ring i (returned_block b.block)) ((i + 1) % length ring) bs

abbrev pub place_after : ℕ → ℕ → List Filled → ℕ
place_after n i [] = i
place_after n i (b ∷ bs) = place_after n ((i + 1) % n) bs

-- The frames of the blocks.
abbrev pub frames_of : ℕ → List Filled → List Frame
frames_of buf_len [] = []
frames_of buf_len (b ∷ bs) = map (frame_of buf_len) (b.first ∷ b.others) ++ frames_of buf_len bs

length-set : (ring : List Block) (i : ℕ) (b : Block) → length (set ring i b) ≡ length ring
length-set [] i b = refl
length-set (x ∷ ring) zero b = refl
length-set (x ∷ ring) (suc i) b = ap suc (length-set ring i b)

get_elem?-set_other :
    (ring : List Block) (i j : ℕ) (b : Block)
    → i ≢ j
    → get_elem? (set ring i b) j ≡ get_elem? ring j
get_elem?-set_other [] i j b d = refl
get_elem?-set_other (x ∷ ring) zero zero b d = absurd (d refl)
get_elem?-set_other (x ∷ ring) zero (suc j) b d = refl
get_elem?-set_other (x ∷ ring) (suc i) zero b d = refl
get_elem?-set_other (x ∷ ring) (suc i) (suc j) b d =
    get_elem?-set_other ring i j b (λ e. d (ap suc e))

-- The next place of a ring of `n`.
next_place :
    (n i : ℕ) → i < n → (((i + 1) % n ≡ i + 1) × (i + 1 < n)) ⊎ (((i + 1) % n ≡ 0) × (i + 1 ≡ n))
next_place n i h = elim (le_or_lt n (i + 1)) [
  | inl l ↦ let e : i + 1 ≡ n = omega (arith, h, l) in inr (ap (λ (k : ℕ). k % n) e ∙ mod_self n, e)
  | inr l ↦ inl (mod-eq_of_lt l, l)
]

-- Place `j` is `d` places after place `i`.
abbrev IsAhead : ℕ → ℕ → ℕ → ℕ → Type 0
IsAhead n i d j = (j ≡ i + d) ⊎ (j + n ≡ i + d)

next-IsAhead :
    (n i d j : ℕ)
    → i < n
    → j < n
    → d + 1 < n
    → IsAhead n i d j
    → IsAhead n i (d + 1) ((j + 1) % n) × ((j + 1) % n < n)
next-IsAhead n i d j hi hj hd a = go (next_place n j hj) a
  where
    go :
        (((j + 1) % n ≡ j + 1) × (j + 1 < n)) ⊎ (((j + 1) % n ≡ 0) × (j + 1 ≡ n))
        → IsAhead n i d j
        → IsAhead n i (d + 1) ((j + 1) % n) × ((j + 1) % n < n)
    go (inl (e, l)) (inl q) = (inl (omega (arith, e, q)), omega (arith, e, l))
    go (inl (e, l)) (inr q) = (inr (omega (arith, e, q)), omega (arith, e, l))
    go (inr (e, l)) (inl q) = (inr (omega (arith, e, l, q)), omega (arith, e, hj))
    go (inr (e, l)) (inr q) = absurd (omega (arith, l, q, hi, hd))

one_step : (n i : ℕ) → i < n → IsAhead n i 1 ((i + 1) % n) × ((i + 1) % n < n)
one_step n i h = elim (next_place n i h) [
  | inl (e, l) ↦ (inl e, omega (arith, e, l))
  | inr (e, l) ↦ (inr (omega (arith, e, l)), omega (arith, e, h))
]

IsAhead-apart : (n i d j k : ℕ) → 0 < d → d + suc k ≤ n → IsAhead n i d j → i ≢ j
IsAhead-apart n i d j k hd l (inl q) e = absurd (omega (arith, q, e, hd))
IsAhead-apart n i d j k hd l (inr q) e = absurd (omega (arith, q, e, l))

-- A write to a place leaves the blocks ready that come after it, up to a whole lap.
AreReady-set :
    (ring : List Block) (i d j : ℕ) (v : Block) (bs : List Filled)
    → i < length ring
    → j < length ring
    → 0 < d
    → d + length bs ≤ length ring
    → IsAhead (length ring) i d j
    → AreReady ring j bs
    → AreReady (set ring i v) j bs
AreReady-set ring i d j v [] hi hj hd l a r = tt
AreReady-set ring i d j v (b ∷ []) hi hj hd l a (g, u, n, c, r) =
    (get_elem?-set_other ring i j v (IsAhead-apart (length ring) i d j 0 hd l a) ∙ g, u, n, c, tt)
AreReady-set ring i d j v (b ∷ b' ∷ bs) hi hj hd l a (g, u, n, c, r) =
    let (a', hj') = next-IsAhead (length ring) i d j hi hj (omega (arith, l)) a in
    (
      get_elem?-set_other ring i j v (IsAhead-apart (length ring) i d j (length (b' ∷ bs)) hd l a)
          ∙ g,
      u,
      n,
      c,
      subst (λ (k : ℕ). AreReady (set ring i v) ((j + 1) % k) (b' ∷ bs)) (sym (length-set ring i v))
          (AreReady-set ring i (d + 1) ((j + 1) % length ring) v (b' ∷ bs) hi hj' (omega arith)
            (omega (arith, l)) a' r),
    )

-- The frames of some calls and those of the calls after them.
abbrev pub joined :
    List Frame → Option (List Frame × RawSocketCtx) → Option (List Frame × RawSocketCtx)
joined fs none = none
joined fs (some (gs, c)) = some (fs ++ gs, c)

module _ (fuel buf_len : ℕ) (polls : List Poll) where
  -- As many calls of `raw_socket_recv` as the blocks have packets, block by block.
  abbrev pub receive_blocks : List Filled → RawSocketCtx → Option (List Frame × RawSocketCtx)
  receive_blocks [] ctx = some ([], ctx)
  receive_blocks (b ∷ bs) ctx =
      elim (receive (suc fuel) buf_len polls (suc (length b.others)) ctx) [
        | none ↦ none
        | some (fs, c) ↦ joined fs (receive_blocks bs c)
      ]

  -- The kernel has closed some blocks of the ring, no more than it has, one after the other from
  -- the cursor on and round the end of the ring, with their packets in chains, and no stop is
  -- requested. Then as many calls of `raw_socket_recv` as those blocks have packets give all the
  -- packets in order, each cut to the buffer; afterwards the blocks are the kernel's again, the
  -- others are as they were, and the cursor stands before the first block that was not read.
  pub raw_socket_recv-laps :
      (bs : List Filled) (ctx : RawSocketCtx)
      → ctx.stop_requested ≡ false
      → ctx.cur_pkt_idx ≡ 0
      → ctx.cur_block < length ctx.ring
      → length bs ≤ length ctx.ring
      → AreReady ctx.ring ctx.cur_block bs
      → (c : RawSocketCtx) × (receive_blocks bs ctx ≡ some (frames_of buf_len bs, c))
        × (c.ring ≡ given_back ctx.ring ctx.cur_block bs)
        × (c.cur_block ≡ place_after (length ctx.ring) ctx.cur_block bs)
        × (c.cur_pkt_idx ≡ 0)
        × (c.stop_requested ≡ false)
  raw_socket_recv-laps [] ctx s x h l r = (ctx, refl, refl, refl, x, s)
  raw_socket_recv-laps (b ∷ bs) ctx s x h l (g, u, n, chain, r) =
      let (c, e, o) =
        raw_socket_recv-Drains fuel buf_len polls b.block ctx b.first b.others s x g u n chain in
      let n₁ : length c.ring ≡ length ctx.ring =
        ap length o.ring_after ∙ length-set ctx.ring ctx.cur_block (returned_block b.block) in
      let (a, hj) = one_step (length ctx.ring) ctx.cur_block h in
      let ready : AreReady c.ring c.cur_block bs =
        subst (λ (i : ℕ). AreReady c.ring i bs) (sym o.block_after)
          (subst (λ (ring : List Block). AreReady ring ((ctx.cur_block + 1) % length ctx.ring) bs)
            (sym o.ring_after)
            (AreReady-set ctx.ring ctx.cur_block 1 ((ctx.cur_block + 1) % length ctx.ring)
              (returned_block b.block) bs h hj (omega arith) (omega (arith, l)) a r)) in
      let (c', e', ring, place, x', s') =
        raw_socket_recv-laps bs c o.stop_after o.idx_after (omega (arith, o.block_after, n₁, hj))
          (omega (arith, n₁, l)) ready in
      (
        c',
        ap
              (λ (q : Option (List Frame × RawSocketCtx)). elim q [
                | none ↦ none
                | some (fs, c₁) ↦ joined fs (receive_blocks bs c₁)
              ])
              e
            ∙ ap (joined (map (frame_of buf_len) (b.first ∷ b.others))) e',
        ring
            ∙ ap₂ (λ (blocks : List Block) (i : ℕ). given_back blocks i bs) o.ring_after
                o.block_after,
        place ∙ ap₂ (λ (k i : ℕ). place_after k i bs) n₁ o.block_after,
        x',
        s',
      )
