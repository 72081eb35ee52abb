-- ===== src/Arp/Wire.antt =====
-- What `arp_parse` of src/c/arp_parser.c accepts, and that it reads nothing outside the packet.
use my_wireshark.Base.{
  ℕ, ◌≤◌, ◌<◌, ◌≡◌, ◌≢◌, List, some, arith, length, take, drop, if_elim, ltb, ltb→lt, ltb→le, ◌==◌,
  not, ◌||◌, ◌⊎◌, inl, inr, true, false,
}
use my_wireshark.Wire.{accepted, byte_at, word_at}
use my_wireshark.Wire.Reads.{Ensures, byte_at-Ensures, word_at-Ensures, bytes_at-Ensures}
use my_wireshark.Arp.{ArpHeader, arp_header_len, arp_fields, arp_parse}

module _ (buffer : List ℕ) (len : ℕ) (inside : len ≤ length buffer) where
  -- A packet for IPv4 over Ethernet, with the fields of RFC 826 at their offsets.
  abbrev pub IsArp : ArpHeader → Type 0
  IsArp h =
      (h.hardware_type ≡ 1)
      × (h.protocol_type ≡ 0x0800)
      × (h.hardware_addr_len ≡ 6)
      × (h.protocol_addr_len ≡ 4)
      × (word_at buffer 6 ≡ accepted h.opcode)
      × (h.sender_mac ≡ take 6 (drop 8 buffer))
      × (h.sender_ip ≡ take 4 (drop 14 buffer))
      × (h.target_mac ≡ take 6 (drop 18 buffer))
      × (h.target_ip ≡ take 4 (drop 24 buffer))

  -- Why a packet is refused: fewer than 28 bytes, or another kind of address.
  abbrev pub IsOtherArp : Type 0
  IsOtherArp =
      (len < arp_header_len)
      ⊎ ((htype ptype hlen plen : ℕ) × (word_at buffer 0 ≡ accepted htype)
          × (word_at buffer 2 ≡ accepted ptype)
          × (byte_at buffer 4 ≡ accepted hlen)
          × (byte_at buffer 5 ≡ accepted plen)
          × ((htype ≢ 1) ⊎ ((ptype ≢ 0x0800) ⊎ ((hlen ≢ 6) ⊎ (plen ≢ 4)))))

  other :
      (a b c d : ℕ)
      → (not (a == 1) || not (b == 0x0800) || not (c == 6) || not (d == 4)) ≡ true
      → (a ≢ 1) ⊎ ((b ≢ 0x0800) ⊎ ((c ≢ 6) ⊎ (d ≢ 4)))
  other a b c d e = ground arith

  same :
      (a b c d : ℕ)
      → (not (a == 1) || not (b == 0x0800) || not (c == 6) || not (d == 4)) ≡ false
      → (a ≡ 1) × (b ≡ 0x0800) × (c ≡ 6) × (d ≡ 4)
  same a b c d e = ground arith

  arp_fields-Ensures :
      (R : Type 0) (a b c d : ℕ)
      → (a ≡ 1) × (b ≡ 0x0800) × (c ≡ 6) × (d ≡ 4)
      → 28 ≤ len
      → Ensures IsArp R (arp_fields buffer a b c d)
  unfolding arp_fields
  arp_fields-Ensures R a b c d (ea, eb, ec, ed) big =
      word_at-Ensures IsArp R buffer 6 _ (omega arith) λ _ q.
        bytes_at-Ensures IsArp R buffer 8 6 _ (omega arith) λ _ s.
          bytes_at-Ensures IsArp R buffer 14 4 _ (omega arith) λ _ t.
            bytes_at-Ensures IsArp R buffer 18 6 _ (omega arith) λ _ u.
              bytes_at-Ensures IsArp R buffer 24 4 _ (omega arith)
                λ _ v. (ea, eb, ec, ed, q, s, t, u, v)

  -- `arp_parse` on a buffer of at least `len` bytes reads nothing outside the buffer. What it
  -- accepts is for IPv4 over Ethernet and has the operation and the four addresses from their
  -- offsets. It refuses only fewer than 28 bytes, or other kinds or lengths of addresses.
  pub arp_parse-Ensures : Ensures IsArp IsOtherArp (arp_parse (some buffer) len true)
  unfolding arp_parse
  arp_parse-Ensures =
      if_elim (Ensures IsArp IsOtherArp) (ltb len 28) (λ e. inl (ltb→lt len 28 e))
        λ e.
          let big = ltb→le len 28 e in
          word_at-Ensures IsArp IsOtherArp buffer 0 _ (omega arith) λ a qa.
            word_at-Ensures IsArp IsOtherArp buffer 2 _ (omega arith) λ b qb.
              byte_at-Ensures IsArp IsOtherArp buffer 4 _ (omega arith) λ c qc.
                byte_at-Ensures IsArp IsOtherArp buffer 5 _ (omega arith) λ d qd.
                  if_elim (Ensures IsArp IsOtherArp)
                    (not (a == 1) || not (b == 0x0800) || not (c == 6) || not (d == 4))
                    (λ x. inr (a, b, c, d, qa, qb, qc, qd, other a b c d x))
                    λ x. arp_fields-Ensures IsOtherArp a b c d (same a b c d x) big
