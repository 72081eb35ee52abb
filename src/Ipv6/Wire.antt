-- ===== src/Ipv6/Wire.antt =====
-- What `ipv6_parse` of src/c/ipv6_parser.c accepts, and that it reads nothing outside the datagram.
use my_wireshark.Base.{
  ℕ, ◌+◌, ◌/◌, ◌^◌, ◌≤◌, ◌<◌, ◌≡◌, ◌≢◌, refl, ◌∙◌, List, some, arith, length, length-drop, take,
  drop, if_elim, ltb, ltb→lt, ltb→le, ◌==◌, not, ◌⊎◌, inl, inr, true, false,
}
use my_wireshark.Wire.{accepted, byte_at, word_at, WithPayload}
use my_wireshark.Wire.Reads.{
  Ensures, bind-Ensures, byte_at-Ensures, word_at-Ensures, bytes_at-Ensures, IsWindow,
}
use my_wireshark.Ipv6.{Ipv6Header, ipv6_header_len, ipv6_fields, ipv6_parse}

module _ (buffer : List ℕ) (len : ℕ) (inside : len ≤ length buffer) where
  -- The fields that the layers above read.
  abbrev IsFields : ℕ → Ipv6Header → Type 0
  IsFields v h =
      (h.version ≡ v)
      × (word_at buffer 4 ≡ accepted h.payload_length)
      × (byte_at buffer 6 ≡ accepted h.next_header)
      × (h.src_addr ≡ take 16 (drop 8 buffer))
      × (h.dst_addr ≡ take 16 (drop 24 buffer))

  ipv6_fields-Ensures :
      (R : Type 0) (first v : ℕ) → 40 ≤ len → Ensures (IsFields v) R (ipv6_fields buffer first v)
  unfolding ipv6_fields
  ipv6_fields-Ensures R first v big = byte_at-Ensures P R buffer 1 _ (omega arith) λ _ _.
      byte_at-Ensures P R buffer 2 _ (omega arith) λ _ _.
        byte_at-Ensures P R buffer 3 _ (omega arith) λ _ _.
          word_at-Ensures P R buffer 4 _ (omega arith) λ _ q.
            byte_at-Ensures P R buffer 6 _ (omega arith) λ _ q'.
              byte_at-Ensures P R buffer 7 _ (omega arith) λ _ _.
                bytes_at-Ensures P R buffer 8 16 _ (omega arith) λ _ a.
                  bytes_at-Ensures P R buffer 24 16 _ (omega arith) λ _ b. (refl, q, q', a, b)
    where
      P : Ipv6Header → Type 0
      P = IsFields v

  -- Why a datagram is refused: fewer than 40 bytes, or another version than 6.
  abbrev pub IsIpv6Malformed : Type 0
  IsIpv6Malformed =
      (len < ipv6_header_len) ⊎ ((v : ℕ) × (byte_at buffer 0 ≡ accepted v) × (v / 16 ≢ 6))

  -- The datagram as accepted: version 6, the fields at their offsets, and a payload of all that is
  -- left of `len` after 40 bytes.
  abbrev pub IsIpv6 : WithPayload Ipv6Header → Type 0
  IsIpv6 r =
      IsWindow (λ (_ : Ipv6Header). ipv6_header_len) buffer len r
      × (ipv6_header_len + r.payload_len ≡ len)
      × (r.header.version ≡ 6)
      × (word_at buffer 4 ≡ accepted r.header.payload_length)
      × (byte_at buffer 6 ≡ accepted r.header.next_header)
      × (r.header.src_addr ≡ take 16 (drop 8 buffer))
      × (r.header.dst_addr ≡ take 16 (drop 24 buffer))

  version_no : (v : ℕ) → not (v / 16 == 6) ≡ true → v / 16 ≢ 6
  version_no v b = ground arith

  version_yes : (v : ℕ) → not (v / 16 == 6) ≡ false → v / 16 ≡ 6
  version_yes v b = ground arith

  -- `ipv6_parse` on a buffer of at least `len` bytes reads nothing outside the buffer. It gives
  -- version 6, the payload length, the next header and the two addresses from their offsets, and
  -- as payload all that is left of `len` after 40 bytes. It refuses only fewer than 40 bytes or
  -- another version.
  pub ipv6_parse-Ensures : Ensures IsIpv6 IsIpv6Malformed (ipv6_parse (some buffer) len true)
  unfolding ipv6_parse
  ipv6_parse-Ensures =
      if_elim (Ensures IsIpv6 IsIpv6Malformed) (ltb len 40) (λ e. inl (ltb→lt len 40 e))
        λ e.
          let big = ltb→le len 40 e in
          byte_at-Ensures IsIpv6 IsIpv6Malformed buffer 0 _ (omega arith) λ v q.
            if_elim (Ensures IsIpv6 IsIpv6Malformed) (not (v / 2 ^ 4 == 6))
              (λ b. inr (v, q, version_no v b))
              λ b.
                bind-Ensures IsIpv6 IsIpv6Malformed (IsFields (v / 2 ^ 4)) _ _
                  (ipv6_fields-Ensures IsIpv6Malformed v (v / 2 ^ 4) big)
                  λ h (k, l, m, o, p). (
                    (refl, omega arith, omega (arith, length-drop 40 buffer)),
                    omega arith,
                    k ∙ version_yes v b,
                    l,
                    m,
                    o,
                    p,
                  )
