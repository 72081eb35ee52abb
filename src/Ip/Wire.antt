-- ===== src/Ip/Wire.antt =====
-- What `ip_parse` of src/c/ip_parser.c accepts, and that it reads nothing outside the datagram.
use my_wireshark.Base.{
  ℕ, ◌+◌, ◌*◌, ◌%◌, ◌/◌, ◌^◌, ◌≤◌, ◌<◌, ◌≡◌, ◌≢◌, refl, ap, sym, ◌∙◌, subst, min, Bool, true, false,
  List, some, arith, length, IsBytes, drop, take, if_elim, ltb, ltb→lt, ltb→le, ◌||◌, ◌⊎◌, inl, inr,
  not, ◌==◌,
}
use my_wireshark.Base.Bits.{bit_and_mask}
use my_wireshark.Checksum.{checksum_verify}
use my_wireshark.Checksum.Sum.{word_sum, is_ones_sum}
use my_wireshark.Checksum.Verify.{checksum_verify_lem}
use my_wireshark.Wire.{accepted, reading, byte_at, word_at, WithPayload, with_payload}
use my_wireshark.Wire.Reads.{
  Ensures, bind-Ensures, byte_at-Ensures, word_at-Ensures, bytes_at-Ensures, IsWindow,
  IsWindow-within,
}
use my_wireshark.Ip.{IpHeader, available, ip_fields, ip_parse, ip_header_min_len}

module _ (buffer : List ℕ) (len : ℕ) (bytes : IsBytes buffer) (inside : len ≤ length buffer) where
  -- What the fields are that the rest depends on.
  abbrev IsFields : ℕ → ℕ → IpHeader → Type 0
  IsFields v words h =
      (h.version ≡ v)
      × (h.ihl ≡ words)
      × (word_at buffer 2 ≡ accepted h.total_length)
      × (h.checksum_valid ≡ is_ones_sum (word_sum (take (words * 4) buffer)))
      × (byte_at buffer 9 ≡ accepted h.protocol)
      × (h.src_addr ≡ take 4 (drop 12 buffer))
      × (h.dst_addr ≡ take 4 (drop 16 buffer))

  header_sum :
      (R : Type 0) (n : ℕ)
      → n ≤ len
      → n ≤ 65535
      → Ensures
          (λ (b : Bool). b ≡ is_ones_sum (word_sum (take n buffer)))
          R
          (reading (checksum_verify buffer n))
  header_sum R n h k = rw (checksum_verify_lem buffer n bytes (omega arith) k) refl

  ip_fields-Ensures :
      (R : Type 0) (v words : ℕ)
      → 20 ≤ len
      → words * 4 ≤ len
      → words < 16
      → Ensures (IsFields v words) R (ip_fields buffer v words (words * 4))
  unfolding ip_fields
  ip_fields-Ensures R v words big room small =
      bind-Ensures P R (λ (b : Bool). b ≡ is_ones_sum (word_sum (take (words * 4) buffer)))
        (reading (checksum_verify buffer (words * 4))) _
        (header_sum R (words * 4) (omega arith) (omega arith))
        λ valid ok. byte_at-Ensures P R buffer 1 _ (omega arith) λ _ _.
          word_at-Ensures P R buffer 2 _ (omega arith) λ total q.
            word_at-Ensures P R buffer 4 _ (omega arith) λ _ _.
              word_at-Ensures P R buffer 6 _ (omega arith) λ _ _.
                byte_at-Ensures P R buffer 8 _ (omega arith) λ _ _.
                  byte_at-Ensures P R buffer 9 _ (omega arith) λ _ qp.
                    word_at-Ensures P R buffer 10 _ (omega arith) λ _ _.
                      bytes_at-Ensures P R buffer 12 4 _ (omega arith) λ _ qs.
                        bytes_at-Ensures P R buffer 16 4 _ (omega arith)
                          λ _ qd. (refl, refl, q, ok, qp, qs, qd)
    where
      P : IpHeader → Type 0
      P = IsFields v words

  -- Why a datagram is refused: fewer than 20 bytes, or a first byte with another version than 4 or
  -- with a header length below 5 words or past `len`.
  abbrev pub IsIpMalformed : Type 0
  IsIpMalformed =
      (len < ip_header_min_len)
      ⊎ ((v : ℕ) × (byte_at buffer 0 ≡ accepted v)
          × ((v / 16 ≢ 4) ⊎ ((v % 16 < 5) ⊎ (len < v % 16 * 4))))

  -- The datagram as accepted: the payload ends at the smaller of `len` and the total length, or at
  -- `len` if the total length does not cover the header; the checksum is valid if the words of the
  -- header sum up to all ones.
  abbrev pub IsIpAccepted : WithPayload IpHeader → Type 0
  IsIpAccepted r =
      IsWindow (λ (h : IpHeader). h.ihl * 4) buffer len r
      × (r.header.version ≡ 4)
      × (5 ≤ r.header.ihl)
      × (word_at buffer 2 ≡ accepted r.header.total_length)
      × (((r.header.total_length < r.header.ihl * 4) × (r.header.ihl * 4 + r.payload_len ≡ len))
          ⊎ (r.header.ihl * 4 + r.payload_len ≡ min len r.header.total_length))
      × (r.header.checksum_valid ≡ is_ones_sum (word_sum (take (r.header.ihl * 4) buffer)))
      × (byte_at buffer 9 ≡ accepted r.header.protocol)
      × (r.header.src_addr ≡ take 4 (drop 12 buffer))
      × (r.header.dst_addr ≡ take 4 (drop 16 buffer))

  available-min :
      (n total : ℕ)
      → n ≤ len
      → ((total < n) × (n + available len n total ≡ len))
        ⊎ (n + available len n total ≡ min len total)
  unfolding available
  available-min n total h = ground arith

  available-le : (n total : ℕ) → n ≤ len → n + available len n total ≤ len
  unfolding available
  available-le n total h = ground arith

  bad_first :
      (v : ℕ)
      → (not (v / 16 == 4) || ltb (v % 16) 5 || ltb len (v % 16 * 4)) ≡ true
      → (v / 16 ≢ 4) ⊎ ((v % 16 < 5) ⊎ (len < v % 16 * 4))
  bad_first v b = ground arith

  good_first :
      (v : ℕ)
      → (not (v / 16 == 4) || ltb (v % 16) 5 || ltb len (v % 16 * 4)) ≡ false
      → (v / 16 ≡ 4) × (5 ≤ v % 16) × (v % 16 * 4 ≤ len)
  good_first v b = ground arith

  accept_lem :
      (v words : ℕ) (h : IpHeader)
      → IsFields v words h
      → (v ≡ 4) × (5 ≤ words) × (words * 4 ≤ len)
      → IsIpAccepted
          (with_payload h (drop (words * 4) buffer) (available len (words * 4) h.total_length))
  accept_lem v words h (a, b, c, d, at_9, at_12, at_16) (e, f, g) =
      let m = available len (words * 4) h.total_length in
      let k = available-le (words * 4) h.total_length g in
      let e' = available-min (words * 4) h.total_length g in
      (
        IsWindow-within (λ (h : IpHeader). h.ihl * 4) buffer len h (words * 4) m inside k
            (omega arith),
        omega arith,
        omega arith,
        c,
        subst
            (λ n.
              ((h.total_length < n * 4) × (n * 4 + m ≡ len)) ⊎ (n * 4 + m ≡ min len h.total_length))
            (sym b) e',
        d ∙ ap (λ n. is_ones_sum (word_sum (take (n * 4) buffer))) (sym b),
        at_9,
        at_12,
        at_16,
      )

  -- `ip_parse` on a buffer of bytes, at least `len`, reads nothing outside the buffer. What it
  -- accepts has version 4, a header of at least 5 words, and the protocol and the addresses from
  -- their offsets; its payload starts after the header and ends at the smaller of `len` and the
  -- total length, or at `len` if the total length does not cover the header; and `checksum_valid`
  -- tells whether the words of the header sum up to a positive multiple of 65535. It refuses only
  -- fewer than 20 bytes, another version, or a header length below 5 words or past `len`.
  pub ip_parse-Ensures : Ensures IsIpAccepted IsIpMalformed (ip_parse (some buffer) len true)
  unfolding ip_parse
  ip_parse-Ensures =
      if_elim (Ensures IsIpAccepted IsIpMalformed) (ltb len 20) (λ e. inl (ltb→lt len 20 e))
        λ e.
          byte_at-Ensures IsIpAccepted IsIpMalformed buffer 0 _ (omega (arith, ltb→le len 20 e))
            λ v q. rw (bit_and_mask 4 v) (
              if_elim (Ensures IsIpAccepted IsIpMalformed)
                (not (v / 2 ^ 4 == 4) || ltb (v % 16) 5 || ltb len (v % 16 * 4))
                (λ b. inr (v, q, bad_first v b))
                λ b.
                  bind-Ensures IsIpAccepted IsIpMalformed (IsFields (v / 2 ^ 4) (v % 16)) _ _
                    (ip_fields-Ensures IsIpMalformed (v / 2 ^ 4) (v % 16) (ltb→le len 20 e)
                      (good_first v b).2 (omega arith))
                    λ h s. accept_lem (v / 2 ^ 4) (v % 16) h s (good_first v b))
