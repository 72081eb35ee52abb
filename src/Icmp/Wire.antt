-- ===== src/Icmp/Wire.antt =====
-- What `icmp_parse` of src/c/icmp_parser.c accepts, and that it reads nothing outside the message.
use my_wireshark.Base.{
  ◌+◌, take, IsBytes, ℕ, ◌≤◌, ◌<◌, ◌≡◌, refl, sym, true, false, List, some, arith, length, if_elim,
  ◌⊎◌, inl, inr, ltb, ltb→lt, ltb→le, ◌==◌, ◌||◌,
}
use my_wireshark.Wire.{accepted, byte_at, word_at}
use my_wireshark.Wire.Reads.{Ensures, byte_at-Ensures, word_at-Ensures}
use my_wireshark.Checksum.Sum.{word_sum, is_ones_sum}
use my_wireshark.Checksum.Verify.{checksum_verify_ipv6_pseudo_lem, rfc_pseudo_ipv6}
use my_wireshark.Icmp.{
  icmpv6_verify_checksum, Family, IcmpHeader, echo_request_type, echo_reply_type, icmp_header_len,
  icmp_parse,
}

module _ (buffer : List ℕ) (len : ℕ) (family : Family) (inside : len ≤ length buffer) where
  -- The message as accepted: an echo if its type is one of the family's two, and only then with an
  -- identifier and a sequence number.
  abbrev pub IsIcmp : IcmpHeader → Type 0
  IsIcmp h =
      (byte_at buffer 0 ≡ accepted h.type)
      × (byte_at buffer 1 ≡ accepted h.code)
      × (word_at buffer 2 ≡ accepted h.checksum)
      × (h.is_echo ≡ (h.type == echo_request_type family || h.type == echo_reply_type family))
      × (((h.is_echo ≡ true)
            × (word_at buffer 4 ≡ accepted h.echo_id)
            × (word_at buffer 6 ≡ accepted h.echo_seq))
          ⊎ ((h.is_echo ≡ false) × (h.echo_id ≡ 0) × (h.echo_seq ≡ 0)))

  -- `icmp_parse` on a buffer of at least `len` bytes reads nothing outside the buffer. It gives
  -- type, code and checksum from their offsets; the message is an echo if its type is one of the
  -- family's two, and only then has an identifier and a sequence number. It refuses only fewer
  -- than 8 bytes.
  pub icmp_parse-Ensures :
      Ensures IsIcmp (len < icmp_header_len) (icmp_parse (some buffer) len family true)
  unfolding icmp_parse
  icmp_parse-Ensures =
      if_elim (Ensures P R) (ltb len 8) (λ e. ltb→lt len 8 e)
        λ e.
          let big = ltb→le len 8 e in
          byte_at-Ensures P R buffer 0 _ (omega arith) λ t qt.
            byte_at-Ensures P R buffer 1 _ (omega arith) λ c qc.
              word_at-Ensures P R buffer 2 _ (omega arith) λ sum qs.
                if_elim (Ensures P R) (t == echo_request_type family || t == echo_reply_type family)
                  (λ b. word_at-Ensures P R buffer 4 _ (omega arith) λ id qi.
                    word_at-Ensures P R buffer 6 _ (omega arith)
                      λ seq qq. (qt, qc, qs, sym b, inl (refl, qi, qq)))
                  λ b. (qt, qc, qs, sym b, inr (refl, refl, refl))
    where
      P : IcmpHeader → Type 0
      P = IsIcmp

      R : Type 0
      R = len < icmp_header_len

-- An ICMPv6 message of up to 65535 bytes, of at least 8, is valid if its words and those of the
-- pseudo-header of RFC 2460, with next header 58, sum up to a positive multiple of 65535.
pub icmpv6_verify_checksum_lem :
    (segment : List ℕ) (n : ℕ) (src_ip dst_ip : List ℕ)
    → IsBytes segment
    → IsBytes src_ip
    → IsBytes dst_ip
    → n ≤ length segment
    → n ≤ 65535
    → length src_ip ≡ 16
    → length dst_ip ≡ 16
    → icmp_header_len ≤ n
    → icmpv6_verify_checksum (some segment) n (some src_ip) (some dst_ip)
      ≡ accepted
          (is_ones_sum (word_sum (rfc_pseudo_ipv6 src_ip dst_ip 58 n) + word_sum (take n segment)))
unfolding icmpv6_verify_checksum
icmpv6_verify_checksum_lem segment n src_ip dst_ip bytes hs hd inside small ls ld h =
    if_elim
      (λ r.
        r
        ≡ accepted (
            is_ones_sum
              (word_sum (rfc_pseudo_ipv6 src_ip dst_ip 58 n) + word_sum (take n segment))))
      (ltb n 8) (λ e. absurd (omega (arith, ltb→lt n 8 e)))
      λ _.
        rw
          (checksum_verify_ipv6_pseudo_lem segment src_ip dst_ip n 58 bytes hs hd ls ld
            (omega arith) inside small)
          refl
