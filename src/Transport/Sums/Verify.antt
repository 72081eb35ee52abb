-- ===== src/Transport/Sums/Verify.antt =====
-- What the checksum functions of src/c/tcp_udp_parser.c decide of a segment.
use my_wireshark.Base.{
  ℕ, ◌+◌, ◌≤◌, ◌≡◌, refl, Bool, true, false, List, some, arith, length, take, IsBytes, if_elim, ltb,
  ltb→lt, ◌==◌, if◌then◌else◌,
}
use my_wireshark.Checksum.Sum.{word_sum, is_ones_sum}
use my_wireshark.Checksum.Verify.{
  checksum_verify_ipv4_pseudo_lem, checksum_verify_ipv6_pseudo_lem, rfc_pseudo_ipv4,
  rfc_pseudo_ipv6,
}
use my_wireshark.Wire.{Parse, accepted, word_at}
use my_wireshark.Transport.{tcp_header_min_len, udp_header_len}
use my_wireshark.Transport.Sums.{
  tcp_verify_checksum_ipv6, tcp_verify_checksum, udp_verify_checksum, udp_verify_checksum_ipv6,
}

module _ (segment : List ℕ) (n : ℕ) (bytes : IsBytes segment) (inside : n ≤ length segment)
    (small : n ≤ 65535) where
  module _ (src_ip dst_ip : List ℕ) (src_bytes : IsBytes src_ip) (dst_bytes : IsBytes dst_ip)
      (src_len : length src_ip ≡ 4) (dst_len : length dst_ip ≡ 4) where
    -- Over IPv4, a TCP segment of up to 65535 bytes, of at least 20, is valid if its words and
    -- those of the pseudo-header of RFC 793 sum up to a positive multiple of 65535.
    pub tcp_verify_checksum_lem :
        tcp_header_min_len ≤ n
        → tcp_verify_checksum (some segment) n (some src_ip) (some dst_ip)
          ≡ accepted (
              is_ones_sum
                (word_sum (rfc_pseudo_ipv4 src_ip dst_ip 6 n) + word_sum (take n segment)))
    unfolding tcp_verify_checksum
    tcp_verify_checksum_lem h =
        if_elim
          (λ r.
            r
            ≡ accepted (
                is_ones_sum
                  (word_sum (rfc_pseudo_ipv4 src_ip dst_ip 6 n) + word_sum (take n segment))))
          (ltb n 20) (λ e. absurd (omega (arith, ltb→lt n 20 e)))
          λ _.
            rw
              (checksum_verify_ipv4_pseudo_lem segment src_ip dst_ip n 6 bytes src_bytes dst_bytes
                src_len dst_len (omega arith) inside small)
              refl

    -- Over IPv4, a UDP segment of up to 65535 bytes, of at least 8, is valid if its checksum field
    -- is 0, and otherwise if its words and those of the pseudo-header sum up to a positive
    -- multiple of 65535.
    pub udp_verify_checksum_lem :
        (field : ℕ)
        → udp_header_len ≤ n
        → word_at segment 6 ≡ accepted field
        → udp_verify_checksum (some segment) n (some src_ip) (some dst_ip)
          ≡ accepted (
              if field == 0
              then true
              else is_ones_sum
                  (word_sum (rfc_pseudo_ipv4 src_ip dst_ip 17 n) + word_sum (take n segment)))
    unfolding udp_verify_checksum
    udp_verify_checksum_lem field h e =
        if_elim
          (λ r.
            r
            ≡ accepted (
                if field == 0
                then true
                else is_ones_sum
                    (word_sum (rfc_pseudo_ipv4 src_ip dst_ip 17 n) + word_sum (take n segment))))
          (ltb n 8) (λ e. absurd (omega (arith, ltb→lt n 8 e)))
          λ _.
            rw
              (
                e,
                checksum_verify_ipv4_pseudo_lem segment src_ip dst_ip n 17 bytes src_bytes dst_bytes
                    src_len dst_len (omega arith) inside small,
              )
              (both (field == 0) _)
      where
        both :
            (b c : Bool)
            → ◌≡◌ {A = Parse Bool}
                (if b then accepted true else accepted c)
                (accepted (if b then true else c))
        both true c = refl
        both false c = refl

  module _ (src_ip dst_ip : List ℕ) (src_bytes : IsBytes src_ip) (dst_bytes : IsBytes dst_ip)
      (src_len : length src_ip ≡ 16) (dst_len : length dst_ip ≡ 16) where
    -- Over IPv6, a UDP segment of up to 65535 bytes, of at least 8, is valid if its words and
    -- those of the pseudo-header of RFC 2460 sum up to a positive multiple of 65535, whatever its
    -- checksum field is.
    pub udp_verify_checksum_ipv6_lem :
        udp_header_len ≤ n
        → udp_verify_checksum_ipv6 (some segment) n (some src_ip) (some dst_ip)
          ≡ accepted (
              is_ones_sum
                (word_sum (rfc_pseudo_ipv6 src_ip dst_ip 17 n) + word_sum (take n segment)))
    unfolding udp_verify_checksum_ipv6
    udp_verify_checksum_ipv6_lem h =
        if_elim
          (λ r.
            r
            ≡ accepted (
                is_ones_sum
                  (word_sum (rfc_pseudo_ipv6 src_ip dst_ip 17 n) + word_sum (take n segment))))
          (ltb n 8) (λ e. absurd (omega (arith, ltb→lt n 8 e)))
          λ _.
            rw
              (checksum_verify_ipv6_pseudo_lem segment src_ip dst_ip n 17 bytes src_bytes dst_bytes
                src_len dst_len (omega arith) inside small)
              refl

    -- Over IPv6, a TCP segment of up to 65535 bytes, of at least 20, is valid if its words and
    -- those of the pseudo-header of RFC 2460 sum up to a positive multiple of 65535.
    pub tcp_verify_checksum_ipv6_lem :
        tcp_header_min_len ≤ n
        → tcp_verify_checksum_ipv6 (some segment) n (some src_ip) (some dst_ip)
          ≡ accepted (
              is_ones_sum
                (word_sum (rfc_pseudo_ipv6 src_ip dst_ip 6 n) + word_sum (take n segment)))
    unfolding tcp_verify_checksum_ipv6
    tcp_verify_checksum_ipv6_lem h =
        if_elim
          (λ r.
            r
            ≡ accepted (
                is_ones_sum
                  (word_sum (rfc_pseudo_ipv6 src_ip dst_ip 6 n) + word_sum (take n segment))))
          (ltb n 20) (λ e. absurd (omega (arith, ltb→lt n 20 e)))
          λ _.
            rw
              (checksum_verify_ipv6_pseudo_lem segment src_ip dst_ip n 6 bytes src_bytes dst_bytes
                src_len dst_len (omega arith) inside small)
              refl
