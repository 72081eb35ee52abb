-- ===== src/Printer/Layers.antt =====
-- The checksum functions and the parsers as src/cpp/packet_printer.cpp calls them.
use my_wireshark.Base.{
  ℕ, ◌≤◌, ◌≡◌, Bool, List, some, arith, length, IsBytes, if_elim, ltb, ltb→le, ◌==◌,
}
use my_wireshark.Checksum.Verify.{
  checksum_verify_lem, checksum_verify_ipv4_pseudo_lem, checksum_verify_ipv6_pseudo_lem,
}
use my_wireshark.Wire.{Parse, accepted, rejected, fault}
use my_wireshark.Wire.Reads.{Ensures, word_at-Ensures}
use my_wireshark.Transport.Sums.{
  tcp_verify_checksum, udp_verify_checksum, tcp_verify_checksum_ipv6, udp_verify_checksum_ipv6,
}
use my_wireshark.Icmp.{icmpv4_verify_checksum, icmpv6_verify_checksum}
use my_wireshark.Printer.{Decoded, on_parse}

-- A call that gives a value, without a read outside the buffer.
abbrev pub Gives {ℓ} : {A : Type ℓ} → Parse A → Type 0
Gives {A = A} r = Ensures (λ (_ : A). Unit) ⊥ r

module _ (segment : List ℕ) (n : ℕ) (bytes : IsBytes segment) (inside : n ≤ length segment)
    (small : n ≤ 65535) where
  pub icmpv4_verify-Gives : Gives (icmpv4_verify_checksum (some segment) n)
  unfolding icmpv4_verify_checksum
  icmpv4_verify-Gives =
      if_elim Gives (ltb n 8) (λ _. tt)
        λ _. rw (checksum_verify_lem segment n bytes inside small) tt

  module _ (src dst : List ℕ) (hs : IsBytes src) (hd : IsBytes dst) where
    module _ (ls : length src ≡ 4) (ld : length dst ≡ 4) where
      pub tcp_verify-Gives : Gives (tcp_verify_checksum (some segment) n (some src) (some dst))
      unfolding tcp_verify_checksum
      tcp_verify-Gives =
          if_elim Gives (ltb n 20) (λ _. tt)
            λ _.
              rw
                (checksum_verify_ipv4_pseudo_lem segment src dst n 6 bytes hs hd ls ld (omega arith)
                  inside small)
                tt

      pub udp_verify-Gives : Gives (udp_verify_checksum (some segment) n (some src) (some dst))
      unfolding udp_verify_checksum
      udp_verify-Gives =
          if_elim Gives (ltb n 8) (λ _. tt)
            λ e.
              word_at-Ensures (λ (_ : Bool). Unit) ⊥ segment 6 _ (omega (arith, ltb→le n 8 e))
                λ field _.
                  if_elim Gives (field == 0) (λ _. tt)
                    λ _.
                      rw
                        (checksum_verify_ipv4_pseudo_lem segment src dst n 17 bytes hs hd ls ld
                          (omega arith) inside small)
                        tt

    module _ (ls : length src ≡ 16) (ld : length dst ≡ 16) where
      pub tcp_verify_ipv6-Gives :
          Gives (tcp_verify_checksum_ipv6 (some segment) n (some src) (some dst))
      unfolding tcp_verify_checksum_ipv6
      tcp_verify_ipv6-Gives =
          if_elim Gives (ltb n 20) (λ _. tt)
            λ _.
              rw
                (checksum_verify_ipv6_pseudo_lem segment src dst n 6 bytes hs hd ls ld (omega arith)
                  inside small)
                tt

      pub udp_verify_ipv6-Gives :
          Gives (udp_verify_checksum_ipv6 (some segment) n (some src) (some dst))
      unfolding udp_verify_checksum_ipv6
      udp_verify_ipv6-Gives =
          if_elim Gives (ltb n 8) (λ _. tt)
            λ _.
              rw
                (checksum_verify_ipv6_pseudo_lem segment src dst n 17 bytes hs hd ls ld
                  (omega arith) inside small)
                tt

      pub icmpv6_verify-Gives :
          Gives (icmpv6_verify_checksum (some segment) n (some src) (some dst))
      unfolding icmpv6_verify_checksum
      icmpv6_verify-Gives =
          if_elim Gives (ltb n 8) (λ _. tt)
            λ _.
              rw
                (checksum_verify_ipv6_pseudo_lem segment src dst n 58 bytes hs hd ls ld
                  (omega arith) inside small)
                tt

pub on_parse-Ensures :
    {A : Type 0} (P : Decoded → Type 0) (Q : A → Type 0) (R : Type 0) (r : Parse A)
    (k : A → Parse Decoded) (other : Decoded)
    → Ensures Q R r
    → ((a : A) → Q a → Ensures P ⊥ (k a))
    → P other
    → Ensures P ⊥ (on_parse r k other)
on_parse-Ensures P Q R (accepted a) k other h f p = f a h
on_parse-Ensures P Q R rejected k other h f p = p
on_parse-Ensures P Q R fault k other h f p = h
