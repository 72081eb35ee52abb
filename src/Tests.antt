-- ===== src/Tests.antt =====
-- Headers for the parsers of src/c, and the theorems about them applied to these.
use my_wireshark.Base.{
  ℕ, ◌+◌, ◌≡◌, refl, true, List, [], ◌∷◌, ◌++◌, some, arith, take, replicate, IsBytes, all_test,
  IsBytes-test, if◌then◌else◌, ◌==◌,
}
use my_wireshark.Checksum.Sum.{word_sum, is_ones_sum}
use my_wireshark.Checksum.Verify.{rfc_pseudo_ipv4}
use my_wireshark.Wire.{accepted, word_at}
use my_wireshark.Wire.Reads.{Ensures}
use my_wireshark.Eth.{eth_parse}
use my_wireshark.Eth.Wire.{IsEthWindow, IsShort, eth_parse-Ensures}
use my_wireshark.Ip.{ip_parse}
use my_wireshark.Ip.Wire.{IsIpAccepted, IsIpMalformed, ip_parse-Ensures}
use my_wireshark.Ipv6.{ipv6_parse}
use my_wireshark.Ipv6.Wire.{IsIpv6, IsIpv6Malformed, ipv6_parse-Ensures}
use my_wireshark.Transport.{tcp_parse}
use my_wireshark.Transport.Wire.{IsTcp, IsTcpMalformed, tcp_parse-Ensures}
use my_wireshark.Transport.Sums.{udp_verify_checksum}
use my_wireshark.Transport.Sums.Verify.{udp_verify_checksum_lem}

-- A frame with a tag, 2 bytes of payload and padding.
abbrev tagged : List ℕ
tagged = replicate 12 0x11 ++ 0x81 ∷ 0 ∷ 0 ∷ 5 ∷ 8 ∷ 0 ∷ 1 ∷ 2 ∷ 0 ∷ 0 ∷ []

eth_parse-Ensures_example :
    Ensures (IsEthWindow tagged 20) (IsShort tagged 20) (eth_parse (some tagged) 20 true)
eth_parse-Ensures_example = eth_parse-Ensures tagged 20 (omega arith)

-- An IPv4 header, 3 bytes of which the total length covers 2.
abbrev datagram : List ℕ
datagram =
    0x45 ∷ 0 ∷ 0 ∷ 22 ∷ 0 ∷ 0 ∷ 0x40 ∷ 0 ∷ 0x40 ∷ 0x11 ∷ 0xb8 ∷ 0xbe ∷ 0xc0 ∷ 0xa8 ∷ 0 ∷ 1 ∷ 0xc0
    ∷ 0xa8 ∷ 0 ∷ 0xc7 ∷ 1 ∷ 2 ∷ 3 ∷ []

datagram-IsBytes : IsBytes datagram
unfolding all_test
datagram-IsBytes = IsBytes-test datagram refl

ip_parse-Ensures_example :
    Ensures
      (IsIpAccepted datagram 23 datagram-IsBytes (omega arith))
      (IsIpMalformed datagram 23 datagram-IsBytes (omega arith))
      (ip_parse (some datagram) 23 true)
ip_parse-Ensures_example = ip_parse-Ensures datagram 23 datagram-IsBytes (omega arith)

abbrev datagram6 : List ℕ
datagram6 = 0x60 ∷ 0 ∷ 0 ∷ 0 ∷ 0 ∷ 1 ∷ 17 ∷ 64 ∷ replicate 32 0xfe ++ 9 ∷ []

ipv6_parse-Ensures_example :
    Ensures
      (IsIpv6 datagram6 41 (omega arith))
      (IsIpv6Malformed datagram6 41 (omega arith))
      (ipv6_parse (some datagram6) 41 true)
ipv6_parse-Ensures_example = ipv6_parse-Ensures datagram6 41 (omega arith)

abbrev request : List ℕ
request = 0 ∷ 1 ∷ 8 ∷ 0 ∷ 6 ∷ 4 ∷ 0 ∷ 1 ∷ replicate 20 7

abbrev segment : List ℕ
segment = 0x12 ∷ 0x34 ∷ 0 ∷ 53 ∷ 0 ∷ 9 ∷ 0 ∷ 0 ∷ 7 ∷ []

abbrev syn : List ℕ
syn = 0x12 ∷ 0x34 ∷ 1 ∷ 0xbb ∷ replicate 8 0 ++ 0x50 ∷ 2 ∷ replicate 7 1

tcp_parse-Ensures_example :
    Ensures
      (IsTcp syn 21 (omega arith))
      (IsTcpMalformed syn 21 (omega arith))
      (tcp_parse (some syn) 21 true)
tcp_parse-Ensures_example = tcp_parse-Ensures syn 21 (omega arith)

abbrev home : List ℕ
home = 192 ∷ 168 ∷ 0 ∷ 1 ∷ []

abbrev home6 : List ℕ
home6 = 0xfe ∷ 0x80 ∷ replicate 13 0 ++ 1 ∷ []

home-IsBytes : IsBytes home
unfolding all_test
home-IsBytes = IsBytes-test home refl

home6-IsBytes : IsBytes home6
unfolding all_test
home6-IsBytes = IsBytes-test home6 refl

segment-IsBytes : IsBytes segment
unfolding all_test
segment-IsBytes = IsBytes-test segment refl

syn-IsBytes : IsBytes syn
unfolding all_test
syn-IsBytes = IsBytes-test syn refl

no_checksum : word_at segment 6 ≡ accepted 0
unfolding word_at
no_checksum = refl

udp_verify_checksum_lem_example :
    udp_verify_checksum (some segment) 9 (some home) (some home)
    ≡ accepted (
        if 0 == 0
        then true
        else is_ones_sum (word_sum (rfc_pseudo_ipv4 home home 17 9) + word_sum (take 9 segment)))
udp_verify_checksum_lem_example =
    udp_verify_checksum_lem segment 9 segment-IsBytes (omega arith) (omega arith) home home
      home-IsBytes home-IsBytes refl refl 0 (omega arith) no_checksum
