-- ===== src/Format/Tests.antt =====
-- Addresses for the formats of src/c, and their theorems applied to them.
use my_wireshark.Base.{
  ◌≡◌, refl, List, ℕ, [], ◌∷◌, ◌++◌, some, arith, replicate, all_test, IsBytes, IsBytes-test,
}
use my_wireshark.Base.Text.{codes}
use my_wireshark.Cap.Node.{Addr}
use my_wireshark.Cap.Lexer
use my_wireshark.Disp.Literal.{parse_mac_word, parse_ipv4_word, parse_ipv6_word, octets}
use my_wireshark.Format.{
  separated, mac_text, ip_text, ipv6_text, hextets, eth_mac_to_str, ip_addr_to_str,
  ipv6_addr_to_str,
}
use my_wireshark.Format.Mac.{eth_mac_to_str-parse_mac_word}
use my_wireshark.Format.Ipv4.{ip_addr_to_str-parse_ipv4_word}
use my_wireshark.Format.Ipv6.{ipv6_addr_to_str-parse_ipv6_word}

abbrev station : List ℕ
station = 0x02 ∷ 0xab ∷ 0 ∷ 0x0f ∷ 0xf0 ∷ 0xff ∷ []

station-IsBytes : IsBytes station
unfolding all_test
station-IsBytes = IsBytes-test station refl

station_text : mac_text station ≡ codes "02:ab:00:0f:f0:ff"
unfolding mac_text separated
station_text = refl

eth_mac_to_str-parse_mac_word_example :
    (eth_mac_to_str station ≡ mac_text station ++ 0 ∷ [])
    × (parse_mac_word (mac_text station) ≡ some station)
eth_mac_to_str-parse_mac_word_example = eth_mac_to_str-parse_mac_word station station-IsBytes refl

abbrev gateway : Addr
gateway = record { b0 = 192; b1 = 168; b2 = 0; b3 = 1 }

gateway_text : ip_text (octets gateway) ≡ codes "192.168.0.1"
unfolding ip_text separated
gateway_text = refl

ip_addr_to_str-parse_ipv4_word_example :
    (ip_addr_to_str (octets gateway) ≡ ip_text (octets gateway) ++ 0 ∷ [])
    × (Lexer.parse_ipv4_word (ip_text (octets gateway)) ≡ some gateway)
    × (parse_ipv4_word (ip_text (octets gateway)) ≡ some (octets gateway))
ip_addr_to_str-parse_ipv4_word_example =
    ip_addr_to_str-parse_ipv4_word gateway (omega arith, omega arith, omega arith, omega arith)

abbrev host : List ℕ
host = 0xfe ∷ 0x80 ∷ replicate 12 0 ++ 0x12 ∷ 0x34 ∷ []

host-IsBytes : IsBytes host
unfolding all_test
host-IsBytes = IsBytes-test host refl

host_text : ipv6_text host ≡ codes "fe80:0:0:0:0:0:0:1234"
unfolding ipv6_text separated hextets
host_text = refl

ipv6_addr_to_str-parse_ipv6_word_example :
    (ipv6_addr_to_str host ≡ ipv6_text host ++ 0 ∷ [])
    × (parse_ipv6_word (ipv6_text host) ≡ some host)
ipv6_addr_to_str-parse_ipv6_word_example = ipv6_addr_to_str-parse_ipv6_word host host-IsBytes refl
