-- ===== src/Printer/Shows.antt =====
-- What `print_packet` of src/cpp/packet_printer.cpp shows of a frame, and which frames it shows.
use my_wireshark.Base.{
  replicate, ℕ, ◌≤◌, ◌<◌, ◌≡◌, refl, Bool, true, false, List, Option, none, some, length,
}
use my_wireshark.Wire.{Parse}
use my_wireshark.Wire.Reads.{Ensures, bind-Ensures}
use my_wireshark.Eth.{EthHeader}
use my_wireshark.Ip.{IpHeader}
use my_wireshark.Ipv6.{Ipv6Header}
use my_wireshark.Transport.{TcpHeader, UdpHeader, udp_header_len}
use my_wireshark.Transport.Wire.{IsTcp, IsTcpMalformed, tcp_parse-Ensures, IsUdp, udp_parse-Ensures}
use my_wireshark.Icmp.{Family, IcmpHeader, icmp_header_len}
use my_wireshark.Icmp.Wire.{IsIcmp, icmp_parse-Ensures}
use my_wireshark.Disp.Eval.{Fields}
use my_wireshark.Disp.Eval.Holds.{IsFields}
use my_wireshark.Printer.{
  eth_type_ipv4, eth_type_arp, eth_type_ipv6, ip_proto_icmp, ip_proto_tcp, ip_proto_udp,
  ip_proto_icmpv6, nothing, upper_tcp, upper_udp, upper_icmp, Packet, packet, arp_packet,
  ipv6_packet, tcp_packet, udp_packet, icmp_packet, Line, raw, summary, Decoded, no_fields,
  with_eth, with_ip, with_ipv6, with_tcp, with_udp, tcp_case, udp_case, icmp_case,
}
use my_wireshark.Printer.Layers.{Gives, on_parse-Ensures}

abbrev pub is_there : {A : Type 0} → Option A → Bool
is_there none = false
is_there (some a) = true

abbrev pub part : {A B : Type 0} → Option A → (A → B) → B → B
part none f absent = absent
part (some a) f absent = f a

-- The fields of a packet with the headers given, zeros for those that are not there.
abbrev pub fields_of :
    EthHeader → Option IpHeader → Option Ipv6Header → Option TcpHeader → Option UdpHeader → Fields
fields_of eth ip ipv6 tcp udp = record {
  eth_src = eth.src_mac;
  eth_dst = eth.dst_mac;
  has_ip = is_there ip;
  ip_src = part ip (λ (h : IpHeader). h.src_addr) (replicate 4 0);
  ip_dst = part ip (λ (h : IpHeader). h.dst_addr) (replicate 4 0);
  has_ipv6 = is_there ipv6;
  ipv6_src = part ipv6 (λ (h : Ipv6Header). h.src_addr) (replicate 16 0);
  ipv6_dst = part ipv6 (λ (h : Ipv6Header). h.dst_addr) (replicate 16 0);
  has_tcp = is_there tcp;
  tcp_src_port = part tcp (λ (h : TcpHeader). h.src_port) 0;
  tcp_dst_port = part tcp (λ (h : TcpHeader). h.dst_port) 0;
  has_udp = is_there udp;
  udp_src_port = part udp (λ (h : UdpHeader). h.src_port) 0;
  udp_dst_port = part udp (λ (h : UdpHeader). h.dst_port) 0;
}

-- The headers of a line belong together by their type and protocol fields, and the fields that the
-- filter sees are those of its headers and no others.
abbrev pub Shows : Fields → Packet → Type 0
Shows f (packet eth none) = f ≡ fields_of eth none none none none
Shows f (packet eth (some ip)) =
    (eth.ether_type ≡ eth_type_ipv4) × (f ≡ fields_of eth (some ip) none none none)
Shows f (arp_packet eth arp) =
    (eth.ether_type ≡ eth_type_arp) × (f ≡ fields_of eth none none none none)
Shows f (ipv6_packet eth ip nothing) =
    (eth.ether_type ≡ eth_type_ipv6) × (f ≡ fields_of eth none (some ip) none none)
Shows f (ipv6_packet eth ip (upper_tcp tcp)) =
    (eth.ether_type ≡ eth_type_ipv6)
    × (ip.next_header ≡ ip_proto_tcp)
    × (f ≡ fields_of eth none (some ip) (some tcp) none)
Shows f (ipv6_packet eth ip (upper_udp udp)) =
    (eth.ether_type ≡ eth_type_ipv6)
    × (ip.next_header ≡ ip_proto_udp)
    × (f ≡ fields_of eth none (some ip) none (some udp))
Shows f (ipv6_packet eth ip (upper_icmp icmp)) =
    (eth.ether_type ≡ eth_type_ipv6)
    × (ip.next_header ≡ ip_proto_icmpv6)
    × (f ≡ fields_of eth none (some ip) none none)
Shows f (tcp_packet eth ip tcp) =
    (eth.ether_type ≡ eth_type_ipv4)
    × (ip.protocol ≡ ip_proto_tcp)
    × (f ≡ fields_of eth (some ip) none (some tcp) none)
Shows f (udp_packet eth ip udp) =
    (eth.ether_type ≡ eth_type_ipv4)
    × (ip.protocol ≡ ip_proto_udp)
    × (f ≡ fields_of eth (some ip) none none (some udp))
Shows f (icmp_packet eth ip icmp) =
    (eth.ether_type ≡ eth_type_ipv4)
    × (ip.protocol ≡ ip_proto_icmp)
    × (f ≡ fields_of eth (some ip) none none none)

-- The addresses of the link layer, where the frame has room for them, and no layer above.
abbrev pub NoLayers : Fields → Type 0
NoLayers f = (f.has_ip ≡ false) × (f.has_ipv6 ≡ false) × (f.has_tcp ≡ false) × (f.has_udp ≡ false)

abbrev pub LineShows : Fields → Line → Type 0
LineShows f (raw text) = NoLayers f
LineShows f (summary p suffix) = Shows f p

abbrev pub IsGood : Decoded → Type 0
IsGood (f, line) = IsFields f × LineShows f line

pub no_fields-IsFields : IsFields no_fields
no_fields-IsFields = record {
  eth_src_len = refl;
  eth_dst_len = refl;
  ip_src_len = refl;
  ip_dst_len = refl;
  ipv6_src_len = refl;
  ipv6_dst_len = refl;
}

-- The arrays that a layer does not write keep their lengths.
module _ (f : Fields) (w : IsFields f) where
  pub with_eth-IsFields :
      (eth : EthHeader)
      → length eth.src_mac ≡ 6
      → length eth.dst_mac ≡ 6
      → IsFields (with_eth eth f)
  with_eth-IsFields eth ls ld = record {
    eth_src_len = ls;
    eth_dst_len = ld;
    ip_src_len = w.ip_src_len;
    ip_dst_len = w.ip_dst_len;
    ipv6_src_len = w.ipv6_src_len;
    ipv6_dst_len = w.ipv6_dst_len;
  }

  pub with_ip-IsFields :
      (ip : IpHeader) → length ip.src_addr ≡ 4 → length ip.dst_addr ≡ 4 → IsFields (with_ip ip f)
  with_ip-IsFields ip ls ld = record {
    eth_src_len = w.eth_src_len;
    eth_dst_len = w.eth_dst_len;
    ip_src_len = ls;
    ip_dst_len = ld;
    ipv6_src_len = w.ipv6_src_len;
    ipv6_dst_len = w.ipv6_dst_len;
  }

  pub with_ipv6-IsFields :
      (ip : Ipv6Header)
      → length ip.src_addr ≡ 16
      → length ip.dst_addr ≡ 16
      → IsFields (with_ipv6 ip f)
  with_ipv6-IsFields ip ls ld = record {
    eth_src_len = w.eth_src_len;
    eth_dst_len = w.eth_dst_len;
    ip_src_len = w.ip_src_len;
    ip_dst_len = w.ip_dst_len;
    ipv6_src_len = ls;
    ipv6_dst_len = ld;
  }

  with_tcp-IsFields : (tcp : TcpHeader) → IsFields (with_tcp tcp f)
  with_tcp-IsFields tcp = record {
    eth_src_len = w.eth_src_len;
    eth_dst_len = w.eth_dst_len;
    ip_src_len = w.ip_src_len;
    ip_dst_len = w.ip_dst_len;
    ipv6_src_len = w.ipv6_src_len;
    ipv6_dst_len = w.ipv6_dst_len;
  }

  with_udp-IsFields : (udp : UdpHeader) → IsFields (with_udp udp f)
  with_udp-IsFields udp = record {
    eth_src_len = w.eth_src_len;
    eth_dst_len = w.eth_dst_len;
    ip_src_len = w.ip_src_len;
    ip_dst_len = w.ip_dst_len;
    ipv6_src_len = w.ipv6_src_len;
    ipv6_dst_len = w.ipv6_dst_len;
  }

  -- The transport layer, in a segment that is there.
  module _ (payload : List ℕ) (len : ℕ) (inside : len ≤ length payload) (verify : Parse Bool)
      (gives : Gives verify) (other : Packet) (shows_other : Shows f other) where
    pub tcp_case-Good :
        (shown : TcpHeader → Packet)
        → ((tcp : TcpHeader) → Shows (with_tcp tcp f) (shown tcp))
        → Ensures IsGood ⊥ (tcp_case payload len verify shown other f)
    unfolding tcp_case
    tcp_case-Good shown s =
        on_parse-Ensures IsGood (IsTcp payload len inside) (IsTcpMalformed payload len inside) _ _ _
          (tcp_parse-Ensures payload len inside)
          (λ r _.
            bind-Ensures IsGood ⊥ (λ (_ : Bool). Unit) verify _ gives
              λ valid _. (with_tcp-IsFields (record r.header { checksum_valid = valid }), s _))
          (w, shows_other)

    pub udp_case-Good :
        (shown : UdpHeader → Packet)
        → ((udp : UdpHeader) → Shows (with_udp udp f) (shown udp))
        → Ensures IsGood ⊥ (udp_case payload len verify shown other f)
    unfolding udp_case
    udp_case-Good shown s =
        on_parse-Ensures IsGood (IsUdp payload len inside) (len < udp_header_len) _ _ _
          (udp_parse-Ensures payload len inside)
          (λ r _.
            bind-Ensures IsGood ⊥ (λ (_ : Bool). Unit) verify _ gives
              λ valid _. (with_udp-IsFields (record r.header { checksum_valid = valid }), s _))
          (w, shows_other)

    pub icmp_case-Good :
        (family : Family) (shown : IcmpHeader → Packet) (truncated : List ℕ)
        → ((icmp : IcmpHeader) → Shows f (shown icmp))
        → Ensures IsGood ⊥ (icmp_case payload len family verify shown other truncated f)
    unfolding icmp_case
    icmp_case-Good family shown truncated s =
        on_parse-Ensures IsGood (IsIcmp payload len family inside) (len < icmp_header_len) _ _ _
          (icmp_parse-Ensures payload len family inside)
          (λ r _. bind-Ensures IsGood ⊥ (λ (_ : Bool). Unit) verify _ gives λ valid _. (w, s _))
          (w, shows_other)
