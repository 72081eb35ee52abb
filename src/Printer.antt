-- ===== src/Printer.antt =====
-- src/cpp/packet_printer.cpp: the layers of a frame, the fields for the display filter, and the line
-- that is printed. A line is the C++ object that prints itself with the text after it.
pub mod Layers
pub mod Shows
pub mod Decode
pub mod Text
pub mod Dump
mod Tests
use my_wireshark.Base.{
  ℕ, ◌+◌, ◌%◌, ◌^◌, Bool, true, false, List, [], ◌++◌, Option, none, some, ◌==◌, if◌then◌else◌,
  replicate,
}
use my_wireshark.Base.Text.{codes}
use my_wireshark.Wire.{Parse, accepted, rejected, fault, ◌>>=◌, reading, WithPayload}
use my_wireshark.Eth.{EthHeader, eth_parse}
use my_wireshark.Arp.{ArpHeader, arp_parse}
use my_wireshark.Ip.{IpHeader, ip_parse}
use my_wireshark.Ipv6.{Ipv6Header, ipv6_parse}
use my_wireshark.Transport.{TcpHeader, tcp_parse, UdpHeader, udp_parse}
use my_wireshark.Transport.Sums.{
  tcp_verify_checksum, udp_verify_checksum, tcp_verify_checksum_ipv6, udp_verify_checksum_ipv6,
}
use my_wireshark.Icmp.{
  Family, icmp_family_v4, icmp_family_v6, IcmpHeader, icmp_parse, icmpv4_verify_checksum,
  icmpv6_verify_checksum,
}
use my_wireshark.Disp.Node.{Node}
use my_wireshark.Disp.Eval.{Fields, dispfilter_matches}
use my_wireshark.Format.{decimal}

abbrev pub eth_type_ipv4 : ℕ
eth_type_ipv4 = 0x0800

abbrev pub eth_type_arp : ℕ
eth_type_arp = 0x0806

abbrev pub eth_type_ipv6 : ℕ
eth_type_ipv6 = 0x86DD

abbrev pub ip_proto_icmp : ℕ
ip_proto_icmp = 1

abbrev pub ip_proto_tcp : ℕ
ip_proto_tcp = 6

abbrev pub ip_proto_udp : ℕ
ip_proto_udp = 17

abbrev pub ip_proto_icmpv6 : ℕ
ip_proto_icmpv6 = 58

-- The headers that an `Ipv6Packet` has beside its own; the printer passes at most one.
pub data Upper : Type 0 where
  nothing : Upper
  upper_tcp : TcpHeader → Upper
  upper_udp : UdpHeader → Upper
  upper_icmp : IcmpHeader → Upper

-- `Packet` and its derived classes. The time stamp and the length, which are passed on unread, are
-- left out.
pub data Packet : Type 0 where
  packet : EthHeader → Option IpHeader → Packet
  arp_packet : EthHeader → ArpHeader → Packet
  ipv6_packet : EthHeader → Ipv6Header → Upper → Packet
  tcp_packet : EthHeader → IpHeader → TcpHeader → Packet
  udp_packet : EthHeader → IpHeader → UdpHeader → Packet
  icmp_packet : EthHeader → IpHeader → IcmpHeader → Packet

-- A message of `finish_raw`, or a packet of `finish` with its suffix.
pub data Line : Type 0 where
  raw : List ℕ → Line
  summary : Packet → List ℕ → Line

abbrev pub Decoded : Type 0
Decoded = Fields × Line

-- `fields` after `memset`.
abbrev pub no_fields : Fields
no_fields = record {
  eth_src = replicate 6 0;
  eth_dst = replicate 6 0;
  has_ip = false;
  ip_src = replicate 4 0;
  ip_dst = replicate 4 0;
  has_ipv6 = false;
  ipv6_src = replicate 16 0;
  ipv6_dst = replicate 16 0;
  has_tcp = false;
  tcp_src_port = 0;
  tcp_dst_port = 0;
  has_udp = false;
  udp_src_port = 0;
  udp_dst_port = 0;
}

abbrev pub with_eth : EthHeader → Fields → Fields
with_eth eth f = record f { eth_src = eth.src_mac; eth_dst = eth.dst_mac }

abbrev pub with_ip : IpHeader → Fields → Fields
with_ip ip f = record f { has_ip = true; ip_src = ip.src_addr; ip_dst = ip.dst_addr }

abbrev pub with_ipv6 : Ipv6Header → Fields → Fields
with_ipv6 ipv6 f = record f { has_ipv6 = true; ipv6_src = ipv6.src_addr; ipv6_dst = ipv6.dst_addr }

abbrev pub with_tcp : TcpHeader → Fields → Fields
with_tcp tcp f = record f {
  has_tcp = true;
  tcp_src_port = tcp.src_port;
  tcp_dst_port = tcp.dst_port;
}

abbrev pub with_udp : UdpHeader → Fields → Fields
with_udp udp f = record f {
  has_udp = true;
  udp_src_port = udp.src_port;
  udp_dst_port = udp.dst_port;
}

-- `if (parse(...) == 0) ... else ...`
abbrev pub on_parse : {A : Type 0} → Parse A → (A → Parse Decoded) → Decoded → Parse Decoded
on_parse (accepted a) f other = f a
on_parse rejected f other = accepted other
on_parse fault f other = fault

-- The cases on the protocol, with the call that verifies the checksum, the packet that is shown
-- with the header and the one that is shown without.
unfoldable pub tcp_case :
    List ℕ → ℕ → Parse Bool → (TcpHeader → Packet) → Packet → Fields → Parse Decoded
tcp_case payload len verify shown other f =
    on_parse (tcp_parse (some payload) len true)
      (λ r. do
        valid ← verify
        let tcp = record r.header { checksum_valid = valid }
        accepted (with_tcp tcp f, summary (shown tcp) []))
      (f, summary other (codes " TCP (truncated)"))

unfoldable pub udp_case :
    List ℕ → ℕ → Parse Bool → (UdpHeader → Packet) → Packet → Fields → Parse Decoded
udp_case payload len verify shown other f =
    on_parse (udp_parse (some payload) len true)
      (λ r. do
        valid ← verify
        let udp = record r.header { checksum_valid = valid }
        accepted (with_udp udp f, summary (shown udp) []))
      (f, summary other (codes " UDP (truncated)"))

unfoldable pub icmp_case :
    List ℕ
    → ℕ
    → Family
    → Parse Bool
    → (IcmpHeader → Packet)
    → Packet
    → List ℕ
    → Fields
    → Parse Decoded
icmp_case payload len family verify shown other truncated f =
    on_parse (icmp_parse (some payload) len family true)
      (λ h. do
        valid ← verify
        accepted (f, summary (shown (record h { checksum_valid = valid })) []))
      (f, summary other truncated)

-- The `switch` on `ipv6.next_header`.
unfoldable pub ipv6_upper : EthHeader → WithPayload Ipv6Header → Fields → Parse Decoded
unfolding tcp_case udp_case icmp_case tcp_verify_checksum_ipv6 udp_verify_checksum_ipv6
    icmpv6_verify_checksum
ipv6_upper eth r f =
    let src = some r.header.src_addr in
    let dst = some r.header.dst_addr in
    let bare = ipv6_packet eth r.header nothing in
    if r.header.next_header == ip_proto_tcp
    then tcp_case r.payload r.payload_len
        (tcp_verify_checksum_ipv6 (some r.payload) r.payload_len src dst)
        (λ tcp. ipv6_packet eth r.header (upper_tcp tcp)) bare f
    else if r.header.next_header == ip_proto_udp
    then udp_case r.payload r.payload_len
        (udp_verify_checksum_ipv6 (some r.payload) r.payload_len src dst)
        (λ udp. ipv6_packet eth r.header (upper_udp udp)) bare f
    else if r.header.next_header == ip_proto_icmpv6
    then icmp_case r.payload r.payload_len icmp_family_v6
        (icmpv6_verify_checksum (some r.payload) r.payload_len src dst)
        (λ icmp. ipv6_packet eth r.header (upper_icmp icmp)) bare (codes " ICMPv6 (truncated)") f
    else accepted (f, summary bare [])

-- The `switch` on `ip.protocol`.
unfoldable pub ip_upper : EthHeader → WithPayload IpHeader → Fields → Parse Decoded
unfolding tcp_case udp_case icmp_case tcp_verify_checksum udp_verify_checksum icmpv4_verify_checksum
ip_upper eth r f =
    let src = some r.header.src_addr in
    let dst = some r.header.dst_addr in
    let bare = packet eth (some r.header) in
    if r.header.protocol == ip_proto_tcp
    then tcp_case r.payload r.payload_len
        (tcp_verify_checksum (some r.payload) r.payload_len src dst) (tcp_packet eth r.header) bare
        f
    else if r.header.protocol == ip_proto_udp
    then udp_case r.payload r.payload_len
        (udp_verify_checksum (some r.payload) r.payload_len src dst) (udp_packet eth r.header) bare
        f
    else if r.header.protocol == ip_proto_icmp
    then icmp_case r.payload r.payload_len icmp_family_v4
        (icmpv4_verify_checksum (some r.payload) r.payload_len) (icmp_packet eth r.header) bare
        (codes " ICMP (truncated)") f
    else accepted (f, summary bare (codes " proto=" ++ decimal r.header.protocol))

-- The branches on the type of the frame.
unfoldable pub eth_upper : WithPayload EthHeader → Fields → Parse Decoded
unfolding ipv6_upper ip_upper
eth_upper r f =
    let eth = r.header in
    let payload = some r.payload in
    if eth.ether_type == eth_type_arp
    then on_parse (arp_parse payload r.payload_len true)
        (λ arp. accepted (f, summary (arp_packet eth arp) []))
        (f, summary (packet eth none) (codes " ARP (truncated)"))
    else if eth.ether_type == eth_type_ipv6
    then on_parse (ipv6_parse payload r.payload_len true)
        (λ r'. ipv6_upper eth r' (with_ipv6 r'.header f))
        (f, summary (packet eth none) (codes " IPv6 (truncated)"))
    else if eth.ether_type == eth_type_ipv4
    then on_parse (ip_parse payload r.payload_len true)
        (λ r'. ip_upper eth r' (with_ip r'.header f)) (f, raw (codes "(truncated IPv4 header)"))
    else accepted (f, summary (packet eth none) [])

-- The fields and the line that `print_packet` makes of a frame before it asks the filter.
unfoldable pub decode : List ℕ → ℕ → Parse Decoded
unfolding eth_upper
decode frame len =
    on_parse (eth_parse (some frame) len true) (λ r. eth_upper r (with_eth r.header no_fields))
      (no_fields, raw (codes "(truncated Ethernet frame)"))

-- `finish` and `finish_raw`: the line, if the filter passes. `none` is a null filter.
unfoldable pub finish : Option Node → Decoded → Parse (Option Line)
unfolding dispfilter_matches
finish filter (f, line) = do
  passes ← reading (dispfilter_matches filter f)
  accepted (if passes then some line else none)

unfoldable pub print_packet : List ℕ → ℕ → Option Node → Parse (Option Line)
unfolding decode finish
print_packet frame len filter = do decoded ← decode frame len; finish filter decoded

-- `PacketPrinterContext`
pub record PacketPrinterContext : Type 0 where
  pub count : ℕ
  pub filter : Option Node

-- The context after the call, and the number and the line that were printed.
unfoldable pub packet_printer_callback :
    List ℕ → ℕ → PacketPrinterContext → Parse (PacketPrinterContext × ℕ × Option Line)
unfolding print_packet
packet_printer_callback frame len ctx =
    let number = (ctx.count + 1) % 2 ^ 64 in
    do
      line ← print_packet frame len ctx.filter
      accepted (record ctx { count = number }, number, line)
