-- ===== src/Printer/Text.antt =====
-- The text of a line: `print` of src/cpp/packet.cpp and of the classes derived from it, and
-- `hex_dump` of src/cpp/packet_printer.cpp. A stream is the list of the bytes written to it.
use my_wireshark.Base.{
  ℕ, zero, suc, ◌+◌, ◌-◌, ◌/◌, ◌%◌, bit_and, ltb, ◌==◌, if◌then◌else◌, ◌&&◌, not, Bool, true, false,
  List, [], ◌∷◌, ◌++◌, Option, none, some, length, replicate,
}
use my_wireshark.Base.Text.{codes, c_str}
use my_wireshark.Eth.{EthHeader}
use my_wireshark.Arp.{ArpHeader}
use my_wireshark.Ip.{IpHeader}
use my_wireshark.Ipv6.{Ipv6Header}
use my_wireshark.Transport.{TcpHeader, UdpHeader}
use my_wireshark.Icmp.{Family, icmp_family_v4, icmp_family_v6, echo_request_type, IcmpHeader}
use my_wireshark.Format.{eth_mac_to_str, ip_addr_to_str, ipv6_addr_to_str}
use my_wireshark.Printer.{
  ip_proto_tcp, ip_proto_udp, ip_proto_icmpv6, Upper, nothing, upper_tcp, upper_udp, upper_icmp,
  Packet, packet, arp_packet, ipv6_packet, tcp_packet, udp_packet, icmp_packet,
}

-- `<<` of an unsigned number, a unit of fuel for each digit; 20 digits are enough for 64 bits.
unfoldable pub number_digits : ℕ → ℕ → List ℕ
number_digits zero n = []
number_digits (suc fuel) n =
    let front = number_digits fuel (n / 10) in
    if ltb n 10 then (b'0' + n) ∷ [] else front ++ (b'0' + n % 10) ∷ []

abbrev pub number : ℕ → List ℕ
number n = number_digits 20 n

-- `std::setw(6) << std::setfill('0')`
abbrev pub padded : List ℕ → List ℕ
padded text = replicate (6 - length text) b'0' ++ text

abbrev pub note_if : Bool → List ℕ → List ℕ
note_if b text = if b then text else []

-- The members that `Packet` keeps beside its headers.
pub record Stamp : Type 0 where
  pub ts_seconds : ℕ
  pub ts_microseconds : ℕ
  pub capture_length : ℕ

abbrev pub mac : List ℕ → List ℕ
mac m = c_str (eth_mac_to_str m)

abbrev pub ip_address : List ℕ → List ℕ
ip_address a = c_str (ip_addr_to_str a)

abbrev pub ipv6_address : List ℕ → List ℕ
ipv6_address a = c_str (ipv6_addr_to_str a)

unfoldable pub ip_note : Option IpHeader → List ℕ
ip_note none = []
ip_note (some hdr) =
    codes " "
    ++ (ip_address hdr.src_addr
        ++ (codes " > "
            ++ (ip_address hdr.dst_addr
                ++ (codes " ttl="
                    ++ (number hdr.ttl
                        ++ note_if (not hdr.checksum_valid) (codes " ip_csum=BAD"))))))

-- `Packet::print`, with the name that the class gives for the protocol.
unfoldable pub print_base : Stamp → List ℕ → EthHeader → Option IpHeader → List ℕ
unfolding ip_note
print_base s protocol_name eth ip =
    number s.ts_seconds
    ++ (codes "."
        ++ (padded (number s.ts_microseconds)
            ++ (codes " len="
                ++ (number s.capture_length
                    ++ (codes " "
                        ++ (mac eth.src_mac
                            ++ (codes " > "
                                ++ (mac eth.dst_mac
                                    ++ (note_if eth.has_vlan
                                          (codes " vlan=" ++ number (bit_and eth.vlan_tci 0x0FFF))
                                        ++ (codes " ["
                                            ++ (protocol_name
                                                ++ (codes "]" ++ ip_note ip))))))))))))

unfoldable pub print_flags : ℕ → List ℕ
print_flags flags =
    note_if (not (bit_and flags 0x02 == 0)) (codes "SYN")
    ++ (note_if (not (bit_and flags 0x01 == 0)) (codes "FIN")
        ++ (note_if (not (bit_and flags 0x08 == 0)) (codes "PSH")
            ++ (note_if (not (bit_and flags 0x04 == 0)) (codes "RST")
                ++ (note_if (not (bit_and flags 0x20 == 0)) (codes "URG")
                    ++ note_if (not (bit_and flags 0x10 == 0)) (codes "ACK")))))

unfoldable pub print_tcp_summary : TcpHeader → List ℕ
unfolding print_flags
print_tcp_summary tcp =
    codes " "
    ++ (number tcp.src_port
        ++ (codes " > "
            ++ (number tcp.dst_port
                ++ (codes " seq="
                    ++ (number tcp.seq_num
                        ++ (codes " ack="
                            ++ (number tcp.ack_num
                                ++ (codes " flags=["
                                    ++ (print_flags tcp.flags
                                        ++ (codes "]"
                                            ++ note_if (not tcp.checksum_valid)
                                                (codes " tcp_csum=BAD")))))))))))

unfoldable pub print_udp_summary : UdpHeader → Bool → List ℕ
print_udp_summary udp checksum_mandatory =
    let report_bad =
      if checksum_mandatory
      then not udp.checksum_valid
      else udp.checksum_present && not udp.checksum_valid in
    codes " "
    ++ (number udp.src_port
        ++ (codes " > "
            ++ (number udp.dst_port
                ++ (codes " len="
                    ++ (number udp.length_field ++ note_if report_bad (codes " udp_csum=BAD"))))))

-- `icmp_type_name`: `none` is a null pointer.
unfoldable pub icmp_type_name : ℕ → Family → Option (List ℕ)
icmp_type_name type icmp_family_v6 =
    if type == 1
    then some (codes "dest-unreachable")
    else if type == 2
    then some (codes "packet-too-big")
    else if type == 3
    then some (codes "time-exceeded")
    else none
icmp_type_name type icmp_family_v4 =
    if type == 3
    then some (codes "dest-unreachable")
    else if type == 11
    then some (codes "time-exceeded")
    else none

abbrev pub icmp_kind : IcmpHeader → Option (List ℕ) → List ℕ
icmp_kind icmp none = codes " type=" ++ (number icmp.type ++ (codes " code=" ++ number icmp.code))
icmp_kind icmp (some name) = codes " " ++ (name ++ (codes " code=" ++ number icmp.code))

unfoldable pub print_icmp_summary : IcmpHeader → Family → List ℕ
unfolding icmp_type_name
print_icmp_summary icmp family =
    (if icmp.is_echo
      then codes " "
        ++ ((if icmp.type == echo_request_type family
              then codes "echo-request"
              else codes "echo-reply")
            ++ (codes " id=" ++ (number icmp.echo_id ++ (codes " seq=" ++ number icmp.echo_seq))))
      else icmp_kind icmp (icmp_type_name icmp.type family))
    ++ note_if (not icmp.checksum_valid) (codes " icmp_csum=BAD")

-- What `ArpPacket::print` appends.
unfoldable pub arp_note : ArpHeader → List ℕ
arp_note arp =
    if arp.opcode == 1
    then codes " who-has "
      ++ (ip_address arp.target_ip ++ (codes " tell " ++ ip_address arp.sender_ip))
    else if arp.opcode == 2
    then codes " " ++ (ip_address arp.sender_ip ++ (codes " is-at " ++ mac arp.sender_mac))
    else codes " op=" ++ number arp.opcode

unfoldable pub next_header_name : ℕ → Option (List ℕ)
next_header_name next =
    if next == ip_proto_tcp
    then some (codes "TCP")
    else if next == ip_proto_udp
    then some (codes "UDP")
    else if next == ip_proto_icmpv6
    then some (codes "ICMPv6")
    else none

abbrev pub next_note : ℕ → Option (List ℕ) → List ℕ
next_note next none = codes " next=" ++ number next
next_note next (some name) = codes " next=" ++ name

-- `Ipv6Packet::protocol_name`
abbrev pub ipv6_protocol_name : Upper → List ℕ
ipv6_protocol_name nothing = codes "IPv6"
ipv6_protocol_name (upper_tcp tcp) = codes "TCP"
ipv6_protocol_name (upper_udp udp) = codes "UDP"
ipv6_protocol_name (upper_icmp icmp) = codes "ICMPv6"

-- What `Ipv6Packet::print` appends after the addresses.
unfoldable pub upper_note : Ipv6Header → Upper → List ℕ
unfolding print_tcp_summary print_udp_summary print_icmp_summary next_header_name
upper_note ipv6 nothing = next_note ipv6.next_header (next_header_name ipv6.next_header)
upper_note ipv6 (upper_tcp tcp) = print_tcp_summary tcp
upper_note ipv6 (upper_udp udp) = print_udp_summary udp true
upper_note ipv6 (upper_icmp icmp) = print_icmp_summary icmp icmp_family_v6

unfoldable pub ipv6_note : Ipv6Header → Upper → List ℕ
unfolding upper_note
ipv6_note ipv6 upper =
    codes " "
    ++ (ipv6_address ipv6.src_addr
        ++ (codes " > "
            ++ (ipv6_address ipv6.dst_addr
                ++ (codes " hop=" ++ (number ipv6.hop_limit ++ upper_note ipv6 upper)))))

abbrev pub print_arp : Stamp → EthHeader → ArpHeader → List ℕ
print_arp s eth arp = print_base s (codes "ARP") eth none ++ arp_note arp

abbrev pub print_ipv6 : Stamp → EthHeader → Ipv6Header → Upper → List ℕ
print_ipv6 s eth ipv6 upper =
    print_base s (ipv6_protocol_name upper) eth none ++ ipv6_note ipv6 upper

abbrev pub print_tcp : Stamp → EthHeader → IpHeader → TcpHeader → List ℕ
print_tcp s eth ip tcp = print_base s (codes "TCP") eth (some ip) ++ print_tcp_summary tcp

abbrev pub print_udp : Stamp → EthHeader → IpHeader → UdpHeader → List ℕ
print_udp s eth ip udp = print_base s (codes "UDP") eth (some ip) ++ print_udp_summary udp false

abbrev pub print_icmp : Stamp → EthHeader → IpHeader → IcmpHeader → List ℕ
print_icmp s eth ip icmp =
    print_base s (codes "ICMP") eth (some ip) ++ print_icmp_summary icmp icmp_family_v4

-- `print` of the class of the packet.
unfoldable pub print : Stamp → Packet → List ℕ
unfolding print_base print_tcp_summary print_udp_summary print_icmp_summary arp_note ipv6_note
print s (packet eth none) = print_base s (codes "ETH") eth none
print s (packet eth (some ip)) = print_base s (codes "IP") eth (some ip)
print s (arp_packet eth arp) = print_arp s eth arp
print s (ipv6_packet eth ipv6 upper) = print_ipv6 s eth ipv6 upper
print s (tcp_packet eth ip tcp) = print_tcp s eth ip tcp
print s (udp_packet eth ip udp) = print_udp s eth ip udp
print s (icmp_packet eth ip icmp) = print_icmp s eth ip icmp
