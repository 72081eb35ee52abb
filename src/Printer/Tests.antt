-- ===== src/Printer/Tests.antt =====
-- A frame for src/cpp/packet_printer.cpp, and its theorem applied to it.
use my_wireshark.Base.{
  ℕ, ◌≡◌, ◌⊎◌, refl, leb, ◌&&◌, Bool, List, [], ◌∷◌, ◌++◌, none, some, arith, replicate, all_test,
  IsBytes, IsBytes-test,
}
use my_wireshark.Base.Text.{codes, c_str}
use my_wireshark.Wire.{Parse, accepted, rejected, fault}
use my_wireshark.Capture.{raw_socket_max_frame}
use my_wireshark.Disp.Node.{
  Node, and_node, cmp_node, cmp_eq, cmp_ne, ipv4, port, field_ip_addr, field_udp_port,
}
use my_wireshark.Disp.Eval.{Fields}
use my_wireshark.Disp.Eval.Holds.{IsFields}
use my_wireshark.Eth.{eth_parse}
use my_wireshark.Ip.{ip_parse}
use my_wireshark.Transport.{udp_parse}
use my_wireshark.Format.{separated, eth_mac_to_str, ip_addr_to_str}
use my_wireshark.Printer.Text.{number_digits, Stamp, print}
use my_wireshark.Printer.Dump.{hex_dump, line_text}
use my_wireshark.Printer.Dump.RoundTrip.{read_dump, read_dump-hex_dump}
use my_wireshark.Printer.{Line, Decoded, decode, print_packet}
use my_wireshark.Printer.Shows.{LineShows}
use my_wireshark.Printer.Decode.{Selects, print_packet-Selects}

-- A question to port 53, from 10.0.0.1 to 10.0.0.2, with its header checksum and without one of
-- its own.
abbrev frame : List ℕ
frame =
    replicate 6 2
    ++ replicate 6 4
    ++ 8 ∷ 0 ∷ 0x45 ∷ 0 ∷ 0 ∷ 28 ∷ 0 ∷ 0 ∷ 0 ∷ 0 ∷ 64 ∷ 17 ∷ 0x66 ∷ 0xcf ∷ 10 ∷ 0 ∷ 0 ∷ 1 ∷ 10 ∷ 0
      ∷ 0 ∷ 2 ∷ 0x9c ∷ 0x40 ∷ 0 ∷ 53 ∷ 0 ∷ 8 ∷ 0 ∷ 0 ∷ []

frame-IsBytes : IsBytes frame
unfolding all_test
frame-IsBytes = IsBytes-test frame refl

-- ip.addr == 10.0.0.2 && udp.port != 443
abbrev questions : Node
questions =
    and_node (cmp_node field_ip_addr cmp_eq (ipv4 (10 ∷ 0 ∷ 0 ∷ 2 ∷ [])))
      (cmp_node field_udp_port cmp_ne (port 443))

print_packet-Selects_example :
    (f : Fields) × (line : Line) × (decode frame 42 ≡ accepted (f, line))
    × IsFields f
    × LineShows f line
    × ((Selects (some questions) f
          × (print_packet frame 42 (some questions) ≡ accepted (some line)))
        ⊎ (¬ Selects (some questions) f × (print_packet frame 42 (some questions) ≡ accepted none)))
print_packet-Selects_example =
    print_packet-Selects frame 42 frame-IsBytes (omega arith) (omega arith) (some questions)
      (refl, omega arith)

-- The characters that are printable in the C locale.
abbrev isprint : ℕ → Bool
isprint b = leb 32 b && leb b 126

read_dump-hex_dump_example : read_dump raw_socket_max_frame (hex_dump isprint frame) ≡ frame
read_dump-hex_dump_example = read_dump-hex_dump isprint frame frame-IsBytes (omega arith)

dump_text :
    hex_dump isprint (0x41 ∷ 0x0a ∷ 0xff ∷ [])
    ≡ codes "  0x0000:  410a ff                                  A.." ++ 10 ∷ []
unfolding hex_dump
dump_text = refl

abbrev stamp : Stamp
stamp = record { ts_seconds = 1_700_000_000; ts_microseconds = 5; capture_length = 42 }

abbrev text_of : Parse Decoded → List ℕ
text_of (accepted (f, line)) = line_text isprint stamp line
text_of rejected = []
text_of fault = []

line_of_frame :
    text_of (decode frame 42)
    ≡ codes
        "1700000000.000005 len=42 04:04:04:04:04:04 > 02:02:02:02:02:02 [UDP] 10.0.0.1 > 10.0.0.2 ttl=64 40000 > 53 len=8"
unfolding decode print c_str eth_parse ip_parse udp_parse number_digits eth_mac_to_str separated
    ip_addr_to_str
line_of_frame = refl
