-- ===== src/Transport/Sums.antt =====
-- The checksum functions of src/c/tcp_udp_parser.c.
pub mod Verify
use my_wireshark.Base.{ℕ, Bool, true, false, List, Option, none, some, ltb, ◌==◌, if◌then◌else◌}
use my_wireshark.Checksum.{checksum_verify_ipv4_pseudo, checksum_verify_ipv6_pseudo}
use my_wireshark.Wire.{Parse, accepted, ◌>>=◌, reading, word_at}
use my_wireshark.Transport.{tcp_header_min_len, udp_header_len}

-- The guards that the checksum functions share: no null pointer, and room for the header.
unfoldable pub tcp_verify_checksum :
    Option (List ℕ) → ℕ → Option (List ℕ) → Option (List ℕ) → Parse Bool
tcp_verify_checksum (some segment) n (some src_ip) (some dst_ip) =
    if ltb n tcp_header_min_len
    then accepted false
    else reading (checksum_verify_ipv4_pseudo segment n src_ip dst_ip 6)
tcp_verify_checksum _ n _ _ = accepted false

unfoldable pub udp_verify_checksum :
    Option (List ℕ) → ℕ → Option (List ℕ) → Option (List ℕ) → Parse Bool
udp_verify_checksum (some segment) n (some src_ip) (some dst_ip) =
    if ltb n udp_header_len then accepted false else do
      checksum_field ← word_at segment 6
      if checksum_field == 0
          then accepted true
          else reading (checksum_verify_ipv4_pseudo segment n src_ip dst_ip 17)
udp_verify_checksum _ n _ _ = accepted false

unfoldable pub tcp_verify_checksum_ipv6 :
    Option (List ℕ) → ℕ → Option (List ℕ) → Option (List ℕ) → Parse Bool
tcp_verify_checksum_ipv6 (some segment) n (some src_ip) (some dst_ip) =
    if ltb n tcp_header_min_len
    then accepted false
    else reading (checksum_verify_ipv6_pseudo segment n src_ip dst_ip 6)
tcp_verify_checksum_ipv6 _ n _ _ = accepted false

unfoldable pub udp_verify_checksum_ipv6 :
    Option (List ℕ) → ℕ → Option (List ℕ) → Option (List ℕ) → Parse Bool
udp_verify_checksum_ipv6 (some segment) n (some src_ip) (some dst_ip) =
    if ltb n udp_header_len
    then accepted false
    else reading (checksum_verify_ipv6_pseudo segment n src_ip dst_ip 17)
udp_verify_checksum_ipv6 _ n _ _ = accepted false
