-- ===== src/Icmp.antt =====
-- src/c/icmp_parser.c
pub mod Wire
use my_wireshark.Base.{
  ℕ, Bool, true, false, not, List, Option, none, some, ltb, ◌==◌, if◌then◌else◌, ◌||◌,
}
use my_wireshark.Checksum.{checksum_verify, checksum_verify_ipv6_pseudo}
use my_wireshark.Wire.{Parse, accepted, rejected, ◌>>=◌, reading, byte_at, word_at}

abbrev pub icmp_header_len : ℕ
icmp_header_len = 8

-- `icmp_family_t`
pub data Family : Type 0 where
  icmp_family_v4 icmp_family_v6 : Family

abbrev pub echo_request_type : Family → ℕ
echo_request_type icmp_family_v4 = 8
echo_request_type icmp_family_v6 = 128

abbrev pub echo_reply_type : Family → ℕ
echo_reply_type icmp_family_v4 = 0
echo_reply_type icmp_family_v6 = 129

-- `icmp_header_t`
pub record IcmpHeader : Type 0 where
  pub type : ℕ
  pub code : ℕ
  pub checksum : ℕ
  pub checksum_valid : Bool
  pub is_echo : Bool
  pub echo_id : ℕ
  pub echo_seq : ℕ

abbrev pub icmp_header : ℕ → ℕ → ℕ → Bool → ℕ → ℕ → IcmpHeader
icmp_header t c sum echo id seq = record {
  type = t;
  code = c;
  checksum = sum;
  checksum_valid = false;
  is_echo = echo;
  echo_id = id;
  echo_seq = seq;
}

unfoldable pub icmp_parse : Option (List ℕ) → ℕ → Family → Bool → Parse IcmpHeader
unfolding byte_at word_at
icmp_parse none len family out = rejected
icmp_parse (some buffer) len family out =
    if not out || ltb len icmp_header_len then rejected else do
      t ← byte_at buffer 0
      c ← byte_at buffer 1
      sum ← word_at buffer 2
      if t == echo_request_type family || t == echo_reply_type family
          then (do
            id ← word_at buffer 4
            seq ← word_at buffer 6
            accepted (icmp_header t c sum true id seq))
          else accepted (icmp_header t c sum false 0 0)

unfoldable pub icmpv4_verify_checksum : Option (List ℕ) → ℕ → Parse Bool
icmpv4_verify_checksum none n = accepted false
icmpv4_verify_checksum (some segment) n =
    if ltb n icmp_header_len then accepted false else reading (checksum_verify segment n)

unfoldable pub icmpv6_verify_checksum :
    Option (List ℕ) → ℕ → Option (List ℕ) → Option (List ℕ) → Parse Bool
icmpv6_verify_checksum (some segment) n (some src_ip) (some dst_ip) =
    if ltb n icmp_header_len
    then accepted false
    else reading (checksum_verify_ipv6_pseudo segment n src_ip dst_ip 58)
icmpv6_verify_checksum _ n _ _ = accepted false
