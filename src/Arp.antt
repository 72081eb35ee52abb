-- ===== src/Arp.antt =====
-- src/c/arp_parser.c
pub mod Wire
use my_wireshark.Base.{ℕ, Bool, not, List, Option, none, some, ltb, ◌==◌, if◌then◌else◌, ◌||◌}
use my_wireshark.Wire.{Parse, accepted, rejected, ◌>>=◌, byte_at, word_at, bytes_at}

abbrev pub arp_header_len : ℕ
arp_header_len = 28

-- `arp_header_t`
pub record ArpHeader : Type 0 where
  pub hardware_type : ℕ
  pub protocol_type : ℕ
  pub hardware_addr_len : ℕ
  pub protocol_addr_len : ℕ
  pub opcode : ℕ
  pub sender_mac : List ℕ
  pub sender_ip : List ℕ
  pub target_mac : List ℕ
  pub target_ip : List ℕ

unfoldable pub arp_fields : List ℕ → ℕ → ℕ → ℕ → ℕ → Parse ArpHeader
unfolding word_at bytes_at
arp_fields buffer htype ptype hlen plen = do
  op ← word_at buffer 6
  from_mac ← bytes_at buffer 8 6
  from_ip ← bytes_at buffer 14 4
  to_mac ← bytes_at buffer 18 6
  to_ip ← bytes_at buffer 24 4
  accepted (record {
    hardware_type = htype;
    protocol_type = ptype;
    hardware_addr_len = hlen;
    protocol_addr_len = plen;
    opcode = op;
    sender_mac = from_mac;
    sender_ip = from_ip;
    target_mac = to_mac;
    target_ip = to_ip;
  })

-- `none` is a null `data`; `out` is false where `out_header` is null.
unfoldable pub arp_parse : Option (List ℕ) → ℕ → Bool → Parse ArpHeader
unfolding byte_at word_at arp_fields
arp_parse none len out = rejected
arp_parse (some buffer) len out = if not out || ltb len arp_header_len then rejected else do
  htype ← word_at buffer 0
  ptype ← word_at buffer 2
  hlen ← byte_at buffer 4
  plen ← byte_at buffer 5
  if not (htype == 1) || not (ptype == 0x0800) || not (hlen == 6) || not (plen == 4)
      then rejected
      else arp_fields buffer htype ptype hlen plen
