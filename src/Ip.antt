-- ===== src/Ip.antt =====
-- src/c/ip_parser.c
pub mod Wire
use my_wireshark.Base.{
  ℕ, ◌+◌, ◌-◌, ◌*◌, ◌/◌, ◌%◌, ◌^◌, bit_and, Bool, not, List, Option, none, some, ltb, leb, ◌==◌,
  if◌then◌else◌, ◌||◌, drop,
}
use my_wireshark.Checksum.{checksum_verify}
use my_wireshark.Wire.{
  Parse, accepted, rejected, ◌>>=◌, reading, byte_at, word_at, bytes_at, WithPayload, with_payload,
}

abbrev pub ip_header_min_len : ℕ
ip_header_min_len = 20

-- `ip_header_t`
pub record IpHeader : Type 0 where
  pub version : ℕ
  pub ihl : ℕ
  pub tos : ℕ
  pub total_length : ℕ
  pub identification : ℕ
  pub flags : ℕ
  pub fragment_offset : ℕ
  pub ttl : ℕ
  pub protocol : ℕ
  pub checksum : ℕ
  pub src_addr : List ℕ
  pub dst_addr : List ℕ
  pub checksum_valid : Bool

-- `available_payload_len` at the end: the smaller of what the buffer and the header leave.
unfoldable pub available : ℕ → ℕ → ℕ → ℕ
available len header_len total_length =
    if leb header_len total_length
    then (if ltb (total_length - header_len) (len - header_len)
        then total_length - header_len
        else len - header_len)
    else len - header_len

-- The fields, after the checks.
unfoldable pub ip_fields : List ℕ → ℕ → ℕ → ℕ → Parse IpHeader
unfolding byte_at word_at bytes_at checksum_verify
ip_fields buffer v words header_len = do
  valid ← reading (checksum_verify buffer header_len)
  type_of_service ← byte_at buffer 1
  total ← word_at buffer 2
  id ← word_at buffer 4
  flags_frag ← word_at buffer 6
  hops ← byte_at buffer 8
  proto ← byte_at buffer 9
  sum ← word_at buffer 10
  from ← bytes_at buffer 12 4
  to ← bytes_at buffer 16 4
  accepted (record {
    version = v;
    ihl = words;
    tos = type_of_service;
    total_length = total;
    identification = id;
    flags = flags_frag / 2 ^ 13 % 2 ^ 8;
    fragment_offset = bit_and flags_frag 0x1FFF;
    ttl = hops;
    protocol = proto;
    checksum = sum;
    src_addr = from;
    dst_addr = to;
    checksum_valid = valid;
  })

-- `none` is a null `data`; `out` is false where `out_header` is null.
unfoldable pub ip_parse : Option (List ℕ) → ℕ → Bool → Parse (WithPayload IpHeader)
unfolding byte_at ip_fields available
ip_parse none len out = rejected
ip_parse (some buffer) len out = if not out || ltb len ip_header_min_len then rejected else do
  first ← byte_at buffer 0
  let v = first / 2 ^ 4
  let words = bit_and first 0x0F
  let header_len = words * 4
  if not (v == 4) || ltb words 5 || ltb len header_len then rejected else do
    h ← ip_fields buffer v words header_len
    accepted (with_payload h (drop header_len buffer) (available len header_len h.total_length))
