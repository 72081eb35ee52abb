-- ===== src/Ipv6.antt =====
-- src/c/ipv6_parser.c
pub mod Wire
use my_wireshark.Base.{
  ℕ, ◌+◌, ◌-◌, ◌*◌, ◌/◌, ◌%◌, ◌^◌, bit_and, bit_or, Bool, not, List, Option, none, some, ltb, ◌==◌,
  if◌then◌else◌, ◌||◌, drop,
}
use my_wireshark.Wire.{
  Parse, accepted, rejected, ◌>>=◌, byte_at, word_at, bytes_at, WithPayload, with_payload,
}

abbrev pub ipv6_header_len : ℕ
ipv6_header_len = 40

-- `ipv6_header_t`
pub record Ipv6Header : Type 0 where
  pub version : ℕ
  pub traffic_class : ℕ
  pub flow_label : ℕ
  pub payload_length : ℕ
  pub next_header : ℕ
  pub hop_limit : ℕ
  pub src_addr : List ℕ
  pub dst_addr : List ℕ

-- The fields, after the checks. The loop over the addresses copies each in turn here.
unfoldable pub ipv6_fields : List ℕ → ℕ → ℕ → Parse Ipv6Header
unfolding byte_at word_at bytes_at
ipv6_fields buffer first v = do
  second ← byte_at buffer 1
  third ← byte_at buffer 2
  fourth ← byte_at buffer 3
  rest ← word_at buffer 4
  next ← byte_at buffer 6
  hops ← byte_at buffer 7
  from ← bytes_at buffer 8 16
  to ← bytes_at buffer 24 16
  accepted (record {
    version = v;
    traffic_class = bit_or (bit_and first 0x0F * 2 ^ 4) (second / 2 ^ 4) % 2 ^ 8;
    flow_label =
        bit_or (bit_or (bit_and second 0x0F * 2 ^ 16 % 2 ^ 32) (third * 2 ^ 8 % 2 ^ 32)) fourth;
    payload_length = rest;
    next_header = next;
    hop_limit = hops;
    src_addr = from;
    dst_addr = to;
  })

-- `none` is a null `data`; `out` is false where `out_header` is null.
unfoldable pub ipv6_parse : Option (List ℕ) → ℕ → Bool → Parse (WithPayload Ipv6Header)
unfolding byte_at ipv6_fields
ipv6_parse none len out = rejected
ipv6_parse (some buffer) len out = if not out || ltb len ipv6_header_len then rejected else do
  first ← byte_at buffer 0
  let v = first / 2 ^ 4
  if not (v == 6) then rejected else do
    h ← ipv6_fields buffer first v
    accepted (with_payload h (drop ipv6_header_len buffer) (len - ipv6_header_len))
