-- ===== src/Transport.antt =====
-- The parsers of src/c/tcp_udp_parser.c
pub mod Sums
pub mod Wire
use my_wireshark.Base.{
  ℕ, ◌+◌, ◌-◌, ◌*◌, ◌/◌, ◌%◌, ◌^◌, bit_and, bit_or, Bool, true, false, not, List, Option, none,
  some, ltb, ◌==◌, if◌then◌else◌, ◌||◌, drop,
}
use my_wireshark.Wire.{
  Parse, accepted, rejected, ◌>>=◌, byte_at, word_at, WithPayload, with_payload,
}

abbrev pub tcp_header_min_len : ℕ
tcp_header_min_len = 20

abbrev pub udp_header_len : ℕ
udp_header_len = 8

-- `tcp_header_t`
pub record TcpHeader : Type 0 where
  pub src_port : ℕ
  pub dst_port : ℕ
  pub seq_num : ℕ
  pub ack_num : ℕ
  pub data_offset : ℕ
  pub flags : ℕ
  pub window_size : ℕ
  pub checksum : ℕ
  pub urgent_pointer : ℕ
  pub checksum_valid : Bool

-- Four bytes from `data + i` as a 32-bit number.
unfoldable pub long_at : List ℕ → ℕ → Parse ℕ
unfolding byte_at
long_at buffer i = do
  a ← byte_at buffer i
  b ← byte_at buffer (i + 1)
  c ← byte_at buffer (i + 2)
  d ← byte_at buffer (i + 3)
  accepted
      (bit_or (bit_or (bit_or (a * 2 ^ 24 % 2 ^ 32) (b * 2 ^ 16 % 2 ^ 32)) (c * 2 ^ 8 % 2 ^ 32)) d)

unfoldable pub tcp_fields : List ℕ → ℕ → Parse TcpHeader
unfolding byte_at word_at long_at
tcp_fields buffer words = do
  from ← word_at buffer 0
  to ← word_at buffer 2
  seq ← long_at buffer 4
  ack ← long_at buffer 8
  bits ← byte_at buffer 13
  window ← word_at buffer 14
  sum ← word_at buffer 16
  urgent ← word_at buffer 18
  accepted (record {
    src_port = from;
    dst_port = to;
    seq_num = seq;
    ack_num = ack;
    data_offset = words;
    flags = bit_and bits 0x3F;
    window_size = window;
    checksum = sum;
    urgent_pointer = urgent;
    checksum_valid = false;
  })

-- `none` is a null pointer to the segment; `out` is false where `out_header` is null.
unfoldable pub tcp_parse : Option (List ℕ) → ℕ → Bool → Parse (WithPayload TcpHeader)
unfolding byte_at tcp_fields
tcp_parse none len out = rejected
tcp_parse (some buffer) len out = if not out || ltb len tcp_header_min_len then rejected else do
  twelfth ← byte_at buffer 12
  let words = twelfth / 2 ^ 4
  let header_len = words * 4
  if ltb words 5 || ltb len header_len then rejected else do
    h ← tcp_fields buffer words
    accepted (with_payload h (drop header_len buffer) (len - header_len))

-- `udp_header_t`
pub record UdpHeader : Type 0 where
  pub src_port : ℕ
  pub dst_port : ℕ
  pub length_field : ℕ
  pub checksum : ℕ
  pub checksum_present : Bool
  pub checksum_valid : Bool

unfoldable pub udp_parse : Option (List ℕ) → ℕ → Bool → Parse (WithPayload UdpHeader)
unfolding word_at
udp_parse none len out = rejected
udp_parse (some buffer) len out = if not out || ltb len udp_header_len then rejected else do
  from ← word_at buffer 0
  to ← word_at buffer 2
  size ← word_at buffer 4
  sum ← word_at buffer 6
  accepted (
      with_payload
        (record {
          src_port = from;
          dst_port = to;
          length_field = size;
          checksum = sum;
          checksum_present = not (sum == 0);
          checksum_valid = false;
        })
        (drop udp_header_len buffer) (len - udp_header_len))
