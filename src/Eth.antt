-- ===== src/Eth.antt =====
-- src/c/eth_parser.c
pub mod Wire
use my_wireshark.Base.{
  ℕ, ◌+◌, ◌-◌, Bool, true, false, List, Option, none, some, ltb, ◌==◌, if◌then◌else◌, ◌||◌, drop,
  not,
}
use my_wireshark.Wire.{
  Parse, accepted, rejected, ◌>>=◌, byte_at, word_at, bytes_at, WithPayload, with_payload,
}

abbrev pub eth_header_len : ℕ
eth_header_len = 14

abbrev pub eth_vlan_tag_len : ℕ
eth_vlan_tag_len = 4

abbrev pub eth_type_vlan : ℕ
eth_type_vlan = 0x8100

-- `eth_header_t`
pub record EthHeader : Type 0 where
  pub dst_mac : List ℕ
  pub src_mac : List ℕ
  pub ether_type : ℕ
  pub has_vlan : Bool
  pub vlan_tci : ℕ

-- The branch on the tag: the header and its length.
unfoldable pub eth_type_part : List ℕ → ℕ → List ℕ → List ℕ → ℕ → Parse (EthHeader × ℕ)
unfolding word_at
eth_type_part buffer len to from type_or_tpid =
    if type_or_tpid == eth_type_vlan
    then (if ltb len (eth_header_len + eth_vlan_tag_len) then rejected else do
      tci ← word_at buffer 14
      type ← word_at buffer 16
      accepted (
        record { dst_mac = to; src_mac = from; ether_type = type; has_vlan = true; vlan_tci = tci },
        eth_header_len + eth_vlan_tag_len,
      ))
    else accepted (
      record {
        dst_mac = to;
        src_mac = from;
        ether_type = type_or_tpid;
        has_vlan = false;
        vlan_tci = 0;
      },
      eth_header_len,
    )

-- `none` is a null `data`; `out` is false where `out_header` is null.
unfoldable pub eth_parse : Option (List ℕ) → ℕ → Bool → Parse (WithPayload EthHeader)
unfolding bytes_at word_at eth_type_part
eth_parse none len out = rejected
eth_parse (some buffer) len out = if not out || ltb len eth_header_len then rejected else do
  to ← bytes_at buffer 0 6
  from ← bytes_at buffer 6 6
  type_or_tpid ← word_at buffer 12
  (h, header_len) ← eth_type_part buffer len to from type_or_tpid
  accepted (with_payload h (drop header_len buffer) (len - header_len))
