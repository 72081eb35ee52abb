-- ===== src/Format/Mac.antt =====
-- The text of eth_mac_to_str (src/c/eth_parser.c), read by parse_mac_word (src/c/dispfilter.c).
use my_wireshark.Base.{
  ℕ, ◌+◌, ◌*◌, ◌/◌, ◌%◌, ◌^◌, bit_or, ◌<◌, ◌≡◌, refl, sym, List, [], ◌∷◌, ◌++◌, some, arith, length,
  IsBytes,
}
use my_wireshark.Base.Bits.{bit_or_fields}
use my_wireshark.Disp.Literal.{mac_groups, parse_mac_word}
use my_wireshark.Format.{eth_mac_str_len, hex02, separated, mac_text, eth_mac_to_str}
use my_wireshark.Format.Digits.{hex_nibble-hex_digit, snprintf-fits}

joined_byte : (b : ℕ) → b < 256 → bit_or (b / 16 * 2 ^ 4) (b % 16) % 2 ^ 8 ≡ b
joined_byte b h = omega (arith, bit_or_fields 4 (b / 16) (b % 16) (omega arith))

mac_groups-separated :
    (bs : List ℕ) → IsBytes bs → mac_groups (length bs) (separated b':' hex02 bs) ≡ some bs
unfolding mac_groups separated
mac_groups-separated [] h = refl
mac_groups-separated (b ∷ []) (h, _) =
    rw
      (
        hex_nibble-hex_digit (b / 16) (omega arith),
        hex_nibble-hex_digit (b % 16) (omega arith),
        joined_byte b h,
      )
      refl
mac_groups-separated (b ∷ c ∷ bs) (h, hs) =
    rw
      (
        hex_nibble-hex_digit (b / 16) (omega arith),
        hex_nibble-hex_digit (b % 16) (omega arith),
        joined_byte b h,
        mac_groups-separated (c ∷ bs) hs,
      )
      refl

length-mac_text : (b : ℕ) (bs : List ℕ) → length (separated b':' hex02 (b ∷ bs)) ≡ 3 * length bs + 2
unfolding separated
length-mac_text b [] = refl
length-mac_text b (c ∷ bs) = omega (arith, length-mac_text c bs)

-- Of the six bytes of an address `eth_mac_to_str` writes the whole text with its NUL, uncut, and
-- `parse_mac_word` of the display filter reads the address from that text.
pub eth_mac_to_str-parse_mac_word :
    (m : List ℕ)
    → IsBytes m
    → length m ≡ 6
    → (eth_mac_to_str m ≡ mac_text m ++ 0 ∷ []) × (parse_mac_word (mac_text m) ≡ some m)
unfolding eth_mac_to_str mac_text parse_mac_word
eth_mac_to_str-parse_mac_word [] h e = absurd (omega arith)
eth_mac_to_str-parse_mac_word (b ∷ bs) h e =
    let n : length (separated b':' hex02 (b ∷ bs)) ≡ 17 = omega (arith, length-mac_text b bs) in
    let g : mac_groups 6 (separated b':' hex02 (b ∷ bs)) ≡ some (b ∷ bs) =
      rw (sym e) (mac_groups-separated (b ∷ bs) h) in
    (snprintf-fits eth_mac_str_len _ (omega (arith, n)), rw (n) g)
