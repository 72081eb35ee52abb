-- ===== src/Format.antt =====
-- The addresses as text: eth_mac_to_str, ip_addr_to_str and ipv6_addr_to_str of src/c. An output
-- is the list of the bytes that are written to it, its NUL included.
pub mod Digits
pub mod Mac
pub mod Ipv4
mod Groups
pub mod Ipv6
mod Tests
use my_wireshark.Base.{
  ℕ, ◌+◌, ◌-◌, ◌*◌, ◌/◌, ◌%◌, ◌^◌, List, [], ◌∷◌, ◌++◌, ltb, if◌then◌else◌, take,
}
use my_wireshark.Checksum.{be16}

-- `snprintf` into an array of `size` bytes, of a text that the format gives.
abbrev pub snprintf : ℕ → List ℕ → List ℕ
snprintf size text = take (size - 1) text ++ 0 ∷ []

abbrev pub hex_digit : ℕ → ℕ
hex_digit d = if ltb d 10 then b'0' + d else b'a' + (d - 10)

-- `%02x` of a byte
abbrev pub hex02 : ℕ → List ℕ
hex02 b = hex_digit (b / 16) ∷ hex_digit (b % 16) ∷ []

-- `%x` of a number below 65536
abbrev pub hex : ℕ → List ℕ
hex v =
    if ltb v 16
    then hex_digit v ∷ []
    else if ltb v 256
    then hex_digit (v / 16) ∷ hex_digit (v % 16) ∷ []
    else if ltb v 4096
    then hex_digit (v / 256) ∷ hex_digit (v / 16 % 16) ∷ hex_digit (v % 16) ∷ []
    else hex_digit (v / 4096)
      ∷ hex_digit (v / 256 % 16)
      ∷ hex_digit (v / 16 % 16)
      ∷ hex_digit (v % 16)
      ∷ []

-- `%u` of a byte
abbrev pub decimal : ℕ → List ℕ
decimal b =
    if ltb b 10
    then (b'0' + b) ∷ []
    else if ltb b 100
    then (b'0' + b / 10) ∷ (b'0' + b % 10) ∷ []
    else (b'0' + b / 100) ∷ (b'0' + b / 10 % 10) ∷ (b'0' + b % 10) ∷ []

-- The conversions of a format, with a separator between them.
unfoldable pub separated : ℕ → (ℕ → List ℕ) → List ℕ → List ℕ
separated ch conv [] = []
separated ch conv (x ∷ []) = conv x
separated ch conv (x ∷ y ∷ xs) = conv x ++ (ch ∷ separated ch conv (y ∷ xs))

abbrev pub eth_mac_str_len : ℕ
eth_mac_str_len = 18

abbrev pub ip_addr_str_len : ℕ
ip_addr_str_len = 16

abbrev pub ipv6_addr_str_len : ℕ
ipv6_addr_str_len = 40

unfoldable pub mac_text : List ℕ → List ℕ
mac_text m = separated b':' hex02 m

unfoldable pub eth_mac_to_str : List ℕ → List ℕ
unfolding mac_text
eth_mac_to_str m = snprintf eth_mac_str_len (mac_text m)

unfoldable pub ip_text : List ℕ → List ℕ
ip_text a = separated b'.' decimal a

unfoldable pub ip_addr_to_str : List ℕ → List ℕ
unfolding ip_text
ip_addr_to_str a = snprintf ip_addr_str_len (ip_text a)

-- The hextets of an address.
unfoldable pub hextets : List ℕ → List ℕ
unfolding be16
hextets [] = []
hextets (hi ∷ []) = []
hextets (hi ∷ lo ∷ a) = be16 hi lo ∷ hextets a

unfoldable pub ipv6_text : List ℕ → List ℕ
unfolding hextets
ipv6_text a = separated b':' hex (hextets a)

unfoldable pub ipv6_addr_to_str : List ℕ → List ℕ
unfolding ipv6_text
ipv6_addr_to_str a = snprintf ipv6_addr_str_len (ipv6_text a)
