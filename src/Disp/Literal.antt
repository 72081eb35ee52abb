-- ===== src/Disp/Literal.antt =====
-- The literals of src/c/dispfilter.c: MAC, IPv4 and IPv6 addresses. `none` is a return of -1.
pub mod Bounds
use my_wireshark.Base.{
  ◌>>=◌, ℕ, zero, suc, ◌+◌, ◌-◌, ◌*◌, ◌/◌, ◌%◌, ◌^◌, bit_and, bit_or, Bool, ◌&&◌, ◌||◌, not, List,
  [], ◌∷◌, ◌++◌, Option, none, some, ltb, leb, ◌==◌, if◌then◌else◌, length, replicate,
}
use my_wireshark.Base.Text.{span}
use my_wireshark.Cap.Node.{Addr}
use my_wireshark.Cap.Lexer

unfoldable pub hex_nibble : ℕ → Option ℕ
hex_nibble c =
    if leb b'0' c && leb c b'9'
    then some (c - b'0')
    else if leb b'a' c && leb c b'f'
    then some (c - b'a' + 10)
    else if leb b'A' c && leb c b'F'
    then some (c - b'A' + 10)
    else none

abbrev pub octets : Addr → List ℕ
octets a = a.b0 ∷ a.b1 ∷ a.b2 ∷ a.b3 ∷ []

abbrev pub addr_octets : Option Addr → Option (List ℕ)
addr_octets none = none
addr_octets (some a) = some (octets a)

-- The file has a copy of the function of src/c/capfilter.c.
unfoldable pub parse_ipv4_word : List ℕ → Option (List ℕ)
parse_ipv4_word word = addr_octets (Lexer.parse_ipv4_word word)

-- The colon before the groups that are left.
abbrev pub skip_colon : ℕ → List ℕ → Option (List ℕ)
skip_colon zero word = some word
skip_colon (suc g) [] = none
skip_colon (suc g) (x ∷ word) = if x == b':' then some word else none

-- The loop over the groups that are left, `hi` and `lo` being `word[base]` and `word[base + 1]`.
unfoldable pub mac_groups : ℕ → List ℕ → Option (List ℕ)
unfolding hex_nibble
mac_groups zero word = some []
mac_groups (suc g) (hi ∷ lo ∷ word) = do
  h ← hex_nibble hi
  l ← hex_nibble lo
  word' ← skip_colon g word
  out ← mac_groups g word'
  some ((bit_or (h * 2 ^ 4) l % 2 ^ 8) ∷ out)
mac_groups (suc g) _ = none

unfoldable pub parse_mac_word : List ℕ → Option (List ℕ)
unfolding mac_groups
parse_mac_word word = if not (length word == 17) then none else mac_groups 6 word

abbrev pub not_colon : ℕ → Bool
not_colon c = not (c == b':')

-- The value of a group, over its digits.
unfoldable pub hextet_value : ℕ → List ℕ → Option ℕ
unfolding hex_nibble
hextet_value val [] = some val
hextet_value val (c ∷ group) = do
  nib ← hex_nibble c
  hextet_value (bit_or (val * 2 ^ 4) nib % 2 ^ 16) group

-- Past the colon after a group, which must not end the text.
abbrev pub after_group : List ℕ → Option (List ℕ)
after_group [] = some []
after_group (x ∷ []) = none
after_group (x ∷ y ∷ s) = some (y ∷ s)

-- The loop of `parse_hextet_list`, with the groups that `out` still has room for. Without room every
-- way through a round ends with -1.
unfoldable pub parse_hextet_list : ℕ → List ℕ → Option (List ℕ)
unfolding span hextet_value
parse_hextet_list room [] = some []
parse_hextet_list zero (c ∷ s) = none
parse_hextet_list (suc room) (c ∷ s) =
    let (group, rest) = span not_colon (c ∷ s) in
    let groups = do
      val ← hextet_value 0 group
      rest' ← after_group rest
      out ← parse_hextet_list room rest'
      some (val ∷ out)
    in if length group == 0 || ltb 4 (length group) then none else groups

abbrev pub prepend : ℕ → Option (List ℕ × List ℕ) → Option (List ℕ × List ℕ)
prepend x none = none
prepend x (some (before, after)) = some (x ∷ before, after)

-- The text before and after the first "::".
unfoldable pub split_double : List ℕ → Option (List ℕ × List ℕ)
split_double [] = none
split_double (x ∷ []) = none
split_double (x ∷ y ∷ s) =
    if x == b':' && y == b':' then some ([], s) else prepend x (split_double (y ∷ s))

-- The two bytes of each hextet.
abbrev pub hextet_bytes : List ℕ → List ℕ
hextet_bytes [] = []
hextet_bytes (v ∷ vs) = (v / 2 ^ 8 % 2 ^ 8) ∷ bit_and v 0xFF ∷ hextet_bytes vs

abbrev pub whole_hextets : List ℕ → Option (List ℕ)
whole_hextets left = if not (length left == 8) then none else some (hextet_bytes left)

abbrev pub joined_hextets : List ℕ → List ℕ → Option (List ℕ)
joined_hextets left right =
    let total = length left + length right in
    if ltb 7 total
    then none
    else some (hextet_bytes left ++ (hextet_bytes (replicate (8 - total) 0) ++ hextet_bytes right))

-- The two sides of the "::", or the whole word without one.
unfoldable pub parse_sides : List ℕ → Option (List ℕ × List ℕ) → Option (List ℕ)
parse_sides word none = do left ← parse_hextet_list 8 word; whole_hextets left
parse_sides word (some (before, after)) = do
  left ← parse_hextet_list 8 before
  right ← parse_hextet_list 8 after
  joined_hextets left right

unfoldable pub parse_ipv6_word : List ℕ → Option (List ℕ)
parse_ipv6_word word = parse_sides word (split_double word)
