-- ===== src/Cap/Matches.antt =====
-- What a filter means, apart from any code for it: the fields of a frame as numbers, and the value
-- of an expression over them. `none` is a field that the frame is too short to hold.
use my_wireshark.Base.{
  ℕ, ◌+◌, ◌-◌, ◌*◌, ◌/◌, ◌%◌, ◌^◌, ◌≤◌, ◌<◌, Bool, true, false, not, List, [], ◌∷◌, Option, none,
  some, leb, ◌==◌, if◌then◌else◌, length, take, drop,
}
use my_wireshark.Cap.Node.{
  Dir, src, dst, Addr, Node, null, and_node, or_node, not_node, ethertype, ipproto, host, port, net,
}

-- A big-endian number, after the digits `acc`.
abbrev pub number : ℕ → List ℕ → ℕ
number acc [] = acc
number acc (x ∷ xs) = number (acc * 256 + x) xs

-- The `n` bytes at offset `off` of a frame.
unfoldable pub field : List ℕ → ℕ → ℕ → Option ℕ
field pkt off n =
    if leb (off + n) (length pkt) then some (number 0 (take n (drop off pkt))) else none

abbrev pub addr_number : Addr → ℕ
addr_number a = number 0 (a.b0 ∷ a.b1 ∷ a.b2 ∷ a.b3 ∷ [])

abbrev pub map_option {ℓ κ} : {A : Type ℓ} {B : Type κ} → (A → B) → Option A → Option B
map_option f none = none
map_option f (some a) = some (f a)

abbrev pub ip_field : Dir → ℕ
ip_field src = 14 + 12
ip_field dst = 14 + 16

-- The offset of a port, past an IP header whose first byte is `first`.
abbrev pub port_field : Dir → ℕ → ℕ
port_field src first = 14 + first % 16 * 4
port_field dst first = 14 + first % 16 * 4 + 2

-- The second value is asked for only if the first decides nothing.
abbrev pub and_then : Option Bool → Option Bool → Option Bool
and_then none q = none
and_then (some true) q = q
and_then (some false) q = some false

abbrev pub or_else : Option Bool → Option Bool → Option Bool
or_else none q = none
or_else (some true) q = some true
or_else (some false) q = q

abbrev pub port_test : List ℕ → Dir → ℕ → Option ℕ → Option Bool
port_test pkt dir k none = none
port_test pkt dir k (some first) = map_option (λ v. v == k) (field pkt (port_field dir first) 2)

unfoldable pub matches : Node → List ℕ → Option Bool
matches null pkt = none
matches (and_node l r) pkt = and_then (matches l pkt) (matches r pkt)
matches (or_node l r) pkt = or_else (matches l pkt) (matches r pkt)
matches (not_node n) pkt = map_option not (matches n pkt)
matches (ethertype k) pkt = map_option (λ v. v == k) (field pkt 12 2)
matches (ipproto k) pkt = map_option (λ v. v == k) (field pkt (14 + 9) 1)
matches (host dir addr) pkt = map_option (λ v. v == addr_number addr) (field pkt (ip_field dir) 4)
matches (net dir addr prefix_len) pkt =
    let low = 2 ^ (32 - prefix_len) in
    map_option (λ v. v / low == addr_number addr / low) (field pkt (ip_field dir) 4)
matches (port dir k) pkt = port_test pkt dir k (field pkt 14 1)

-- The nodes that the parser builds: no null pointer, octets of a byte, prefixes of at most 32 bits.
abbrev pub IsOctets : Addr → Type 0
IsOctets a = (a.b0 < 256) × (a.b1 < 256) × (a.b2 < 256) × (a.b3 < 256)

abbrev pub IsWellFormed : Node → Type 0
IsWellFormed null = ⊥
IsWellFormed (and_node l r) = IsWellFormed l × IsWellFormed r
IsWellFormed (or_node l r) = IsWellFormed l × IsWellFormed r
IsWellFormed (not_node n) = IsWellFormed n
IsWellFormed (ethertype k) = Unit
IsWellFormed (ipproto k) = Unit
IsWellFormed (host dir addr) = IsOctets addr
IsWellFormed (port dir k) = Unit
IsWellFormed (net dir addr prefix_len) = IsOctets addr × (prefix_len ≤ 32)
