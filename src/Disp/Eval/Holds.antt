-- ===== src/Disp/Eval/Holds.antt =====
-- What a display filter of src/c/dispfilter.c says of a packet, apart from the code.
use my_wireshark.Base.{◌<◌, ◌≡◌, ◌⊎◌, Bool, true, false, List, [], ◌∷◌, length}
use my_wireshark.Disp.Node.{
  Field, field_eth_src, field_eth_dst, field_eth_addr, field_ip_src, field_ip_dst, field_ip_addr,
  field_ipv6_src, field_ipv6_dst, field_ipv6_addr, field_tcp_srcport, field_tcp_dstport,
  field_tcp_port, field_udp_srcport, field_udp_dstport, field_udp_port, cmp_eq, cmp_ne, Value, port,
  ipv4, ipv6, mac, Node, null, and_node, or_node, not_node, cmp_node,
}
use my_wireshark.Disp.Parser.{Kind, mac_kind, ipv4_kind, ipv6_kind, port_kind, kind_of}
use my_wireshark.Disp.Eval.{Fields}

-- A value of a kind, with the bytes that it has.
abbrev pub IsOfKind : Kind → Value → Type 0
IsOfKind mac_kind (mac m) = length m ≡ 6
IsOfKind ipv4_kind (ipv4 a) = length a ≡ 4
IsOfKind ipv6_kind (ipv6 a) = length a ≡ 16
IsOfKind port_kind (port n) = n < 65536
IsOfKind _ _ = ⊥

-- A whole tree, each of whose comparisons has a value of its field's kind.
abbrev pub IsWellTyped : Node → Type 0
IsWellTyped null = ⊥
IsWellTyped (and_node l r) = IsWellTyped l × IsWellTyped r
IsWellTyped (or_node l r) = IsWellTyped l × IsWellTyped r
IsWellTyped (not_node n) = IsWellTyped n
IsWellTyped (cmp_node field c v) = IsOfKind (kind_of field) v

-- The arrays of a packet's fields have their lengths.
pub record IsFields (f : Fields) : Type 0 where
  pub eth_src_len : length f.eth_src ≡ 6
  pub eth_dst_len : length f.eth_dst ≡ 6
  pub ip_src_len : length f.ip_src ≡ 4
  pub ip_dst_len : length f.ip_dst ≡ 4
  pub ipv6_src_len : length f.ipv6_src ≡ 16
  pub ipv6_dst_len : length f.ipv6_dst ≡ 16

abbrev pub carried : Bool → List Value → List Value
carried true vs = vs
carried false vs = []

-- The values that a packet has for a field: none where it does not carry the layer, and two for a
-- field that stands for a source and a destination.
abbrev pub field_values : Field → Fields → List Value
field_values field_eth_src f = mac f.eth_src ∷ []
field_values field_eth_dst f = mac f.eth_dst ∷ []
field_values field_eth_addr f = mac f.eth_src ∷ mac f.eth_dst ∷ []
field_values field_ip_src f = carried f.has_ip (ipv4 f.ip_src ∷ [])
field_values field_ip_dst f = carried f.has_ip (ipv4 f.ip_dst ∷ [])
field_values field_ip_addr f = carried f.has_ip (ipv4 f.ip_src ∷ ipv4 f.ip_dst ∷ [])
field_values field_ipv6_src f = carried f.has_ipv6 (ipv6 f.ipv6_src ∷ [])
field_values field_ipv6_dst f = carried f.has_ipv6 (ipv6 f.ipv6_dst ∷ [])
field_values field_ipv6_addr f = carried f.has_ipv6 (ipv6 f.ipv6_src ∷ ipv6 f.ipv6_dst ∷ [])
field_values field_tcp_srcport f = carried f.has_tcp (port f.tcp_src_port ∷ [])
field_values field_tcp_dstport f = carried f.has_tcp (port f.tcp_dst_port ∷ [])
field_values field_tcp_port f = carried f.has_tcp (port f.tcp_src_port ∷ port f.tcp_dst_port ∷ [])
field_values field_udp_srcport f = carried f.has_udp (port f.udp_src_port ∷ [])
field_values field_udp_dstport f = carried f.has_udp (port f.udp_dst_port ∷ [])
field_values field_udp_port f = carried f.has_udp (port f.udp_src_port ∷ port f.udp_dst_port ∷ [])

abbrev pub IsAmong : Value → List Value → Type 0
IsAmong v [] = ⊥
IsAmong v (x ∷ []) = x ≡ v
IsAmong v (x ∷ xs) = (x ≡ v) ⊎ IsAmong v xs

-- `==` asks for a value among those of the field, and `!=` for none.
abbrev pub Holds : Node → Fields → Type 0
Holds null f = ⊥
Holds (and_node l r) f = Holds l f × Holds r f
Holds (or_node l r) f = Holds l f ⊎ Holds r f
Holds (not_node n) f = ¬ Holds n f
Holds (cmp_node field cmp_eq v) f = IsAmong v (field_values field f)
Holds (cmp_node field cmp_ne v) f = ¬ IsAmong v (field_values field f)
