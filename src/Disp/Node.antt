-- ===== src/Disp/Node.antt =====
-- Fields, comparisons and the tree of src/c/dispfilter.c.
use my_wireshark.Base.{ℕ, List}

-- The messages of `df_fail`.
pub data Error : Type 0 where
  too_many_tokens invalid_mac_or_ipv6 invalid_number_or_ipv4 number_out_of_range : Error
  unknown_keyword unexpected_character too_complex : Error
  no_field no_operator no_mac no_ipv4 no_ipv6 no_port no_rparen : Error
  trailing_tokens out_of_memory : Error

pub data Field : Type 0 where
  field_eth_src field_eth_dst field_eth_addr field_ip_src field_ip_dst field_ip_addr field_ipv6_src
        field_ipv6_dst field_ipv6_addr :
      Field
  field_tcp_srcport field_tcp_dstport field_tcp_port field_udp_srcport field_udp_dstport
        field_udp_port :
      Field

pub data Cmp : Type 0 where
  cmp_eq cmp_ne : Cmp

-- The union `value`, with the member that was written.
pub data Value : Type 0 where
  port : ℕ → Value
  ipv4 ipv6 mac : List ℕ → Value

-- `null` is the pointer that a failed call returns, and the root that matches everything.
pub data Node : Type 0 where
  null : Node
  and_node or_node : Node → Node → Node
  not_node : Node → Node
  cmp_node : Field → Cmp → Value → Node
