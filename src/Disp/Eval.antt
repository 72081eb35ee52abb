-- ===== src/Disp/Eval.antt =====
-- The evaluation of src/c/dispfilter.c. `none` is a read through a null pointer, or of a member of
-- the union that was not written.
pub mod Holds
pub mod Correct
use my_wireshark.Base.{
  ◌>>=◌, ℕ, Bool, true, false, not, ◌&&◌, ◌||◌, List, [], ◌∷◌, Option, none, some, ◌==◌, take,
}
use my_wireshark.Base.Text.{same_bytes}
use my_wireshark.Disp.Node.{
  Field, field_eth_src, field_eth_dst, field_eth_addr, field_ip_src, field_ip_dst, field_ip_addr,
  field_ipv6_src, field_ipv6_dst, field_ipv6_addr, field_tcp_srcport, field_tcp_dstport,
  field_tcp_port, field_udp_srcport, field_udp_dstport, field_udp_port, Cmp, cmp_eq, cmp_ne, Value,
  port, ipv4, ipv6, mac, Node, null, and_node, or_node, not_node, cmp_node,
}

-- `dispfilter_fields_t`
pub record Fields : Type 0 where
  pub eth_src : List ℕ
  pub eth_dst : List ℕ
  pub has_ip : Bool
  pub ip_src : List ℕ
  pub ip_dst : List ℕ
  pub has_ipv6 : Bool
  pub ipv6_src : List ℕ
  pub ipv6_dst : List ℕ
  pub has_tcp : Bool
  pub tcp_src_port : ℕ
  pub tcp_dst_port : ℕ
  pub has_udp : Bool
  pub udp_src_port : ℕ
  pub udp_dst_port : ℕ

unfoldable pub bytes_eq : List ℕ → List ℕ → ℕ → Bool
unfolding same_bytes
bytes_eq a b n = same_bytes (take n a) (take n b)

-- The variable `eq` after the `switch`.
unfoldable pub eval_eq : Field → Value → Fields → Option Bool
unfolding bytes_eq
eval_eq field_eth_src (mac m) f = some (bytes_eq f.eth_src m 6)
eval_eq field_eth_dst (mac m) f = some (bytes_eq f.eth_dst m 6)
eval_eq field_eth_addr (mac m) f = some (bytes_eq f.eth_src m 6 || bytes_eq f.eth_dst m 6)
eval_eq field_ip_src (ipv4 a) f = some (f.has_ip && bytes_eq f.ip_src a 4)
eval_eq field_ip_dst (ipv4 a) f = some (f.has_ip && bytes_eq f.ip_dst a 4)
eval_eq field_ip_addr (ipv4 a) f =
    some (f.has_ip && (bytes_eq f.ip_src a 4 || bytes_eq f.ip_dst a 4))
eval_eq field_ipv6_src (ipv6 a) f = some (f.has_ipv6 && bytes_eq f.ipv6_src a 16)
eval_eq field_ipv6_dst (ipv6 a) f = some (f.has_ipv6 && bytes_eq f.ipv6_dst a 16)
eval_eq field_ipv6_addr (ipv6 a) f =
    some (f.has_ipv6 && (bytes_eq f.ipv6_src a 16 || bytes_eq f.ipv6_dst a 16))
eval_eq field_tcp_srcport (port n) f = some (f.has_tcp && f.tcp_src_port == n)
eval_eq field_tcp_dstport (port n) f = some (f.has_tcp && f.tcp_dst_port == n)
eval_eq field_tcp_port (port n) f = some (f.has_tcp && (f.tcp_src_port == n || f.tcp_dst_port == n))
eval_eq field_udp_srcport (port n) f = some (f.has_udp && f.udp_src_port == n)
eval_eq field_udp_dstport (port n) f = some (f.has_udp && f.udp_dst_port == n)
eval_eq field_udp_port (port n) f = some (f.has_udp && (f.udp_src_port == n || f.udp_dst_port == n))
eval_eq _ _ f = none

abbrev pub compare_with : Cmp → Bool → Bool
compare_with cmp_eq eq = eq
compare_with cmp_ne eq = not eq

unfoldable pub eval_cmp : Field → Cmp → Value → Fields → Option Bool
unfolding eval_eq
eval_cmp field c v f = do eq ← eval_eq field v f; some (compare_with c eq)

-- The right operand is evaluated only where `&&` and `||` ask for it.
unfoldable pub eval_node : Node → Fields → Option Bool
unfolding eval_cmp
eval_node null f = none
eval_node (and_node l r) f = do
  b ← eval_node l f
  elim b [ true ↦ eval_node r f | false ↦ some false ]
eval_node (or_node l r) f = do
  b ← eval_node l f
  elim b [ true ↦ some true | false ↦ eval_node r f ]
eval_node (not_node n) f = do b ← eval_node n f; some (not b)
eval_node (cmp_node field c v) f = eval_cmp field c v f

-- The outer `none` is a null filter, a null root one that matches everything.
unfoldable pub dispfilter_matches : Option Node → Fields → Option Bool
unfolding eval_node
dispfilter_matches none f = some true
dispfilter_matches (some null) f = some true
dispfilter_matches (some root) f = eval_node root f
