-- ===== src/Cap/Parser/Leaves.antt =====
-- The functions under the loops of the parser of src/c/capfilter.c, from a primitive to a
-- parenthesis.
use my_wireshark.Base.{ℕ, ◌≤◌, Option, none, some, ltb, All, if_elim, ltb→le}
use my_wireshark.Cap.Node.{
  dir_without_kind, host_without_addr, bad_port, net_without_addr, net_without_slash,
  bad_prefix_len, no_primitive, no_rparen, Dir, src, dst, Addr, Node, not_node, ethertype, ipproto,
  host, port, net,
}
use my_wireshark.Cap.Token.{
  Token, tok_rparen, tok_slash, tok_src, tok_dst, tok_host, tok_port, tok_net, tok_proto_tcp,
  tok_proto_udp, tok_proto_icmp, tok_proto_ip, tok_proto_ip6, tok_proto_arp, tok_number, tok_ipv4,
}
use my_wireshark.Cap.Matches.{IsWellFormed, IsOctets}
use my_wireshark.Cap.Lexer.Safety.{IsOkToken}
use my_wireshark.Cap.Parser.{
  State, p_peek, p_advance, Parsed, mk_node, mk_l4_proto, mk_directed, host_tree, port_tree,
  net_tree, host_arg, parse_host, port_arg, parse_port, prefix_arg, slash_arg, net_arg, parse_net,
  directed_kind, undirected_kind, primitive, mk_not, rparen_arg, close_paren,
}
use my_wireshark.Cap.Parser.Steps.{
  Good, Step-trans, back, head_token-ok, Step-advance, refused-Good, mk_node-Good, Good-after,
  and-Good, or-Good,
}

leaf-Good : (s : State) (n : Node) → IsWellFormed n → Good s (mk_node s n)
leaf-Good s n h = mk_node-Good s n λ _. h

directed-Good :
    (s : State) (dir : Option Dir) (leaf : Dir → Node)
    → ((d : Dir) → IsWellFormed (leaf d))
    → Good s (mk_directed s dir leaf)
unfolding mk_directed
directed-Good s (some dir) leaf h = leaf-Good s (leaf dir) (h dir)
directed-Good s none leaf h =
    or-Good s (leaf-Good s (leaf src) (h src)) (leaf-Good _ (leaf dst) (h dst))

mk_l4_proto-Good : (s : State) (k : ℕ) → Good s (mk_l4_proto s k)
unfolding mk_l4_proto
mk_l4_proto-Good s k = and-Good s (leaf-Good s (ethertype 0x0800) tt) (leaf-Good _ (ipproto k) tt)

host_tree-Good : (s : State) (dir : Option Dir) (a : Addr) → IsOctets a → Good s (host_tree s dir a)
unfolding host_tree
host_tree-Good s dir a h =
    and-Good s (leaf-Good s (ethertype 0x0800) tt) (directed-Good _ dir (λ d. host d a) λ _. h)

net_tree-Good :
    (s : State) (dir : Option Dir) (a : Addr) (n : ℕ)
    → IsOctets a
    → n ≤ 32
    → Good s (net_tree s dir a n)
unfolding net_tree
net_tree-Good s dir a n h k =
    and-Good s (leaf-Good s (ethertype 0x0800) tt)
      (directed-Good _ dir (λ d. net d a n) λ _. (h, k))

port_tree-Good : (s : State) (dir : Option Dir) (n : ℕ) → Good s (port_tree s dir n)
unfolding port_tree
port_tree-Good s dir n = and-Good s (leaf-Good s (ethertype 0x0800) tt) (
    and-Good _ (or-Good _ (leaf-Good _ (ipproto 6) tt) (leaf-Good _ (ipproto 17) tt))
      (directed-Good _ dir (λ d. port d n) λ _. tt))

host_arg-Good : (t : Token) (s : State) (dir : Option Dir) → IsOkToken t → Good s (host_arg t s dir)
unfolding host_arg
host_arg-Good (tok_ipv4 a) s dir h = host_tree-Good s dir a h
host_arg-Good _ s dir h = refused-Good s host_without_addr

port_arg-Good : (t : Token) (s : State) (dir : Option Dir) → Good s (port_arg t s dir)
unfolding port_arg
port_arg-Good (tok_number n) s dir =
    if_elim (Good s) (ltb 65535 n) (λ _. refused-Good s bad_port) λ _. port_tree-Good s dir n
port_arg-Good _ s dir = refused-Good s bad_port

prefix_arg-Good :
    (t : Token) (s : State) (dir : Option Dir) (a : Addr)
    → IsOctets a
    → Good s (prefix_arg t s dir a)
unfolding prefix_arg
prefix_arg-Good (tok_number n) s dir a h =
    if_elim (Good s) (ltb 32 n) (λ _. refused-Good s bad_prefix_len)
      λ e. net_tree-Good s dir a n h (ltb→le 32 n e)
prefix_arg-Good _ s dir a h = refused-Good s bad_prefix_len

slash_arg-Good :
    (t : Token) (s : State) (dir : Option Dir) (a : Addr)
    → IsOctets a
    → Good s (slash_arg t s dir a)
unfolding slash_arg
slash_arg-Good tok_slash s dir a h =
    Good-after (Step-advance s) (prefix_arg-Good (p_peek s) (p_advance s) dir a h)
slash_arg-Good _ s dir a h = refused-Good s net_without_slash

net_arg-Good : (t : Token) (s : State) (dir : Option Dir) → IsOkToken t → Good s (net_arg t s dir)
unfolding net_arg
net_arg-Good (tok_ipv4 a) s dir h =
    Good-after (Step-advance s) (slash_arg-Good (p_peek s) (p_advance s) dir a h)
net_arg-Good _ s dir h = refused-Good s net_without_addr

peek-ok : (s : State) → All IsOkToken s.rest → IsOkToken (p_peek s)
unfolding p_peek
peek-ok s h = head_token-ok s.rest h

module _ (s : State) (ok : All IsOkToken s.rest) where
  parse_host-Good : (dir : Option Dir) → Good s (parse_host s dir)
  unfolding parse_host
  parse_host-Good dir =
      Good-after (Step-advance s) (host_arg-Good (p_peek s) (p_advance s) dir (peek-ok s ok))

  parse_port-Good : (dir : Option Dir) → Good s (parse_port s dir)
  unfolding parse_port
  parse_port-Good dir = Good-after (Step-advance s) (port_arg-Good (p_peek s) (p_advance s) dir)

  parse_net-Good : (dir : Option Dir) → Good s (parse_net s dir)
  unfolding parse_net
  parse_net-Good dir =
      Good-after (Step-advance s) (net_arg-Good (p_peek s) (p_advance s) dir (peek-ok s ok))

module _ (s : State) (ok : All IsOkToken s.rest) where
  pub next_ok : All IsOkToken (p_advance s).rest
  next_ok = (Step-advance s).tokens_ok ok

  directed_kind-Good : (t : Token) (dir : Dir) → Good s (directed_kind t s dir)
  unfolding directed_kind
  directed_kind-Good tok_host dir =
      Good-after (Step-advance s) (parse_host-Good _ next_ok (some dir))
  directed_kind-Good tok_port dir =
      Good-after (Step-advance s) (parse_port-Good _ next_ok (some dir))
  directed_kind-Good tok_net dir = Good-after (Step-advance s) (parse_net-Good _ next_ok (some dir))
  directed_kind-Good _ dir = refused-Good s dir_without_kind

  undirected_kind-Good : (t : Token) → Good s (undirected_kind t s)
  unfolding undirected_kind
  undirected_kind-Good tok_proto_tcp = Good-after (Step-advance s) (mk_l4_proto-Good _ 6)
  undirected_kind-Good tok_proto_udp = Good-after (Step-advance s) (mk_l4_proto-Good _ 17)
  undirected_kind-Good tok_proto_icmp = Good-after (Step-advance s) (mk_l4_proto-Good _ 1)
  undirected_kind-Good tok_proto_ip =
      Good-after (Step-advance s) (leaf-Good _ (ethertype 0x0800) tt)
  undirected_kind-Good tok_proto_ip6 =
      Good-after (Step-advance s) (leaf-Good _ (ethertype 0x86DD) tt)
  undirected_kind-Good tok_proto_arp =
      Good-after (Step-advance s) (leaf-Good _ (ethertype 0x0806) tt)
  undirected_kind-Good tok_host = Good-after (Step-advance s) (parse_host-Good _ next_ok none)
  undirected_kind-Good tok_port = Good-after (Step-advance s) (parse_port-Good _ next_ok none)
  undirected_kind-Good tok_net = Good-after (Step-advance s) (parse_net-Good _ next_ok none)
  undirected_kind-Good _ = refused-Good s no_primitive

pub primitive-Good : (t : Token) (s : State) → All IsOkToken s.rest → Good s (primitive t s)
unfolding primitive
primitive-Good tok_src s ok =
    Good-after (Step-advance s) (directed_kind-Good _ (next_ok s ok) (p_peek (p_advance s)) src)
primitive-Good tok_dst s ok =
    Good-after (Step-advance s) (directed_kind-Good _ (next_ok s ok) (p_peek (p_advance s)) dst)
primitive-Good t s ok = undirected_kind-Good s ok t

pub mk_not-Good : (s : State) {p : Parsed} → Good s p → Good s (mk_not p)
unfolding mk_not
mk_not-Good s {p} g = Good-after g.after (mk_node-Good p.1 (not_node p.0) g.whole)

rparen_arg-Good :
    (t : Token) (s : State) {p : Parsed} → Good s p → Good s (rparen_arg t p.0 (p_advance p.1))
unfolding rparen_arg
rparen_arg-Good tok_rparen s {p} g = record {
  after = Step-trans g.after (Step-advance p.1);
  whole = λ h. g.whole (back (Step-advance p.1) h);
}
rparen_arg-Good _ s {p} g =
    Good-after (Step-trans g.after (Step-advance p.1)) (refused-Good (p_advance p.1) no_rparen)

pub close_paren-Good : (s : State) {p : Parsed} → Good s p → Good s (close_paren p)
unfolding close_paren
close_paren-Good s {p} g = rparen_arg-Good (p_peek p.1) s g
