-- ===== src/Cap/Parser.antt =====
-- The recursive-descent parser of src/c/capfilter.c. A call returns the node and the new state;
-- `none` is fuel that ran out, which the program has no counterpart of.
pub mod Steps
pub mod Leaves
pub mod Sound
use my_wireshark.Base.{
  ◌>>=◌, ℕ, zero, suc, ◌+◌, ◌*◌, Bool, true, false, List, [], ◌∷◌, Option, none, some, ltb, leb,
  if◌then◌else◌, length,
}
use my_wireshark.Cap.Node.{
  Error, too_complex, dir_without_kind, host_without_addr, bad_port, net_without_addr,
  net_without_slash, bad_prefix_len, no_primitive, no_rparen, Dir, src, dst, Addr, Node, null,
  and_node, or_node, not_node, ethertype, ipproto, host, port, net,
}
use my_wireshark.Cap.Token.{
  Token, tok_end, tok_lparen, tok_rparen, tok_slash, tok_and, tok_or, tok_not, tok_src, tok_dst,
  tok_host, tok_port, tok_net, tok_proto_tcp, tok_proto_udp, tok_proto_icmp, tok_proto_ip,
  tok_proto_ip6, tok_proto_arp, tok_number, tok_ipv4,
}

abbrev pub max_nodes : ℕ
max_nodes = 256

-- `cf_ctx_t` and `node_arena_t`: the tokens from `pos` on, the first error, the nodes in use.
pub record State : Type 0 where
  pub rest : List Token
  pub failed : Option Error
  pub count : ℕ

-- Past the tokens that were written the array holds zeros, and TOK_END is 0.
unfoldable pub head_token : List Token → Token
head_token [] = tok_end
head_token (t ∷ ts) = t

unfoldable pub p_peek : State → Token
unfolding head_token
p_peek s = head_token s.rest

unfoldable pub drop_token : List Token → List Token
drop_token [] = []
drop_token (tok_end ∷ ts) = tok_end ∷ ts
drop_token (t ∷ ts) = ts

-- The token it returns is `p_peek` of the state before.
unfoldable pub p_advance : State → State
unfolding drop_token
p_advance s = record s { rest = drop_token s.rest }

abbrev pub first_error : Option Error → Error → Option Error
first_error none e = some e
first_error (some e') e = some e'

-- The first error is kept.
unfoldable pub cf_fail : State → Error → State
cf_fail s e = record s { failed = first_error s.failed e }

abbrev pub Parsed : Type 0
Parsed = Node × State

-- `kind` is the node with its fields filled in, as the callers of `mk_node` do.
unfoldable pub mk_node : State → Node → Parsed
unfolding cf_fail
mk_node s kind = elim s.failed [
  | some e ↦ (null, s)
  | none ↦
      if leb max_nodes s.count
      then (null, cf_fail s too_complex)
      else (kind, record s { count = s.count + 1 })
]

unfoldable pub mk_and : State → Node → Node → Parsed
unfolding mk_node
mk_and s l r = mk_node s (and_node l r)

unfoldable pub mk_or : State → Node → Node → Parsed
unfolding mk_node
mk_or s l r = mk_node s (or_node l r)

-- Arguments of a call are made from left to right.
unfoldable pub mk_l4_proto : State → ℕ → Parsed
unfolding mk_node mk_and
mk_l4_proto s ip_proto =
    let (eth, s₁) = mk_node s (ethertype 0x0800) in
    let (proto, s₂) = mk_node s₁ (ipproto ip_proto) in mk_and s₂ eth proto

-- `has_dir ? leaf(dir) : mk_or(leaf(DIR_SRC), leaf(DIR_DST))`
unfoldable pub mk_directed : State → Option Dir → (Dir → Node) → Parsed
unfolding mk_node mk_or
mk_directed s (some dir) leaf = mk_node s (leaf dir)
mk_directed s none leaf =
    let (l, s₁) = mk_node s (leaf src) in let (r, s₂) = mk_node s₁ (leaf dst) in mk_or s₂ l r

unfoldable pub host_tree : State → Option Dir → Addr → Parsed
unfolding mk_node mk_and mk_directed
host_tree s dir addr =
    let (ip, s₁) = mk_node s (ethertype 0x0800) in
    let (h, s₂) = mk_directed s₁ dir (λ d. host d addr) in mk_and s₂ ip h

unfoldable pub port_tree : State → Option Dir → ℕ → Parsed
unfolding mk_node mk_and mk_or mk_directed
port_tree s dir num =
    let (ip, s₁) = mk_node s (ethertype 0x0800) in
    let (tcp, s₂) = mk_node s₁ (ipproto 6) in
    let (udp, s₃) = mk_node s₂ (ipproto 17) in
    let (either, s₄) = mk_or s₃ tcp udp in
    let (p, s₅) = mk_directed s₄ dir (λ d. port d num) in
    let (both, s₆) = mk_and s₅ either p in mk_and s₆ ip both

unfoldable pub net_tree : State → Option Dir → Addr → ℕ → Parsed
unfolding mk_node mk_and mk_directed
net_tree s dir addr prefix_len =
    let (ip, s₁) = mk_node s (ethertype 0x0800) in
    let (n, s₂) = mk_directed s₁ dir (λ d. net d addr prefix_len) in mk_and s₂ ip n

abbrev pub refused : State → Error → Parsed
refused s e = (null, cf_fail s e)

-- Each of the next functions takes the token that `p_advance` returned, and the state after it.
unfoldable pub host_arg : Token → State → Option Dir → Parsed
unfolding host_tree cf_fail
host_arg (tok_ipv4 addr) s dir = host_tree s dir addr
host_arg _ s dir = refused s host_without_addr

-- `case TOK_HOST`, the keyword consumed.
unfoldable pub parse_host : State → Option Dir → Parsed
unfolding p_peek p_advance host_arg
parse_host s dir = host_arg (p_peek s) (p_advance s) dir

unfoldable pub port_arg : Token → State → Option Dir → Parsed
unfolding port_tree cf_fail
port_arg (tok_number num) s dir = if ltb 65535 num then refused s bad_port else port_tree s dir num
port_arg _ s dir = refused s bad_port

unfoldable pub parse_port : State → Option Dir → Parsed
unfolding p_peek p_advance port_arg
parse_port s dir = port_arg (p_peek s) (p_advance s) dir

unfoldable pub prefix_arg : Token → State → Option Dir → Addr → Parsed
unfolding net_tree cf_fail
prefix_arg (tok_number num) s dir addr =
    if ltb 32 num then refused s bad_prefix_len else net_tree s dir addr num
prefix_arg _ s dir addr = refused s bad_prefix_len

unfoldable pub slash_arg : Token → State → Option Dir → Addr → Parsed
unfolding p_peek p_advance prefix_arg cf_fail
slash_arg tok_slash s dir addr = prefix_arg (p_peek s) (p_advance s) dir addr
slash_arg _ s dir addr = refused s net_without_slash

unfoldable pub net_arg : Token → State → Option Dir → Parsed
unfolding p_peek p_advance slash_arg cf_fail
net_arg (tok_ipv4 addr) s dir = slash_arg (p_peek s) (p_advance s) dir addr
net_arg _ s dir = refused s net_without_addr

unfoldable pub parse_net : State → Option Dir → Parsed
unfolding p_peek p_advance net_arg
parse_net s dir = net_arg (p_peek s) (p_advance s) dir

-- With a direction read, only host, port and net may follow; `t` is `p_peek s`.
unfoldable pub directed_kind : Token → State → Dir → Parsed
unfolding p_advance parse_host parse_port parse_net cf_fail
directed_kind tok_host s dir = parse_host (p_advance s) (some dir)
directed_kind tok_port s dir = parse_port (p_advance s) (some dir)
directed_kind tok_net s dir = parse_net (p_advance s) (some dir)
directed_kind _ s dir = refused s dir_without_kind

unfoldable pub undirected_kind : Token → State → Parsed
unfolding p_advance mk_l4_proto mk_node parse_host parse_port parse_net cf_fail
undirected_kind tok_proto_tcp s = mk_l4_proto (p_advance s) 6
undirected_kind tok_proto_udp s = mk_l4_proto (p_advance s) 17
undirected_kind tok_proto_icmp s = mk_l4_proto (p_advance s) 1
undirected_kind tok_proto_ip s = mk_node (p_advance s) (ethertype 0x0800)
undirected_kind tok_proto_ip6 s = mk_node (p_advance s) (ethertype 0x86DD)
undirected_kind tok_proto_arp s = mk_node (p_advance s) (ethertype 0x0806)
undirected_kind tok_host s = parse_host (p_advance s) none
undirected_kind tok_port s = parse_port (p_advance s) none
undirected_kind tok_net s = parse_net (p_advance s) none
undirected_kind _ s = refused s no_primitive

unfoldable pub primitive : Token → State → Parsed
unfolding p_peek p_advance directed_kind undirected_kind
primitive tok_src s = let s₁ = p_advance s in directed_kind (p_peek s₁) s₁ src
primitive tok_dst s = let s₁ = p_advance s in directed_kind (p_peek s₁) s₁ dst
primitive t s = undirected_kind t s

unfoldable pub parse_primitive : State → Parsed
unfolding p_peek primitive
parse_primitive s = primitive (p_peek s) s

unfoldable pub mk_not : Parsed → Parsed
unfolding mk_node
mk_not (operand, s) = mk_node s (not_node operand)

unfoldable pub rparen_arg : Token → Node → State → Parsed
unfolding cf_fail
rparen_arg tok_rparen inner s = (inner, s)
rparen_arg _ inner s = refused s no_rparen

unfoldable pub close_paren : Parsed → Parsed
unfolding p_peek p_advance rparen_arg
close_paren (inner, s) = rparen_arg (p_peek s) inner (p_advance s)

abbrev pub is_not : Token → Bool
is_not tok_not = true
is_not _ = false

abbrev pub is_lparen : Token → Bool
is_lparen tok_lparen = true
is_lparen _ = false

abbrev pub is_and : Token → Bool
is_and tok_and = true
is_and _ = false

abbrev pub is_or : Token → Bool
is_or tok_or = true
is_or _ = false

-- Each call costs a unit of fuel; the loops are calls of their own.
unfoldable mutual
  unfolding p_peek p_advance parse_primitive mk_not close_paren mk_and mk_or

  pub parse_not : ℕ → State → Option Parsed
  parse_not zero s = none
  parse_not (suc f) s =
      let negated = parse_not f (p_advance s) >>= λ p. some (mk_not p) in
      let grouped = parse_expr f (p_advance s) >>= λ p. some (close_paren p) in
      if is_not (p_peek s)
      then negated
      else if is_lparen (p_peek s)
      then grouped
      else some (parse_primitive s)

  pub parse_and : ℕ → State → Option Parsed
  parse_and zero s = none
  parse_and (suc f) s = parse_not f s >>= λ p. and_loop f p

  pub and_loop : ℕ → Parsed → Option Parsed
  and_loop zero p = none
  and_loop (suc f) (left, s) =
      let more = parse_not f (p_advance s) >>= λ (right, s₁). and_loop f (mk_and s₁ left right) in
      if is_and (p_peek s) then more else some (left, s)

  pub parse_expr : ℕ → State → Option Parsed
  parse_expr zero s = none
  parse_expr (suc f) s = parse_and f s >>= λ p. or_loop f p

  pub or_loop : ℕ → Parsed → Option Parsed
  or_loop zero p = none
  or_loop (suc f) (left, s) =
      let more = parse_and f (p_advance s) >>= λ (right, s₁). or_loop f (mk_or s₁ left right) in
      if is_or (p_peek s) then more else some (left, s)

abbrev pub parser : List Token → State
parser toks = record { rest = toks; failed = none; count = 0 }

-- Fuel for the whole of a token list.
abbrev pub parse_fuel : List Token → ℕ
parse_fuel toks = 4 * length toks + 3
