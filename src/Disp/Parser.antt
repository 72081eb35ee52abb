-- ===== src/Disp/Parser.antt =====
-- The recursive-descent parser of src/c/dispfilter.c. A call returns the node and the new state;
-- `none` is fuel that ran out, which the program has no counterpart of.
pub mod Steps
pub mod Leaves
pub mod Sound
use my_wireshark.Base.{
  ◌>>=◌, ℕ, zero, suc, ◌+◌, ◌*◌, Bool, true, false, List, [], ◌∷◌, Option, none, some, ltb, leb,
  if◌then◌else◌, length,
}
use my_wireshark.Disp.Node.{
  Error, too_complex, no_field, no_operator, no_mac, no_ipv4, no_ipv6, no_port, no_rparen, Field,
  field_eth_src, field_eth_dst, field_eth_addr, field_ip_src, field_ip_dst, field_ip_addr,
  field_ipv6_src, field_ipv6_dst, field_ipv6_addr, field_tcp_srcport, field_tcp_dstport,
  field_tcp_port, field_udp_srcport, field_udp_dstport, field_udp_port, Cmp, cmp_eq, cmp_ne, Value,
  port, ipv4, ipv6, mac, Node, null, and_node, or_node, not_node, cmp_node,
}
use my_wireshark.Disp.Token.{
  Token, tok_end, tok_lparen, tok_rparen, tok_and, tok_or, tok_not, tok_eq, tok_ne, tok_field,
  tok_number, tok_ipv4, tok_ipv6, tok_mac,
}

abbrev pub df_max_nodes : ℕ
df_max_nodes = 256

-- `df_ctx_t` and `node_arena_t`: the tokens from `pos` on, the first error, the nodes in use.
pub record State : Type 0 where
  pub rest : List Token
  pub failed : Option Error
  pub count : ℕ

-- Past the tokens that were written the array holds zeros, and TOK_END is 0.
unfoldable pub head_token : List Token → Token
head_token [] = tok_end
head_token (t ∷ ts) = t

unfoldable pub p_peek : State → Token
unfolding head_token
p_peek s = head_token s.rest

unfoldable pub drop_token : List Token → List Token
drop_token [] = []
drop_token (tok_end ∷ ts) = tok_end ∷ ts
drop_token (t ∷ ts) = ts

-- The token it returns is `p_peek` of the state before.
unfoldable pub p_advance : State → State
unfolding drop_token
p_advance s = record s { rest = drop_token s.rest }

-- The first error is kept.
abbrev pub first_error : Option Error → Error → Option Error
first_error none e = some e
first_error (some e') e = some e'

unfoldable pub df_fail : State → Error → State
df_fail s e = record s { failed = first_error s.failed e }

abbrev pub Parsed : Type 0
Parsed = Node × State

abbrev pub refused : State → Error → Parsed
refused s e = (null, df_fail s e)

-- `kind` is the node with its fields filled in, as the callers of `mk_node` do.
unfoldable pub mk_node : State → Node → Parsed
unfolding df_fail
mk_node s kind = elim s.failed [
  | some e ↦ (null, s)
  | none ↦
      if leb df_max_nodes s.count
      then refused s too_complex
      else (kind, record s { count = s.count + 1 })
]

-- The groups of cases of the `switch` on the field.
pub data Kind : Type 0 where
  mac_kind ipv4_kind ipv6_kind port_kind : Kind

abbrev pub kind_of : Field → Kind
kind_of field_eth_src = mac_kind
kind_of field_eth_dst = mac_kind
kind_of field_eth_addr = mac_kind
kind_of field_ip_src = ipv4_kind
kind_of field_ip_dst = ipv4_kind
kind_of field_ip_addr = ipv4_kind
kind_of field_ipv6_src = ipv6_kind
kind_of field_ipv6_dst = ipv6_kind
kind_of field_ipv6_addr = ipv6_kind
kind_of _ = port_kind

-- The member of the union that a case writes, or the error of its check.
pub data Checked : Type 0 where
  fits : Value → Checked
  misfit : Error → Checked

unfoldable pub check_value : Kind → Token → Checked
check_value mac_kind (tok_mac m) = fits (mac m)
check_value mac_kind _ = misfit no_mac
check_value ipv4_kind (tok_ipv4 a) = fits (ipv4 a)
check_value ipv4_kind _ = misfit no_ipv4
check_value ipv6_kind (tok_ipv6 a) = fits (ipv6 a)
check_value ipv6_kind _ = misfit no_ipv6
check_value port_kind (tok_number n) = if ltb 65535 n then misfit no_port else fits (port n)
check_value port_kind _ = misfit no_port

-- What follows `mk_node` in `parse_primitive`, with the node that it gave.
unfoldable pub fill_value : Field → Cmp → Checked → Parsed → Parsed
fill_value field c checked (null, s) = (null, s)
fill_value field c (fits v) (n, s) = (cmp_node field c v, s)
fill_value field c (misfit e) (n, s) = refused s e

-- The new node is zero but for its kind.
unfoldable pub value_arg : Field → Cmp → Token → State → Parsed
unfolding fill_value mk_node check_value
value_arg field c val_tok s =
    fill_value field c (check_value (kind_of field) val_tok) (mk_node s (cmp_node field c (port 0)))

unfoldable pub operator_arg : Field → Token → State → Parsed
unfolding value_arg p_peek p_advance df_fail
operator_arg field tok_eq s = value_arg field cmp_eq (p_peek s) (p_advance s)
operator_arg field tok_ne s = value_arg field cmp_ne (p_peek s) (p_advance s)
operator_arg field _ s = refused s no_operator

unfoldable pub field_arg : Token → State → Parsed
unfolding operator_arg p_peek p_advance df_fail
field_arg (tok_field field) s = operator_arg field (p_peek s) (p_advance s)
field_arg _ s = refused s no_field

unfoldable pub parse_primitive : State → Parsed
unfolding field_arg p_peek p_advance
parse_primitive s = field_arg (p_peek s) (p_advance s)

unfoldable pub mk_not : Parsed → Parsed
unfolding mk_node
mk_not (operand, s) = mk_node s (not_node operand)

unfoldable pub rparen_arg : Token → Node → State → Parsed
unfolding df_fail
rparen_arg tok_rparen inner s = (inner, s)
rparen_arg _ inner s = refused s no_rparen

unfoldable pub close_paren : Parsed → Parsed
unfolding p_peek p_advance rparen_arg
close_paren (inner, s) = rparen_arg (p_peek s) inner (p_advance s)

abbrev pub is_not : Token → Bool
is_not tok_not = true
is_not _ = false

abbrev pub is_lparen : Token → Bool
is_lparen tok_lparen = true
is_lparen _ = false

abbrev pub is_and : Token → Bool
is_and tok_and = true
is_and _ = false

abbrev pub is_or : Token → Bool
is_or tok_or = true
is_or _ = false

-- A loop returns at once when `mk_node` gave no node.
unfoldable pub joined : (Parsed → Option Parsed) → Parsed → Option Parsed
joined again (null, s) = some (null, s)
joined again (n, s) = again (n, s)

-- Each call costs a unit of fuel; the loops are calls of their own.
unfoldable mutual
  unfolding p_peek p_advance parse_primitive mk_not close_paren mk_node joined

  pub parse_not : ℕ → State → Option Parsed
  parse_not zero s = none
  parse_not (suc f) s =
      let negated = parse_not f (p_advance s) >>= λ p. some (mk_not p) in
      let grouped = parse_expr f (p_advance s) >>= λ p. some (close_paren p) in
      if is_not (p_peek s)
      then negated
      else if is_lparen (p_peek s)
      then grouped
      else some (parse_primitive s)

  pub parse_and : ℕ → State → Option Parsed
  parse_and zero s = none
  parse_and (suc f) s = parse_not f s >>= λ p. and_loop f p

  pub and_loop : ℕ → Parsed → Option Parsed
  and_loop zero p = none
  and_loop (suc f) (left, s) =
      let more = parse_not f (p_advance s) >>= λ (right, s₁).
      joined (λ p. and_loop f p) (mk_node s₁ (and_node left right)) in
      if is_and (p_peek s) then more else some (left, s)

  pub parse_expr : ℕ → State → Option Parsed
  parse_expr zero s = none
  parse_expr (suc f) s = parse_and f s >>= λ p. or_loop f p

  pub or_loop : ℕ → Parsed → Option Parsed
  or_loop zero p = none
  or_loop (suc f) (left, s) =
      let more = parse_and f (p_advance s) >>= λ (right, s₁).
      joined (λ p. or_loop f p) (mk_node s₁ (or_node left right)) in
      if is_or (p_peek s) then more else some (left, s)

abbrev pub parser : List Token → State
parser toks = record { rest = toks; failed = none; count = 0 }

-- Fuel for the whole of a token list.
abbrev pub parse_fuel : List Token → ℕ
parse_fuel toks = 4 * length toks + 3
