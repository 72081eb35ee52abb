-- ===== src/Disp/Tests.antt =====
-- Expressions and packets for src/c/dispfilter.c, and its theorems applied to them.
use my_wireshark.Base.{
  ℕ, ◌≡◌, refl, true, false, List, [], ◌∷◌, ◌++◌, none, some, arith, replicate, All-replicate,
}
use my_wireshark.Base.Text.{codes, same_bytes, strtoul}
use my_wireshark.Cap.Lexer.{parse_ipv4_word}
use my_wireshark.Cap.Lexer.Safety.{IsParen}
use my_wireshark.Disp.Literal.{parse_ipv6_word, parse_sides, parse_hextet_list, split_double}
use my_wireshark.Disp.Node.{
  Node, and_node, or_node, not_node, cmp_node, cmp_eq, cmp_ne, ipv6, mac, port, field_eth_addr,
  field_tcp_port, field_udp_port, field_ipv6_src, no_port,
}
use my_wireshark.Disp.Token.{
  Token, tok_end, tok_lparen, tok_rparen, tok_and, tok_or, tok_not, tok_eq, tok_ne, tok_field,
  tok_number, tok_ipv6, tok_mac,
}
use my_wireshark.Disp.Lexer.{tokens, overrun, df_lex}
use my_wireshark.Disp.Lexer.Safety.{df_lex-overrun}
use my_wireshark.Disp.Parser.{p_peek, parse_expr}
use my_wireshark.Disp.Eval.{Fields, eval_cmp, eval_node, dispfilter_matches}
use my_wireshark.Disp.Eval.Holds.{IsWellTyped, IsFields, Holds}
use my_wireshark.Disp.Eval.Correct.{Evaluates, eval_node-Decides, eval_cmp-absent}
use my_wireshark.Disp.Compile.{filter, error, dispfilter_compile}
use my_wireshark.Disp.Compile.Correct.{
  IsParse, Returns, FitsArrays, parse-IsWellTyped, dispfilter_compile-matches,
  dispfilter_compile-Returns,
}

abbrev text : List ℕ
text = codes "tcp.port == 443 && !(eth.addr == 02:00:00:00:00:01 or ipv6.src != fe80::1)"

abbrev mac_1 : List ℕ
mac_1 = 2 ∷ 0 ∷ 0 ∷ 0 ∷ 0 ∷ 1 ∷ []

abbrev address : List ℕ
address = 0xfe ∷ 0x80 ∷ replicate 13 0 ++ 1 ∷ []

abbrev toks : List Token
toks =
    tok_field field_tcp_port
    ∷ tok_eq
    ∷ tok_number 443
    ∷ tok_and
    ∷ tok_not
    ∷ tok_lparen
    ∷ tok_field field_eth_addr
    ∷ tok_eq
    ∷ tok_mac mac_1
    ∷ tok_or
    ∷ tok_field field_ipv6_src
    ∷ tok_ne
    ∷ tok_ipv6 address
    ∷ tok_rparen
    ∷ tok_end
    ∷ []

abbrev tree : Node
tree = and_node (cmp_node field_tcp_port cmp_eq (port 443)) (
    not_node (
      or_node (cmp_node field_eth_addr cmp_eq (mac mac_1))
        (cmp_node field_ipv6_src cmp_ne (ipv6 address))))

-- A segment to port 443 over IPv6.
abbrev packet : Fields
packet = record {
  eth_src = replicate 6 3;
  eth_dst = replicate 6 4;
  has_ip = false;
  ip_src = replicate 4 0;
  ip_dst = replicate 4 0;
  has_ipv6 = true;
  ipv6_src = address;
  ipv6_dst = replicate 16 9;
  has_tcp = true;
  tcp_src_port = 50000;
  tcp_dst_port = 443;
  has_udp = false;
  udp_src_port = 0;
  udp_dst_port = 0;
}

packet-IsFields : IsFields packet
packet-IsFields = record {
  eth_src_len = refl;
  eth_dst_len = refl;
  ip_src_len = refl;
  ip_dst_len = refl;
  ipv6_src_len = refl;
  ipv6_dst_len = refl;
}

lexes : df_lex text ≡ tokens toks
unfolding df_lex same_bytes parse_ipv4_word parse_ipv6_word parse_sides parse_hextet_list
    split_double
lexes = refl

compiles : dispfilter_compile true (some text) ≡ filter tree
unfolding dispfilter_compile same_bytes parse_ipv4_word parse_ipv6_word parse_sides
    parse_hextet_list split_double
compiles = refl

parse : IsParse text tree
unfolding df_lex same_bytes parse_ipv4_word parse_ipv6_word parse_sides parse_hextet_list
    split_double parse_expr p_peek
parse = record {
  toks = toks;
  state = record { rest = tok_end ∷ []; count = 6; failed = none };
  lexed = refl;
  parsed = refl;
  no_error = refl;
  at_end = refl;
}

tree-IsWellTyped : IsWellTyped tree
tree-IsWellTyped = (omega arith, (refl, refl))

dispfilter_compile-matches_example :
    IsParse text tree × Evaluates (dispfilter_matches (some tree) packet) (Holds tree packet)
dispfilter_compile-matches_example =
    dispfilter_compile-matches b't'
      (codes "cp.port == 443 && !(eth.addr == 02:00:00:00:00:01 or ipv6.src != fe80::1)") packet
      packet-IsFields compiles

matches_packet : dispfilter_matches (some tree) packet ≡ some true
unfolding dispfilter_matches same_bytes
matches_packet = refl

dispfilter_compile-Returns_example :
    Returns (dispfilter_compile true (some text)) × FitsArrays (df_lex text)
dispfilter_compile-Returns_example = dispfilter_compile-Returns true text (omega arith)

parse-IsWellTyped_example : IsWellTyped tree
parse-IsWellTyped_example = parse-IsWellTyped text tree parse

eval_node-Decides_example : Evaluates (eval_node tree packet) (Holds tree packet)
eval_node-Decides_example = eval_node-Decides tree packet tree-IsWellTyped packet-IsFields

eval_cmp-absent_example : eval_cmp field_udp_port cmp_ne (port 53) packet ≡ some true
eval_cmp-absent_example =
    eval_cmp-absent field_udp_port (port 53) packet packet-IsFields (omega arith) refl

df_lex-overrun_example : df_lex (replicate 256 b'(') ≡ overrun
df_lex-overrun_example = df_lex-overrun (replicate 256 b'(') (All-replicate IsParen refl 256) refl

-- A port that does not fit 16 bits is refused.
refuses : dispfilter_compile true (some (codes "tcp.port == 65536")) ≡ error no_port
unfolding dispfilter_compile same_bytes parse_ipv4_word parse_ipv6_word parse_sides
    parse_hextet_list split_double strtoul
refuses = refl
