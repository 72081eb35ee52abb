-- ===== src/Cap/Token.antt =====
-- The tokens of src/c/capfilter.c.
use my_wireshark.Base.{ℕ}
use my_wireshark.Cap.Node.{Addr}

pub data Token : Type 0 where
  tok_end tok_lparen tok_rparen tok_slash tok_and tok_or tok_not : Token
  tok_src tok_dst tok_host tok_port tok_net : Token
  tok_proto_tcp tok_proto_udp tok_proto_icmp tok_proto_ip tok_proto_ip6 tok_proto_arp : Token
  tok_number : ℕ → Token
  tok_ipv4 : Addr → Token
