-- ===== src/Disp/Token.antt =====
-- The tokens of src/c/dispfilter.c.
use my_wireshark.Base.{ℕ, List}
use my_wireshark.Disp.Node.{Field}

pub data Token : Type 0 where
  tok_end tok_lparen tok_rparen tok_and tok_or tok_not tok_eq tok_ne : Token
  tok_field : Field → Token
  tok_number : ℕ → Token
  tok_ipv4 tok_ipv6 tok_mac : List ℕ → Token
