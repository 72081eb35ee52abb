-- ===== src/Disp/Lexer.antt =====
-- The lexer of src/c/dispfilter.c. The expression is the list of its bytes, its end the NUL.
pub mod Safety
use my_wireshark.Base.{
  ℕ, zero, suc, ◌+◌, Bool, true, false, ◌&&◌, ◌||◌, List, [], ◌∷◌, ◌++◌, Option, none, some, ltb,
  leb, ◌==◌, if◌then◌else◌, length,
}
use my_wireshark.Base.Text.{codes, is_space, is_digit, is_letter, same_bytes, span, strtoul}
use my_wireshark.Cap.Lexer.{next_is, skip_one}
use my_wireshark.Disp.Node.{
  Error, too_many_tokens, invalid_mac_or_ipv6, invalid_number_or_ipv4, number_out_of_range,
  unknown_keyword, unexpected_character, Field, field_eth_src, field_eth_dst, field_eth_addr,
  field_ip_src, field_ip_dst, field_ip_addr, field_ipv6_src, field_ipv6_dst, field_ipv6_addr,
  field_tcp_srcport, field_tcp_dstport, field_tcp_port, field_udp_srcport, field_udp_dstport,
  field_udp_port,
}
use my_wireshark.Disp.Token.{
  Token, tok_end, tok_lparen, tok_rparen, tok_and, tok_or, tok_not, tok_eq, tok_ne, tok_field,
  tok_number, tok_ipv4, tok_ipv6, tok_mac,
}
use my_wireshark.Disp.Literal.{parse_mac_word, parse_ipv4_word, parse_ipv6_word}

abbrev pub df_max_tokens : ℕ
df_max_tokens = 256

abbrev pub field_words : List (List ℕ × Token)
field_words =
    (codes "and", tok_and)
    ∷ (codes "or", tok_or)
    ∷ (codes "not", tok_not)
    ∷ (codes "eth.src", tok_field field_eth_src)
    ∷ (codes "eth.dst", tok_field field_eth_dst)
    ∷ (codes "eth.addr", tok_field field_eth_addr)
    ∷ (codes "ip.src", tok_field field_ip_src)
    ∷ (codes "ip.dst", tok_field field_ip_dst)
    ∷ (codes "ip.addr", tok_field field_ip_addr)
    ∷ (codes "ipv6.src", tok_field field_ipv6_src)
    ∷ (codes "ipv6.dst", tok_field field_ipv6_dst)
    ∷ (codes "ipv6.addr", tok_field field_ipv6_addr)
    ∷ (codes "tcp.srcport", tok_field field_tcp_srcport)
    ∷ (codes "tcp.dstport", tok_field field_tcp_dstport)
    ∷ (codes "tcp.port", tok_field field_tcp_port)
    ∷ (codes "udp.srcport", tok_field field_udp_srcport)
    ∷ (codes "udp.dstport", tok_field field_udp_dstport)
    ∷ (codes "udp.port", tok_field field_udp_port)
    ∷ []

unfoldable pub find_word : List ℕ → List (List ℕ × Token) → Option Token
unfolding same_bytes
find_word word [] = none
find_word word ((k, t) ∷ table) = if same_bytes k word then some t else find_word word table

-- What the lexer makes of the text at a byte that is not white space.
pub data Scan : Type 0 where
  token : Token → List ℕ → Scan
  refuse : Error → Scan

-- `isalnum` is that of the C locale.
abbrev pub is_word_byte : ℕ → Bool
is_word_byte ch = is_letter ch || is_digit ch || ch == b'_' || ch == b'.' || ch == b':'

abbrev pub has_colon : List ℕ → Bool
has_colon [] = false
has_colon (x ∷ xs) = x == b':' || has_colon xs

abbrev pub all_digits : List ℕ → Bool
all_digits [] = true
all_digits (x ∷ xs) = is_digit x && all_digits xs

abbrev pub starts_digit : List ℕ → Bool
starts_digit [] = false
starts_digit (x ∷ xs) = is_digit x

unfoldable pub scan_colons : List ℕ → List ℕ → Scan
unfolding parse_mac_word parse_ipv6_word
scan_colons word rest = elim (parse_mac_word word) [
  | some m ↦ token (tok_mac m) rest
  | none ↦ elim (parse_ipv6_word word) [
    | some a ↦ token (tok_ipv6 a) rest
    | none ↦ refuse invalid_mac_or_ipv6
  ]
]

unfoldable pub scan_digits : List ℕ → List ℕ → Scan
unfolding parse_ipv4_word strtoul is_digit
scan_digits word rest = elim (parse_ipv4_word word) [
  | some a ↦ token (tok_ipv4 a) rest
  | none ↦
      if all_digits word
      then (if ltb 0xFFFF_FFFF (strtoul word)
          then refuse number_out_of_range
          else token (tok_number (strtoul word)) rest)
      else refuse invalid_number_or_ipv4
]

unfoldable pub scan_name : List ℕ → List ℕ → Scan
unfolding find_word
scan_name word rest = elim (find_word word field_words) [
  | some t ↦ token t rest
  | none ↦ refuse unknown_keyword
]

unfoldable pub scan_word : List ℕ → List ℕ → Scan
unfolding scan_colons scan_digits scan_name is_digit
scan_word word rest =
    if has_colon word
    then scan_colons word rest
    else if starts_digit word
    then scan_digits word rest
    else scan_name word rest

unfoldable pub scan : ℕ → List ℕ → Scan
unfolding scan_word is_digit is_letter span
scan ch rest =
    if ch == b'('
    then token tok_lparen rest
    else if ch == b')'
    then token tok_rparen rest
    else if ch == b'&' && next_is b'&' rest
    then token tok_and (skip_one rest)
    else if ch == b'|' && next_is b'|' rest
    then token tok_or (skip_one rest)
    else if ch == b'=' && next_is b'=' rest
    then token tok_eq (skip_one rest)
    else if ch == b'!' && next_is b'=' rest
    then token tok_ne (skip_one rest)
    else if ch == b'!'
    then token tok_not rest
    else if is_word_byte ch
    then (let (word, rest') = span is_word_byte (ch ∷ rest) in scan_word word rest')
    else refuse unexpected_character

-- The array of tokens after `df_lex`. `overrun` is the write of TOK_END past its last element.
pub data Lexed : Type 0 where
  tokens : List Token → Lexed
  lex_failed : Error → Lexed
  overrun out_of_fuel : Lexed

-- The write of TOK_END, which the loop's test of `n_toks` does not guard.
unfoldable pub put_end : List Token → Lexed
put_end toks = if leb df_max_tokens (length toks) then overrun else tokens (toks ++ tok_end ∷ [])

-- The loop of `df_lex`, a unit of fuel for each round; `toks` are the tokens written so far.
unfoldable pub lex_loop : ℕ → List Token → List ℕ → Lexed
unfolding put_end
lex_loop zero toks expr = out_of_fuel
lex_loop (suc fuel) toks [] = put_end toks
lex_loop (suc fuel) toks (ch ∷ rest) = elim (is_space ch) [
  | true ↦ lex_loop fuel toks rest
  | false ↦ elim (leb df_max_tokens (length toks)) [
    | true ↦ lex_failed too_many_tokens
    | false ↦ elim (scan ch rest) [
      | token t rest' ↦ lex_loop fuel (toks ++ t ∷ []) rest'
      | refuse e ↦ lex_failed e
    ]
  ]
]

unfoldable pub df_lex : List ℕ → Lexed
unfolding lex_loop scan is_space
df_lex expr = lex_loop (length expr + 1) [] expr
