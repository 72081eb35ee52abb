-- ===== src/Cap/Lexer.antt =====
-- The lexer of src/c/capfilter.c. The expression is the list of its bytes, its end the NUL.
pub mod Safety
use my_wireshark.Base.{
  ℕ, zero, suc, ◌+◌, ◌-◌, ◌*◌, ◌%◌, Bool, true, false, not, ◌&&◌, ◌||◌, List, [], ◌∷◌, ◌++◌, Option,
  none, some, ltb, leb, ◌==◌, if◌then◌else◌, length,
}
use my_wireshark.Base.Text.{codes, is_space, is_digit, is_letter, same_bytes, span, strtoul}
use my_wireshark.Cap.Node.{
  Error, too_many_tokens, invalid_ipv4, number_out_of_range, unknown_keyword, unexpected_character,
  Addr,
}
use my_wireshark.Cap.Token.{
  Token, tok_end, tok_lparen, tok_rparen, tok_slash, tok_and, tok_or, tok_not, tok_src, tok_dst,
  tok_host, tok_port, tok_net, tok_proto_tcp, tok_proto_udp, tok_proto_icmp, tok_proto_ip,
  tok_proto_ip6, tok_proto_arp, tok_number, tok_ipv4,
}

abbrev pub max_tokens : ℕ
max_tokens = 256

abbrev pub keywords : List (List ℕ × Token)
keywords =
    (codes "and", tok_and)
    ∷ (codes "or", tok_or)
    ∷ (codes "not", tok_not)
    ∷ (codes "src", tok_src)
    ∷ (codes "dst", tok_dst)
    ∷ (codes "host", tok_host)
    ∷ (codes "port", tok_port)
    ∷ (codes "net", tok_net)
    ∷ (codes "tcp", tok_proto_tcp)
    ∷ (codes "udp", tok_proto_udp)
    ∷ (codes "icmp", tok_proto_icmp)
    ∷ (codes "ip", tok_proto_ip)
    ∷ (codes "ip6", tok_proto_ip6)
    ∷ (codes "arp", tok_proto_arp)
    ∷ []

unfoldable pub find_keyword : List ℕ → List (List ℕ × Token) → Option Token
find_keyword word [] = none
find_keyword word ((k, t) ∷ table) = if same_bytes k word then some t else find_keyword word table

-- `octet == 4` at the end of the word.
abbrev pub four_octets : List ℕ → Option Addr
four_octets (a ∷ b ∷ c ∷ d ∷ []) = some (record { b0 = a; b1 = b; b2 = c; b3 = d })
four_octets _ = none

-- `value < 0 ? 0 : value`
abbrev pub digits_value : Option ℕ → ℕ
digits_value none = 0
digits_value (some n) = n

-- The loop of `parse_ipv4_word` over the word and its virtual trailing dot: the octets written so
-- far, the value (`none` is -1) and the number of digits.
unfoldable pub ipv4_loop : List ℕ → List ℕ → Option ℕ → ℕ → Option Addr
ipv4_loop [] out value digits = four_octets out
ipv4_loop (ch ∷ rest) out value digits =
    let v = digits_value value in
    let after_dot = ipv4_loop rest (out ++ (v % 256) ∷ []) none 0 in
    let value' = v * 10 + (ch - b'0') in
    let after_digit = ipv4_loop rest out (some value') (digits + 1) in
    if ch == b'.'
    then (if digits == 0 || ltb 255 v || ltb 3 (length out) then none else after_dot)
    else if is_digit ch
    then (if ltb 255 value' then none else after_digit)
    else none

unfoldable pub parse_ipv4_word : List ℕ → Option Addr
unfolding ipv4_loop
parse_ipv4_word word = ipv4_loop (word ++ b'.' ∷ []) [] none 0

-- What the lexer makes of the text at a byte that is not white space.
pub data Scan : Type 0 where
  token : Token → List ℕ → Scan
  refuse : Error → Scan

abbrev pub is_number_char : ℕ → Bool
is_number_char ch = is_digit ch || ch == b'.'

abbrev pub is_word_char : ℕ → Bool
is_word_char ch = is_letter ch || is_digit ch || ch == b'_'

abbrev pub has_dot : List ℕ → Bool
has_dot [] = false
has_dot (x ∷ xs) = x == b'.' || has_dot xs

unfoldable pub scan_number : List ℕ → List ℕ → Scan
unfolding parse_ipv4_word strtoul
scan_number word rest = elim (parse_ipv4_word word) [
  | some addr ↦ token (tok_ipv4 addr) rest
  | none ↦
      if has_dot word
      then refuse invalid_ipv4
      else if ltb 0xFFFF_FFFF (strtoul word)
      then refuse number_out_of_range
      else token (tok_number (strtoul word)) rest
]

unfoldable pub scan_keyword : List ℕ → List ℕ → Scan
unfolding find_keyword
scan_keyword word rest = elim (find_keyword word keywords) [
  | some t ↦ token t rest
  | none ↦ refuse unknown_keyword
]

abbrev pub next_is : ℕ → List ℕ → Bool
next_is ch [] = false
next_is ch (x ∷ xs) = x == ch

abbrev pub skip_one : List ℕ → List ℕ
skip_one [] = []
skip_one (x ∷ xs) = xs

unfoldable pub scan : ℕ → List ℕ → Scan
unfolding scan_number scan_keyword is_digit is_letter span
scan ch rest =
    if ch == b'('
    then token tok_lparen rest
    else if ch == b')'
    then token tok_rparen rest
    else if ch == b'/'
    then token tok_slash rest
    else if ch == b'!'
    then token tok_not rest
    else if ch == b'&' && next_is b'&' rest
    then token tok_and (skip_one rest)
    else if ch == b'|' && next_is b'|' rest
    then token tok_or (skip_one rest)
    else if is_digit ch
    then (let (word, rest') = span is_number_char (ch ∷ rest) in scan_number word rest')
    else if is_letter ch
    then (let (word, rest') = span is_word_char (ch ∷ rest) in scan_keyword word rest')
    else refuse unexpected_character

-- The array of tokens after `cf_lex`. `overrun` is the write of TOK_END past its last element.
pub data Lexed : Type 0 where
  tokens : List Token → Lexed
  lex_failed : Error → Lexed
  overrun out_of_fuel : Lexed

-- The write of TOK_END, which the loop's test of `n_toks` does not guard.
unfoldable pub put_end : List Token → Lexed
put_end toks = if leb max_tokens (length toks) then overrun else tokens (toks ++ tok_end ∷ [])

-- The loop of `cf_lex`, a unit of fuel for each round; `toks` are the tokens written so far.
unfoldable pub lex_loop : ℕ → List Token → List ℕ → Lexed
unfolding put_end
lex_loop zero toks expr = out_of_fuel
lex_loop (suc fuel) toks [] = put_end toks
lex_loop (suc fuel) toks (ch ∷ rest) = elim (is_space ch) [
  | true ↦ lex_loop fuel toks rest
  | false ↦ elim (leb max_tokens (length toks)) [
    | true ↦ lex_failed too_many_tokens
    | false ↦ elim (scan ch rest) [
      | token t rest' ↦ lex_loop fuel (toks ++ t ∷ []) rest'
      | refuse e ↦ lex_failed e
    ]
  ]
]

unfoldable pub cf_lex : List ℕ → Lexed
unfolding lex_loop scan is_space
cf_lex expr = lex_loop (length expr + 1) [] expr
