-- ===== src/Disp/Lexer/Safety.antt =====
-- What the lexer of src/c/dispfilter.c can return: its fuel suffices, its literals have their
-- lengths, and the array of tokens is overrun only by an expression of as many bytes as it has
-- elements.
use my_wireshark.Base.{
  ◌⊎◌, inl, inr, refl, ℕ, zero, suc, ◌+◌, ◌^◌, ◌≤◌, ◌<◌, ◌≡◌, Bool, true, false, ◌&&◌, List, [],
  ◌∷◌, ◌++◌, Option, none, some, arith, ltb, leb, ◌==◌, if◌then◌else◌, length, All, All-snoc,
  length-append, if_elim, ltb→le, leb→le, leb→lt,
}
use my_wireshark.Base.Text.{is_space, span, strtoul, same_bytes, length-span_cons}
use my_wireshark.Cap.Lexer.{next_is}
use my_wireshark.Cap.Lexer.Safety.{length-skip_one, IsParen}
use my_wireshark.Disp.Node.{
  too_many_tokens, invalid_mac_or_ipv6, invalid_number_or_ipv4, number_out_of_range,
  unknown_keyword,
}
use my_wireshark.Disp.Token.{Token, tok_end, tok_lparen, tok_number, tok_ipv4, tok_ipv6, tok_mac}
use my_wireshark.Disp.Literal.{parse_mac_word, parse_ipv4_word, parse_ipv6_word}
use my_wireshark.Disp.Literal.Bounds.{
  HasLength, parse_mac_word-length, parse_ipv4_word-length, parse_ipv6_word-length,
}
use my_wireshark.Disp.Lexer.{
  df_max_tokens, field_words, find_word, Scan, token, refuse, is_word_byte, has_colon, all_digits,
  starts_digit, scan_colons, scan_digits, scan_name, scan_word, scan, Lexed, tokens, lex_failed,
  overrun, out_of_fuel, put_end, lex_loop, df_lex,
}

-- Addresses have the bytes of their arrays, and numbers fit `uint32_t`.
abbrev pub IsOkToken : Token → Type 0
IsOkToken (tok_number n) = n < 2 ^ 32
IsOkToken (tok_ipv4 a) = length a ≡ 4
IsOkToken (tok_ipv6 a) = length a ≡ 16
IsOkToken (tok_mac m) = length m ≡ 6
IsOkToken _ = Unit

-- A token found is well formed, and at least the first byte is consumed.
abbrev ScanOk : List ℕ → Scan → Type 0
ScanOk rest (token t rest') = IsOkToken t × (length rest' ≤ length rest)
ScanOk rest (refuse e) = Unit

module _ (rest word rest' : List ℕ) (h : length rest' ≤ length rest) where
  scan_colons-ScanOk : ScanOk rest (scan_colons word rest')
  unfolding scan_colons
  scan_colons-ScanOk =
      go (parse_mac_word word) (parse_ipv6_word word) (parse_mac_word-length word)
        (parse_ipv6_word-length word)
    where
      go :
          (m a : Option (List ℕ))
          → HasLength (λ n. n ≡ 6) m
          → HasLength (λ n. n ≡ 16) a
          → ScanOk rest (elim m [
            | some x ↦ token (tok_mac x) rest'
            | none ↦ elim a [
              | some x ↦ token (tok_ipv6 x) rest'
              | none ↦ refuse invalid_mac_or_ipv6
            ]
          ])
      go (some m) a p q = (p, h)
      go none (some a) p q = (q, h)
      go none none p q = tt

  scan_digits-ScanOk : ScanOk rest (scan_digits word rest')
  unfolding scan_digits
  scan_digits-ScanOk = go (parse_ipv4_word word) (parse_ipv4_word-length word)
    where
      go :
          (a : Option (List ℕ))
          → HasLength (λ n. n ≡ 4) a
          → ScanOk rest (elim a [
            | some x ↦ token (tok_ipv4 x) rest'
            | none ↦
                if all_digits word
                then (if ltb 0xFFFF_FFFF (strtoul word)
                    then refuse number_out_of_range
                    else token (tok_number (strtoul word)) rest')
                else refuse invalid_number_or_ipv4
          ])
      go (some a) p = (p, h)
      go none p =
          if_elim (ScanOk rest) (all_digits word)
            (λ _.
              if_elim (ScanOk rest) (ltb 0xFFFF_FFFF (strtoul word)) (λ _. tt)
                λ e. (omega (arith, ltb→le 0xFFFF_FFFF (strtoul word) e), h))
            λ _. tt

  find_word-ScanOk :
      (table : List (List ℕ × Token))
      → All (λ (e : List ℕ × Token). IsOkToken e.1) table
      → ScanOk rest
          (elim (find_word word table) [ some t ↦ token t rest' | none ↦ refuse unknown_keyword ])
  unfolding find_word
  find_word-ScanOk [] ok = tt
  find_word-ScanOk ((k, t) ∷ table) (p, ok) =
      if_elim
        (λ (o : Option Token).
          ScanOk rest (elim o [ some t ↦ token t rest' | none ↦ refuse unknown_keyword ]))
        (same_bytes k word) (λ _. (p, h)) λ _. find_word-ScanOk table ok

  field_words-ok : All (λ (e : List ℕ × Token). IsOkToken e.1) field_words
  field_words-ok = omega arith

  scan_name-ScanOk : ScanOk rest (scan_name word rest')
  unfolding scan_name
  scan_name-ScanOk = find_word-ScanOk field_words field_words-ok

  scan_word-ScanOk : ScanOk rest (scan_word word rest')
  unfolding scan_word
  scan_word-ScanOk =
      if_elim (ScanOk rest) (has_colon word) (λ _. scan_colons-ScanOk)
        λ _.
          if_elim (ScanOk rest) (starts_digit word) (λ _. scan_digits-ScanOk) λ _. scan_name-ScanOk

scan-ScanOk : (ch : ℕ) (rest : List ℕ) → ScanOk rest (scan ch rest)
unfolding scan
scan-ScanOk ch rest =
    let P = ScanOk rest in
    let two = length-skip_one rest in
    if_elim P (ch == b'(') (λ _. (tt, omega arith))
      λ _.
        if_elim P (ch == b')') (λ _. (tt, omega arith))
          λ _.
            if_elim P (ch == b'&' && next_is b'&' rest) (λ _. (tt, two))
              λ _.
                if_elim P (ch == b'|' && next_is b'|' rest) (λ _. (tt, two))
                  λ _.
                    if_elim P (ch == b'=' && next_is b'=' rest) (λ _. (tt, two))
                      λ _.
                        if_elim P (ch == b'!' && next_is b'=' rest) (λ _. (tt, two))
                          λ _.
                            if_elim P (ch == b'!') (λ _. (tt, omega arith))
                              λ _.
                                if_elim P (is_word_byte ch)
                                  (λ e.
                                    scan_word-ScanOk rest (span is_word_byte (ch ∷ rest)).0
                                      (span is_word_byte (ch ∷ rest)).1
                                      (length-span_cons is_word_byte ch rest e))
                                  λ _. tt

-- What the rest of the lexer does from `toks` and `expr`.
-- A TOK_END is among the tokens.
abbrev pub HasEnd : List Token → Type 0
HasEnd [] = ⊥
HasEnd (t ∷ ts) = (t ≡ tok_end) ⊎ HasEnd ts

HasEnd-put : (toks : List Token) → HasEnd (toks ++ tok_end ∷ [])
HasEnd-put [] = inl refl
HasEnd-put (t ∷ toks) = inr (HasEnd-put toks)

abbrev pub LexOk : List Token → List ℕ → Lexed → Type 0
LexOk toks expr (tokens ts) =
    All IsOkToken ts
    × (length ts ≤ df_max_tokens)
    × (length ts ≤ length toks + length expr + 1)
    × HasEnd ts
LexOk toks expr (lex_failed e) = Unit
LexOk toks expr overrun = df_max_tokens ≤ length toks + length expr
LexOk toks expr out_of_fuel = ⊥

LexOk-weaken :
    (toks toks' : List Token) (expr expr' : List ℕ) (r : Lexed)
    → length toks + length expr ≤ length toks' + length expr'
    → LexOk toks expr r
    → LexOk toks' expr' r
LexOk-weaken toks toks' expr expr' (tokens ts) h (a, b, c, d) = (a, b, omega arith, d)
LexOk-weaken toks toks' expr expr' (lex_failed e) h p = tt
LexOk-weaken toks toks' expr expr' overrun h p = omega arith
LexOk-weaken toks toks' expr expr' out_of_fuel h p = p

put_end-LexOk : (toks : List Token) → All IsOkToken toks → LexOk toks [] (put_end toks)
unfolding put_end
put_end-LexOk toks h =
    if_elim (LexOk toks []) (leb df_max_tokens (length toks))
      (λ e. omega (arith, leb→le df_max_tokens (length toks) e))
      λ e. (
        All-snoc IsOkToken toks tok_end h tt,
        omega (arith, leb→lt df_max_tokens (length toks) e, length-append toks (tok_end ∷ [])),
        omega (arith, length-append toks (tok_end ∷ [])),
        HasEnd-put toks,
      )

lex_loop-LexOk :
    (fuel : ℕ) (toks : List Token) (expr : List ℕ)
    → length expr < fuel
    → All IsOkToken toks
    → LexOk toks expr (lex_loop fuel toks expr)
unfolding lex_loop
lex_loop-LexOk zero toks expr h ok = absurd (omega arith)
lex_loop-LexOk (suc fuel) toks [] h ok = put_end-LexOk toks ok
lex_loop-LexOk (suc fuel) toks (ch ∷ rest) h ok =
    go (is_space ch) (leb df_max_tokens (length toks)) (scan ch rest) (scan-ScanOk ch rest)
      (lex_loop-LexOk fuel toks rest (omega arith) ok)
      λ t rest' k.
        lex_loop-LexOk fuel (toks ++ t ∷ []) rest' (omega (arith, k.1))
          (All-snoc IsOkToken toks t ok k.0)
  where
    go :
        (space full : Bool) (r : Scan)
        → ScanOk rest r
        → LexOk toks rest (lex_loop fuel toks rest)
        → ((t : Token) (rest' : List ℕ)
            → ScanOk rest (token t rest')
            → LexOk (toks ++ t ∷ []) rest' (lex_loop fuel (toks ++ t ∷ []) rest'))
        → LexOk toks (ch ∷ rest) (elim space [
          | true ↦ lex_loop fuel toks rest
          | false ↦ elim full [
            | true ↦ lex_failed too_many_tokens
            | false ↦ elim r [
              | token t rest' ↦ lex_loop fuel (toks ++ t ∷ []) rest'
              | refuse e ↦ lex_failed e
            ]
          ]
        ])
    go true full r k again later = LexOk-weaken toks toks rest (ch ∷ rest) _ (omega arith) again
    go false true r k again later = tt
    go false false (token t rest') k again later =
        LexOk-weaken (toks ++ t ∷ []) toks rest' (ch ∷ rest) _
          (omega (arith, length-append toks (t ∷ []), k.1)) (later t rest' k)
    go false false (refuse e) k again later = tt

-- `df_lex` ends on every expression, as follows. On success the tokens fit the array and have TOK_END, MAC, IPv4 and
-- IPv6 literals have 6, 4 and 16 bytes, and numbers fit 32 bits. The array is overrun only by an
-- expression of at least 256 bytes.
pub df_lex-LexOk : (expr : List ℕ) → LexOk [] expr (df_lex expr)
unfolding df_lex
df_lex-LexOk expr = lex_loop-LexOk (length expr + 1) [] expr (omega arith) tt

lex_loop-parens :
    (expr : List ℕ) (fuel : ℕ) (toks : List Token)
    → length expr < fuel
    → All IsParen expr
    → length toks + length expr ≡ df_max_tokens
    → lex_loop fuel toks expr ≡ overrun
unfolding lex_loop put_end is_space scan
lex_loop-parens expr zero toks h ps e = absurd (omega arith)
lex_loop-parens [] (suc fuel) toks h ps e = ground arith
lex_loop-parens (ch ∷ rest) (suc fuel) toks h (p, ps) e = ground (
  arith,
  lex_loop-parens rest fuel (toks ++ tok_lparen ∷ []) (omega arith) ps
      (omega (arith, length-append toks (tok_lparen ∷ []))),
)

-- An expression of 256 opening parentheses makes `df_lex` write TOK_END outside its array.
pub df_lex-overrun :
    (expr : List ℕ) → All IsParen expr → length expr ≡ df_max_tokens → df_lex expr ≡ overrun
unfolding df_lex
df_lex-overrun expr ps e = lex_loop-parens expr (length expr + 1) [] (omega arith) ps (omega arith)
