-- ===== src/Cap/Lexer/Safety.antt =====
-- What the lexer can return: its fuel suffices, its tokens are well formed, and the array of tokens
-- is overrun only by an expression of as many bytes as it has elements.
use my_wireshark.Base.{
  ◌⊎◌, inl, inr, refl, ℕ, zero, suc, ◌+◌, ◌-◌, ◌*◌, ◌%◌, ◌&&◌, ltb→le, leb→le, leb→lt, ◌^◌, ◌≤◌,
  ◌<◌, ◌≡◌, Bool, true, false, ◌||◌, List, [], ◌∷◌, ◌++◌, Option, none, some, arith, ltb, leb, ◌==◌,
  if◌then◌else◌, length, All, All-snoc, length-append, if_elim,
}
use my_wireshark.Base.Text.{
  is_space, is_digit, is_letter, span, strtoul, same_bytes, length-span_cons,
}
use my_wireshark.Cap.Node.{
  Addr, invalid_ipv4, number_out_of_range, unknown_keyword, too_many_tokens,
}
use my_wireshark.Cap.Token.{Token, tok_end, tok_lparen, tok_number, tok_ipv4}
use my_wireshark.Cap.Matches.{IsOctets}
use my_wireshark.Cap.Lexer.{
  max_tokens, keywords, digits_value, has_dot, next_is, skip_one, is_number_char, is_word_char,
  find_keyword, four_octets, ipv4_loop, parse_ipv4_word, Scan, token, refuse, scan_number,
  scan_keyword, scan, Lexed, tokens, lex_failed, overrun, out_of_fuel, put_end, lex_loop, cf_lex,
}

-- Addresses have octets of a byte, and numbers fit `uint32_t`.
abbrev pub IsOkToken : Token → Type 0
IsOkToken (tok_ipv4 a) = IsOctets a
IsOkToken (tok_number n) = n < 2 ^ 32
IsOkToken _ = Unit

abbrev IsOkAddr : Option Addr → Type 0
IsOkAddr none = Unit
IsOkAddr (some a) = IsOctets a

four_octets-IsOkAddr : (out : List ℕ) → All (λ (x : ℕ). x < 256) out → IsOkAddr (four_octets out)
four_octets-IsOkAddr [] h = tt
four_octets-IsOkAddr (a ∷ []) h = tt
four_octets-IsOkAddr (a ∷ b ∷ []) h = tt
four_octets-IsOkAddr (a ∷ b ∷ c ∷ []) h = tt
four_octets-IsOkAddr (a ∷ b ∷ c ∷ d ∷ []) h = (h.0, h.1.0, h.1.1.0, h.1.1.1.0)
four_octets-IsOkAddr (a ∷ b ∷ c ∷ d ∷ e ∷ r) h = tt

ipv4_loop-IsOkAddr :
    (word out : List ℕ) (value : Option ℕ) (digits : ℕ)
    → All (λ (x : ℕ). x < 256) out
    → IsOkAddr (ipv4_loop word out value digits)
unfolding ipv4_loop
ipv4_loop-IsOkAddr [] out value digits h = four_octets-IsOkAddr out h
ipv4_loop-IsOkAddr (ch ∷ rest) out value digits h =
    let v = digits_value value in
    let value' = v * 10 + (ch - b'0') in
    let small : v % 256 < 256 = omega arith in
    if_elim IsOkAddr (ch == b'.')
      (λ _.
        if_elim IsOkAddr (digits == 0 || ltb 255 v || ltb 3 (length out)) (λ _. tt)
          λ _.
            ipv4_loop-IsOkAddr rest (out ++ (v % 256) ∷ []) none 0
              (All-snoc (λ (x : ℕ). x < 256) out (v % 256) h small))
      λ _.
        if_elim IsOkAddr (is_digit ch)
          (λ _.
            if_elim IsOkAddr (ltb 255 value') (λ _. tt)
              λ _. ipv4_loop-IsOkAddr rest out (some value') (digits + 1) h)
          λ _. tt

-- A token found is well formed, and at least the first byte is consumed.
abbrev ScanOk : List ℕ → Scan → Type 0
ScanOk rest (token t rest') = IsOkToken t × (length rest' ≤ length rest)
ScanOk rest (refuse e) = Unit

scan_number-ScanOk :
    (rest word rest' : List ℕ) → length rest' ≤ length rest → ScanOk rest (scan_number word rest')
unfolding scan_number
scan_number-ScanOk rest word rest' h =
    go (parse_ipv4_word word) (ipv4_loop-IsOkAddr (word ++ b'.' ∷ []) [] none 0 tt)
  where
    go :
        (o : Option Addr)
        → IsOkAddr o
        → ScanOk rest (elim o [
          | some addr ↦ token (tok_ipv4 addr) rest'
          | none ↦
              if has_dot word
              then refuse invalid_ipv4
              else if ltb 0xFFFF_FFFF (strtoul word)
              then refuse number_out_of_range
              else token (tok_number (strtoul word)) rest'
        ])
    go (some addr) k = (k, h)
    go none k =
        if_elim (ScanOk rest) (has_dot word) (λ _. tt)
          λ _.
            if_elim (ScanOk rest) (ltb 0xFFFF_FFFF (strtoul word)) (λ _. tt)
              λ e. (omega (arith, ltb→le 0xFFFF_FFFF (strtoul word) e), h)

abbrev IsOkFound : Option Token → Type 0
IsOkFound none = Unit
IsOkFound (some t) = IsOkToken t

find_keyword-IsOk :
    (word : List ℕ) (table : List (List ℕ × Token))
    → All (λ (e : List ℕ × Token). IsOkToken e.1) table
    → IsOkFound (find_keyword word table)
unfolding find_keyword
find_keyword-IsOk word [] h = tt
find_keyword-IsOk word ((k, t) ∷ table) (h, hs) =
    if_elim IsOkFound (same_bytes k word) (λ _. h) λ _. find_keyword-IsOk word table hs

keywords-IsOk : All (λ (e : List ℕ × Token). IsOkToken e.1) keywords
keywords-IsOk =
    (tt, (tt, (tt, (tt, (tt, (tt, (tt, (tt, (tt, (tt, (tt, (tt, (tt, (tt, tt))))))))))))))

scan_keyword-ScanOk :
    (rest word rest' : List ℕ) → length rest' ≤ length rest → ScanOk rest (scan_keyword word rest')
unfolding scan_keyword
scan_keyword-ScanOk rest word rest' h =
    go (find_keyword word keywords) (find_keyword-IsOk word keywords keywords-IsOk)
  where
    go :
        (o : Option Token)
        → IsOkFound o
        → ScanOk rest (elim o [ some t ↦ token t rest' | none ↦ refuse unknown_keyword ])
    go (some t) k = (k, h)
    go none k = tt

pub length-skip_one : (rest : List ℕ) → length (skip_one rest) ≤ length rest
length-skip_one [] = omega arith
length-skip_one (x ∷ xs) = omega arith

scan-ScanOk : (ch : ℕ) (rest : List ℕ) → ScanOk rest (scan ch rest)
unfolding scan
scan-ScanOk ch rest =
    if_elim (ScanOk rest) (ch == b'(') (λ _. (tt, omega arith))
      λ _.
        if_elim (ScanOk rest) (ch == b')') (λ _. (tt, omega arith))
          λ _.
            if_elim (ScanOk rest) (ch == b'/') (λ _. (tt, omega arith))
              λ _.
                if_elim (ScanOk rest) (ch == b'!') (λ _. (tt, omega arith))
                  λ _.
                    if_elim (ScanOk rest) (ch == b'&' && next_is b'&' rest)
                      (λ _. (tt, length-skip_one rest))
                      λ _.
                        if_elim (ScanOk rest) (ch == b'|' && next_is b'|' rest)
                          (λ _. (tt, length-skip_one rest))
                          λ _.
                            if_elim (ScanOk rest) (is_digit ch)
                              (λ e.
                                scan_number-ScanOk rest (span is_number_char (ch ∷ rest)).0
                                  (span is_number_char (ch ∷ rest)).1
                                  (length-span_cons is_number_char ch rest (rw e)))
                              λ _.
                                if_elim (ScanOk rest) (is_letter ch)
                                  (λ e.
                                    scan_keyword-ScanOk rest (span is_word_char (ch ∷ rest)).0
                                      (span is_word_char (ch ∷ rest)).1
                                      (length-span_cons is_word_char ch rest (rw e)))
                                  λ _. tt

-- What the rest of the lexer does from `toks` and `expr`.
-- A TOK_END is among the tokens.
abbrev pub HasEnd : List Token → Type 0
HasEnd [] = ⊥
HasEnd (t ∷ ts) = (t ≡ tok_end) ⊎ HasEnd ts

HasEnd-put : (toks : List Token) → HasEnd (toks ++ tok_end ∷ [])
HasEnd-put [] = inl refl
HasEnd-put (t ∷ toks) = inr (HasEnd-put toks)

abbrev pub LexOk : List Token → List ℕ → Lexed → Type 0
LexOk toks expr (tokens ts) =
    All IsOkToken ts
    × (length ts ≤ max_tokens)
    × (length ts ≤ length toks + length expr + 1)
    × HasEnd ts
LexOk toks expr (lex_failed e) = Unit
LexOk toks expr overrun = max_tokens ≤ length toks + length expr
LexOk toks expr out_of_fuel = ⊥

LexOk-weaken :
    (toks toks' : List Token) (expr expr' : List ℕ) (r : Lexed)
    → length toks + length expr ≤ length toks' + length expr'
    → LexOk toks expr r
    → LexOk toks' expr' r
LexOk-weaken toks toks' expr expr' (tokens ts) h (a, b, c, d) = (a, b, omega arith, d)
LexOk-weaken toks toks' expr expr' (lex_failed e) h p = tt
LexOk-weaken toks toks' expr expr' overrun h p = omega arith
LexOk-weaken toks toks' expr expr' out_of_fuel h p = p

put_end-LexOk : (toks : List Token) → All IsOkToken toks → LexOk toks [] (put_end toks)
unfolding put_end
put_end-LexOk toks h =
    if_elim (LexOk toks []) (leb max_tokens (length toks))
      (λ e. omega (arith, leb→le max_tokens (length toks) e))
      λ e. (
        All-snoc IsOkToken toks tok_end h tt,
        omega (arith, leb→lt max_tokens (length toks) e, length-append toks (tok_end ∷ [])),
        omega (arith, length-append toks (tok_end ∷ [])),
        HasEnd-put toks,
      )

lex_loop-LexOk :
    (fuel : ℕ) (toks : List Token) (expr : List ℕ)
    → length expr < fuel
    → All IsOkToken toks
    → LexOk toks expr (lex_loop fuel toks expr)
unfolding lex_loop
lex_loop-LexOk zero toks expr h ok = absurd (omega arith)
lex_loop-LexOk (suc fuel) toks [] h ok = put_end-LexOk toks ok
lex_loop-LexOk (suc fuel) toks (ch ∷ rest) h ok =
    elim (is_space ch)
      as (λ b. LexOk toks (ch ∷ rest) (elim b [
        | true ↦ lex_loop fuel toks rest
        | false ↦ elim (leb max_tokens (length toks)) [
          | true ↦ lex_failed too_many_tokens
          | false ↦ elim (scan ch rest) [
            | token t rest' ↦ lex_loop fuel (toks ++ t ∷ []) rest'
            | refuse e ↦ lex_failed e
          ]
        ]
      ])) [
        | true ↦
            LexOk-weaken toks toks rest (ch ∷ rest) _ (omega arith)
              (lex_loop-LexOk fuel toks rest (omega arith) ok)
        | false ↦
            after_space (leb max_tokens (length toks)) (scan ch rest) (scan-ScanOk ch rest)
              λ t rest' k.
                lex_loop-LexOk fuel (toks ++ t ∷ []) rest' (omega (arith, k.1))
                  (All-snoc IsOkToken toks t ok k.0)
      ]
  where
    after_space :
        (b : Bool) (r : Scan)
        → ScanOk rest r
        → ((t : Token) (rest' : List ℕ)
            → ScanOk rest (token t rest')
            → LexOk (toks ++ t ∷ []) rest' (lex_loop fuel (toks ++ t ∷ []) rest'))
        → LexOk toks (ch ∷ rest) (elim b [
          | true ↦ lex_failed too_many_tokens
          | false ↦ elim r [
            | token t rest' ↦ lex_loop fuel (toks ++ t ∷ []) rest'
            | refuse e ↦ lex_failed e
          ]
        ])
    after_space true r k rec = tt
    after_space false (token t rest') k rec =
        LexOk-weaken (toks ++ t ∷ []) toks rest' (ch ∷ rest) _
          (omega (arith, length-append toks (t ∷ []), k.1)) (rec t rest' k)
    after_space false (refuse e) k rec = tt

-- The lexer ends on every expression, as follows. On success the tokens fit the array and have TOK_END, addresses
-- have octets of a byte and numbers fit 32 bits. The array is overrun only by an expression of at
-- least 256 bytes.
pub cf_lex-LexOk : (expr : List ℕ) → LexOk [] expr (cf_lex expr)
unfolding cf_lex
cf_lex-LexOk expr = lex_loop-LexOk (length expr + 1) [] expr (omega arith) tt

-- 256 tokens, here parentheses, fit the array but leave no element for TOK_END.
abbrev pub IsParen : ℕ → Type 0
IsParen ch = ch ≡ b'('

lex_loop-parens :
    (expr : List ℕ) (fuel : ℕ) (toks : List Token)
    → length expr < fuel
    → All IsParen expr
    → length toks + length expr ≡ max_tokens
    → lex_loop fuel toks expr ≡ overrun
unfolding lex_loop put_end is_space scan
lex_loop-parens expr zero toks h ps e = absurd (omega arith)
lex_loop-parens [] (suc fuel) toks h ps e = ground arith
lex_loop-parens (ch ∷ rest) (suc fuel) toks h (p, ps) e = ground (
  arith,
  lex_loop-parens rest fuel (toks ++ tok_lparen ∷ []) (omega arith) ps
      (omega (arith, length-append toks (tok_lparen ∷ []))),
)

-- An expression of 256 opening parentheses makes `cf_lex` write TOK_END outside its array.
pub cf_lex-overrun :
    (expr : List ℕ) → All IsParen expr → length expr ≡ max_tokens → cf_lex expr ≡ overrun
unfolding cf_lex
cf_lex-overrun expr ps e = lex_loop-parens expr (length expr + 1) [] (omega arith) ps (omega arith)
