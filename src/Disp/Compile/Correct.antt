-- ===== src/Disp/Compile/Correct.antt =====
-- What `dispfilter_compile` returns, and what its filters match.
use my_wireshark.Base.{
  ℕ, ◌≤◌, ◌<◌, ◌≡◌, refl, Bool, true, false, List, [], ◌∷◌, Option, none, some, arith, length, All,
  subst,
}
use my_wireshark.Disp.Node.{Error, trailing_tokens, Node, null}
use my_wireshark.Disp.Token.{Token}
use my_wireshark.Disp.Lexer.{Lexed, tokens, lex_failed, overrun, out_of_fuel, df_lex, df_max_tokens}
use my_wireshark.Disp.Lexer.Safety.{IsOkToken, HasEnd, LexOk, df_lex-LexOk}
use my_wireshark.Disp.Parser.{df_max_nodes, State, p_peek, Parsed, parse_expr, parser, parse_fuel}
use my_wireshark.Disp.Parser.Sound.{Ensured, parse_expr-Good}
use my_wireshark.Disp.Eval.{Fields, eval_node, dispfilter_matches}
use my_wireshark.Disp.Eval.Holds.{IsWellTyped, IsFields, Holds}
use my_wireshark.Disp.Eval.Correct.{Evaluates, eval_node-Decides}
use my_wireshark.Disp.Compile.{
  Outcome, filter, error, undefined, no_fuel, is_end, after_parse, parse_tokens, compile_text,
  dispfilter_compile,
}

-- The parse that a filter comes from: the whole expression, without an error.
pub record IsParse (expr : List ℕ) (root : Node) : Type 0 where
  pub toks : List Token
  pub state : State
  pub lexed : df_lex expr ≡ tokens toks
  pub parsed : parse_expr (parse_fuel toks) (parser toks) ≡ some (root, state)
  pub no_error : state.failed ≡ none
  pub at_end : is_end (p_peek state) ≡ true

-- The parser on the tokens of the lexer: it returns, with a good outcome.
parser-Ensured :
    (expr : List ℕ) {toks : List Token}
    → df_lex expr ≡ tokens toks
    → Ensured (parser toks) (parse_expr (parse_fuel toks) (parser toks))
parser-Ensured expr {toks} e =
    parse_expr-Good (parse_fuel toks) (parser toks) (subst (LexOk [] expr) e (df_lex-LexOk expr)).0
      (omega arith)

-- In every tree parsed from a whole expression the comparisons have a value of their field's kind:
-- six bytes for a MAC address, 4 and 16 for addresses of IPv4 and IPv6, and a port below 65536.
pub parse-IsWellTyped : (expr : List ℕ) (root : Node) → IsParse expr root → IsWellTyped root
parse-IsWellTyped expr root p =
    (subst (Ensured (parser p.toks)) p.parsed (parser-Ensured expr p.lexed)).whole p.no_error

-- The parser ends within its fuel on the tokens of any expression, and takes at most 256 nodes.
pub parse_expr-ends :
    (expr : List ℕ) {toks : List Token}
    → df_lex expr ≡ tokens toks
    → (p : Parsed) × (parse_expr (parse_fuel toks) (parser toks) ≡ some p)
      × (p.1.count ≤ df_max_nodes)
parse_expr-ends expr {toks} e =
    go (parse_expr (parse_fuel toks) (parser toks)) refl (parser-Ensured expr e)
  where
    go :
        (r : Option Parsed)
        → parse_expr (parse_fuel toks) (parser toks) ≡ r
        → Ensured (parser toks) r
        → (p : Parsed) × (parse_expr (parse_fuel toks) (parser toks) ≡ some p)
          × (p.1.count ≤ df_max_nodes)
    go none q h = absurd h
    go (some p) q h = (p, q, h.after.pool (omega arith))

after_parse-cases :
    (root' : Node) (s : State) {root : Node}
    → after_parse (root', s) ≡ filter root
    → (s.failed ≡ none) × (is_end (p_peek s) ≡ true) × (root' ≡ root)
unfolding after_parse
after_parse-cases root' s {root} e = go s.failed (is_end (p_peek s)) refl refl e
  where
    go :
        (r : Option Error) (b : Bool)
        → s.failed ≡ r
        → is_end (p_peek s) ≡ b
        → ◌≡◌ {A = Outcome}
            (elim r [
              | some e ↦ error e
              | none ↦ elim b [ true ↦ filter root' | false ↦ error trailing_tokens ]
            ])
            (filter root)
        → (s.failed ≡ none) × (is_end (p_peek s) ≡ true) × (root' ≡ root)
    go (some x) b q q' h = cc
    go none true q q' h = (q, q', cc)
    go none false q q' h = cc

-- A filter from a text comes from a parse of the whole of it.
pub compile_text-IsParse :
    (expr : List ℕ) {root : Node} → compile_text expr ≡ filter root → IsParse expr root
unfolding compile_text parse_tokens
compile_text-IsParse expr {root} e = go (df_lex expr) refl e
  where
    parsed :
        (toks : List Token) (r : Option Parsed)
        → df_lex expr ≡ tokens toks
        → parse_expr (parse_fuel toks) (parser toks) ≡ r
        → ◌≡◌ {A = Outcome} (elim r [ none ↦ no_fuel | some p ↦ after_parse p ]) (filter root)
        → IsParse expr root
    parsed toks none q q' h = cc
    parsed toks (some (root', s)) q q' h =
        let (no_error, at_end, same) = after_parse-cases root' s h in
        record {
          toks = toks;
          state = s;
          lexed = q;
          parsed = rw same at q';
          no_error = no_error;
          at_end = at_end;
        }

    go :
        (l : Lexed)
        → df_lex expr ≡ l
        → ◌≡◌ {A = Outcome}
            (elim l [
              | tokens toks ↦ parse_tokens toks
              | lex_failed e ↦ error e
              | overrun ↦ undefined
              | out_of_fuel ↦ no_fuel
            ])
            (filter root)
        → IsParse expr root
    go (tokens toks) q h = parsed toks (parse_expr (parse_fuel toks) (parser toks)) q refl h
    go (lex_failed x) q h = cc
    go overrun q h = cc
    go out_of_fuel q h = cc

matches-eval :
    (root : Node) (f : Fields)
    → IsWellTyped root
    → dispfilter_matches (some root) f ≡ eval_node root f
unfolding dispfilter_matches
matches-eval null f h = absurd h
matches-eval _ f h = refl

-- A filter that `dispfilter_compile` makes of an expression of at least one byte comes from a
-- parse of the whole expression. On the fields of any packet `dispfilter_matches` returns 1
-- exactly if the parsed expression holds of them, and 0 otherwise.
pub dispfilter_compile-matches :
    (ch : ℕ) (rest : List ℕ) {root : Node} (f : Fields)
    → IsFields f
    → dispfilter_compile true (some (ch ∷ rest)) ≡ filter root
    → IsParse (ch ∷ rest) root × Evaluates (dispfilter_matches (some root) f) (Holds root f)
unfolding dispfilter_compile
dispfilter_compile-matches ch rest {root} f w e =
    let p = compile_text-IsParse (ch ∷ rest) e in
    let t = parse-IsWellTyped (ch ∷ rest) root p in
    (p, rw (matches-eval root f t) (eval_node-Decides root f t w))

abbrev pub Returns : Outcome → Type 0
Returns undefined = ⊥
Returns no_fuel = ⊥
Returns _ = Unit

after_parse-Returns : (p : Parsed) → Returns (after_parse p)
unfolding after_parse
after_parse-Returns (root, s) = go s.failed (is_end (p_peek s))
  where
    go :
        (r : Option Error) (b : Bool)
        → Returns (elim r [
          | some e ↦ error e
          | none ↦ elim b [ true ↦ filter root | false ↦ error trailing_tokens ]
        ])
    go (some x) b = tt
    go none true = tt
    go none false = tt

parse_tokens-Returns : (toks : List Token) → All IsOkToken toks → Returns (parse_tokens toks)
unfolding parse_tokens
parse_tokens-Returns toks ok =
    go (parse_expr (parse_fuel toks) (parser toks))
      (parse_expr-Good (parse_fuel toks) (parser toks) ok (omega arith))
  where
    go :
        (r : Option Parsed)
        → Ensured (parser toks) r
        → Returns (elim r [ none ↦ no_fuel | some p ↦ after_parse p ])
    go none h = h
    go (some p) h = after_parse-Returns p

-- What the lexer gives fits the array of tokens, the nodes that the parser takes fit the pool, and
-- the parser ends at a place with a TOK_END at it or behind it.
abbrev pub FitsArrays : Lexed → Type 0
FitsArrays (tokens toks) =
    (length toks ≤ df_max_tokens)
    × ((p : Parsed) × (parse_expr (parse_fuel toks) (parser toks) ≡ some p)
        × (p.1.count ≤ df_max_nodes)
        × HasEnd p.1.rest)
FitsArrays (lex_failed e) = Unit
FitsArrays overrun = ⊥
FitsArrays out_of_fuel = ⊥

parse_expr-Fits :
    (expr : List ℕ) {toks : List Token}
    → df_lex expr ≡ tokens toks
    → (p : Parsed) × (parse_expr (parse_fuel toks) (parser toks) ≡ some p)
      × (p.1.count ≤ df_max_nodes)
      × HasEnd p.1.rest
parse_expr-Fits expr {toks} e =
    go (parse_expr (parse_fuel toks) (parser toks)) refl (parser-Ensured expr e)
  where
    go :
        (r : Option Parsed)
        → parse_expr (parse_fuel toks) (parser toks) ≡ r
        → Ensured (parser toks) r
        → (p : Parsed) × (parse_expr (parse_fuel toks) (parser toks) ≡ some p)
          × (p.1.count ≤ df_max_nodes)
          × HasEnd p.1.rest
    go none q h = absurd h
    go (some p) q h = (
      p,
      q,
      h.after.pool (omega arith),
      h.after.ends (subst (LexOk [] expr) e (df_lex-LexOk expr)).3,
    )

df_lex-FitsArrays : (expr : List ℕ) → length expr < df_max_tokens → FitsArrays (df_lex expr)
df_lex-FitsArrays expr h = go (df_lex expr) refl (df_lex-LexOk expr)
  where
    go : (r : Lexed) → df_lex expr ≡ r → LexOk [] expr r → FitsArrays r
    go (tokens toks) q k = (k.1, parse_expr-Fits expr q)
    go (lex_failed x) q k = tt
    go overrun q k = absurd (omega arith)
    go out_of_fuel q k = k

compile_text-Returns : (expr : List ℕ) → length expr < df_max_tokens → Returns (compile_text expr)
unfolding compile_text
compile_text-Returns expr h = go (df_lex expr) (df_lex-LexOk expr)
  where
    go :
        (r : Lexed)
        → LexOk [] expr r
        → Returns (elim r [
          | tokens toks ↦ parse_tokens toks
          | lex_failed e ↦ error e
          | overrun ↦ undefined
          | out_of_fuel ↦ no_fuel
        ])
    go (tokens toks) k = parse_tokens-Returns toks k.0
    go (lex_failed x) k = tt
    go overrun k = absurd (omega arith)
    go out_of_fuel k = k

-- Of an expression of fewer than 256 bytes `dispfilter_compile` makes a filter or an error. The
-- lexer and the parser end; the tokens that the lexer writes are at most 256; the parser, which
-- only moves on, stops with a TOK_END at its place or behind it; and the nodes that it takes from
-- the pool are at most 256.
pub dispfilter_compile-Returns :
    (alloc : Bool) (expr : List ℕ)
    → length expr < df_max_tokens
    → Returns (dispfilter_compile alloc (some expr)) × FitsArrays (df_lex expr)
unfolding dispfilter_compile
dispfilter_compile-Returns false expr h = (tt, df_lex-FitsArrays expr h)
dispfilter_compile-Returns true [] h = (tt, df_lex-FitsArrays [] h)
dispfilter_compile-Returns true (ch ∷ rest) h =
    (compile_text-Returns (ch ∷ rest) h, df_lex-FitsArrays (ch ∷ rest) h)
