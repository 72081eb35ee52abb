-- ===== src/Cap/Compile/Correct.antt =====
-- What `capfilter_compile` returns, and that its programs do what the expression says.
use my_wireshark.Base.{
  IsBytes, ℕ, ◌≤◌, ◌<◌, ◌≡◌, refl, Bool, true, false, List, [], ◌∷◌, Option, none, some, arith,
  length, All, subst,
}
use my_wireshark.Cap.Node.{Error, trailing_tokens, out_of_memory, Node}
use my_wireshark.Cap.Token.{Token}
use my_wireshark.Cap.Insn.{Insn}
use my_wireshark.Cap.Lexer.{Lexed, tokens, lex_failed, overrun, out_of_fuel, cf_lex, max_tokens}
use my_wireshark.Cap.Lexer.Safety.{IsOkToken, HasEnd, LexOk, cf_lex-LexOk}
use my_wireshark.Cap.Parser.{max_nodes, State, p_peek, Parsed, parse_expr, parser, parse_fuel}
use my_wireshark.Cap.Parser.Sound.{Ensured, parse_expr-Good}
use my_wireshark.Cap.Codegen.{Gen, done, failed, fault, compile_root, accept_len, max_insns}
use my_wireshark.Cap.Codegen.Faults.{NoFault, compile_root-NoFault}
use my_wireshark.Cap.Bpf.{bpf_interp_run}
use my_wireshark.Cap.Bpf.Runs.{pick}
use my_wireshark.Cap.Matches.{matches, IsWellFormed}
use my_wireshark.Cap.Correct.{compile_root-run, length-compile_root}
use my_wireshark.Cap.Compile.{
  Outcome, program, error, undefined, no_fuel, is_end, generate, after_parse, parse_tokens,
  compile_text, capfilter_compile,
}

-- The parse that a program comes from: the whole expression, without an error.
pub record IsParse (expr : List ℕ) (root : Node) : Type 0 where
  pub toks : List Token
  pub state : State
  pub lexed : cf_lex expr ≡ tokens toks
  pub parsed : parse_expr (parse_fuel toks) (parser toks) ≡ some (root, state)
  pub no_error : state.failed ≡ none
  pub at_end : is_end (p_peek state) ≡ true

-- The parser on the tokens of the lexer: it returns, with a good outcome.
parser-Ensured :
    (expr : List ℕ) {toks : List Token}
    → cf_lex expr ≡ tokens toks
    → Ensured (parser toks) (parse_expr (parse_fuel toks) (parser toks))
parser-Ensured expr {toks} e =
    let ok = (subst (LexOk [] expr) e (cf_lex-LexOk expr)).0 in
    parse_expr-Good (parse_fuel toks) (parser toks) ok (omega arith)

-- The parser ends within its fuel on the tokens of any expression, and takes at most 256 nodes.
pub parse_expr-total :
    (expr : List ℕ) {toks : List Token}
    → cf_lex expr ≡ tokens toks
    → (p : Parsed) × (parse_expr (parse_fuel toks) (parser toks) ≡ some p) × (p.1.count ≤ max_nodes)
parse_expr-total expr {toks} e =
    go (parse_expr (parse_fuel toks) (parser toks)) refl (parser-Ensured expr e)
  where
    go :
        (r : Option Parsed)
        → parse_expr (parse_fuel toks) (parser toks) ≡ r
        → Ensured (parser toks) r
        → (p : Parsed) × (parse_expr (parse_fuel toks) (parser toks) ≡ some p)
          × (p.1.count ≤ max_nodes)
    go none q h = absurd h
    go (some p) q h = (p, q, h.after.pool (omega arith))

-- The tree of an expression that parses to its end without an error has no null pointer, octets of
-- a byte and prefixes of at most 32 bits.
pub parse-IsWellFormed : (expr : List ℕ) (root : Node) → IsParse expr root → IsWellFormed root
parse-IsWellFormed expr root p =
    (subst (Ensured (parser p.toks)) p.parsed (parser-Ensured expr p.lexed)).whole p.no_error

text_cases :
    (alloc : Bool) (expr : List ℕ) {prog : List Insn}
    → compile_text alloc expr ≡ program prog
    → (toks : List Token) × (cf_lex expr ≡ tokens toks) × (parse_tokens alloc toks ≡ program prog)
unfolding compile_text
text_cases alloc expr {prog} e = go (cf_lex expr) refl e
  where
    go :
        (r : Lexed)
        → cf_lex expr ≡ r
        → ◌≡◌ {A = Outcome}
            (elim r [
              | tokens toks ↦ parse_tokens alloc toks
              | lex_failed e ↦ error e
              | overrun ↦ undefined
              | out_of_fuel ↦ no_fuel
            ])
            (program prog)
        → (toks : List Token) × (cf_lex expr ≡ tokens toks)
          × (parse_tokens alloc toks ≡ program prog)
    go (tokens toks) q h = (toks, q, h)
    go (lex_failed x) q h = cc
    go overrun q h = cc
    go out_of_fuel q h = cc

tokens_cases :
    (alloc : Bool) (toks : List Token) {prog : List Insn}
    → parse_tokens alloc toks ≡ program prog
    → (p : Parsed) × (parse_expr (parse_fuel toks) (parser toks) ≡ some p)
      × (after_parse alloc p ≡ program prog)
unfolding parse_tokens
tokens_cases alloc toks {prog} e = go (parse_expr (parse_fuel toks) (parser toks)) refl e
  where
    go :
        (r : Option Parsed)
        → parse_expr (parse_fuel toks) (parser toks) ≡ r
        → ◌≡◌ {A = Outcome}
            (elim r [ none ↦ no_fuel | some p ↦ after_parse alloc p ])
            (program prog)
        → (p : Parsed) × (parse_expr (parse_fuel toks) (parser toks) ≡ some p)
          × (after_parse alloc p ≡ program prog)
    go none q h = cc
    go (some p) q h = (p, q, h)

after_cases :
    (alloc : Bool) (root : Node) (s : State) {prog : List Insn}
    → after_parse alloc (root, s) ≡ program prog
    → (s.failed ≡ none) × (is_end (p_peek s) ≡ true) × (generate alloc root ≡ program prog)
unfolding after_parse
after_cases alloc root s {prog} e = go s.failed (is_end (p_peek s)) refl refl e
  where
    go :
        (r : Option Error) (b : Bool)
        → s.failed ≡ r
        → is_end (p_peek s) ≡ b
        → ◌≡◌ {A = Outcome}
            (elim r [
              | some e ↦ error e
              | none ↦ elim b [ true ↦ generate alloc root | false ↦ error trailing_tokens ]
            ])
            (program prog)
        → (s.failed ≡ none) × (is_end (p_peek s) ≡ true) × (generate alloc root ≡ program prog)
    go (some x) b q q' h = cc
    go none true q q' h = (q, q', h)
    go none false q q' h = cc

generate_cases :
    (alloc : Bool) (root : Node) {prog : List Insn}
    → generate alloc root ≡ program prog
    → compile_root root ≡ done prog
unfolding generate
generate_cases alloc root {prog} e = go (compile_root root) alloc refl e
  where
    go :
        (r : Gen (List Insn)) (b : Bool)
        → compile_root root ≡ r
        → ◌≡◌ {A = Outcome}
            (elim r [
              | done prog' ↦ elim b [ true ↦ program prog' | false ↦ error out_of_memory ]
              | failed e ↦ error e
              | fault ↦ undefined
            ])
            (program prog)
        → compile_root root ≡ done prog
    go (done p) true q h = cc
    go (done p) false q h = cc
    go (failed x) b q h = cc
    go fault b q h = cc

-- A program that `capfilter_compile` returns for an expression comes from a parse of the whole
-- expression, and on every frame the machine accepts it if the parsed filter matches it, and returns
-- 0 if it does not or the frame is too short to tell.
pub capfilter_compile-run :
    (alloc : Bool) (expr : List ℕ) {prog : List Insn} (pkt : List ℕ)
    → IsBytes pkt
    → capfilter_compile alloc (some expr) ≡ program prog
    → (root : Node) × IsParse expr root
      × (bpf_interp_run prog pkt ≡ some (pick (matches root pkt) accept_len 0))
unfolding capfilter_compile
capfilter_compile-run alloc [] pkt hb e = cc
capfilter_compile-run alloc (ch ∷ rest) pkt hb e =
    let (toks, lexed, e₁) = text_cases alloc (ch ∷ rest) e in
    let (p, parsed, e₂) = tokens_cases alloc toks e₁ in
    let (no_error, at_end, e₃) = after_cases alloc p.0 p.1 e₂ in
    let parse : IsParse (ch ∷ rest) p.0 = record {
      toks = toks;
      state = p.1;
      lexed = lexed;
      parsed = parsed;
      no_error = no_error;
      at_end = at_end;
    } in
    let wf = parse-IsWellFormed (ch ∷ rest) p.0 parse in
    (p.0, parse, compile_root-run p.0 pkt wf hb (generate_cases alloc p.0 e₃))

-- A program fits the array of instructions.
abbrev pub Returns : Outcome → Type 0
Returns (program prog) = length prog ≤ max_insns
Returns undefined = ⊥
Returns no_fuel = ⊥
Returns _ = Unit

generate-Returns : (alloc : Bool) (root : Node) → IsWellFormed root → Returns (generate alloc root)
unfolding generate
generate-Returns alloc root wf = go (compile_root root) alloc refl (compile_root-NoFault root wf)
  where
    go :
        (r : Gen (List Insn)) (b : Bool)
        → compile_root root ≡ r
        → NoFault r
        → Returns (elim r [
          | done prog' ↦ elim b [ true ↦ program prog' | false ↦ error out_of_memory ]
          | failed e ↦ error e
          | fault ↦ undefined
        ])
    go (done p) true q h = length-compile_root root q
    go (done p) false q h = tt
    go (failed x) b q h = tt
    go fault b q h = h

after_parse-Returns :
    (alloc : Bool) (root : Node) (s : State)
    → (s.failed ≡ none → IsWellFormed root)
    → Returns (after_parse alloc (root, s))
unfolding after_parse
after_parse-Returns alloc root s wf = go s.failed (is_end (p_peek s)) refl
  where
    go :
        (r : Option Error) (b : Bool)
        → s.failed ≡ r
        → Returns (elim r [
          | some e ↦ error e
          | none ↦ elim b [ true ↦ generate alloc root | false ↦ error trailing_tokens ]
        ])
    go (some x) b q = tt
    go none true q = generate-Returns alloc root (wf q)
    go none false q = tt

parse_tokens-Returns :
    (alloc : Bool) (toks : List Token) → All IsOkToken toks → Returns (parse_tokens alloc toks)
unfolding parse_tokens
parse_tokens-Returns alloc toks ok =
    go (parse_expr (parse_fuel toks) (parser toks))
      (parse_expr-Good (parse_fuel toks) (parser toks) ok (omega arith))
  where
    go :
        (r : Option Parsed)
        → Ensured (parser toks) r
        → Returns (elim r [ none ↦ no_fuel | some p ↦ after_parse alloc p ])
    go none h = h
    go (some p) h = after_parse-Returns alloc p.0 p.1 h.whole

-- What the lexer gives fits the array of tokens, the nodes that the parser takes fit the pool, and
-- the parser ends at a place with a TOK_END at it or behind it.
abbrev pub FitsArrays : Lexed → Type 0
FitsArrays (tokens toks) =
    (length toks ≤ max_tokens)
    × ((p : Parsed) × (parse_expr (parse_fuel toks) (parser toks) ≡ some p)
        × (p.1.count ≤ max_nodes)
        × HasEnd p.1.rest)
FitsArrays (lex_failed e) = Unit
FitsArrays overrun = ⊥
FitsArrays out_of_fuel = ⊥

parse_expr-Fits :
    (expr : List ℕ) {toks : List Token}
    → cf_lex expr ≡ tokens toks
    → (p : Parsed) × (parse_expr (parse_fuel toks) (parser toks) ≡ some p)
      × (p.1.count ≤ max_nodes)
      × HasEnd p.1.rest
parse_expr-Fits expr {toks} e =
    go (parse_expr (parse_fuel toks) (parser toks)) refl (parser-Ensured expr e)
  where
    go :
        (r : Option Parsed)
        → parse_expr (parse_fuel toks) (parser toks) ≡ r
        → Ensured (parser toks) r
        → (p : Parsed) × (parse_expr (parse_fuel toks) (parser toks) ≡ some p)
          × (p.1.count ≤ max_nodes)
          × HasEnd p.1.rest
    go none q h = absurd h
    go (some p) q h = (
      p,
      q,
      h.after.pool (omega arith),
      h.after.ends (subst (LexOk [] expr) e (cf_lex-LexOk expr)).3,
    )

cf_lex-FitsArrays : (expr : List ℕ) → length expr < max_tokens → FitsArrays (cf_lex expr)
cf_lex-FitsArrays expr h = go (cf_lex expr) refl (cf_lex-LexOk expr)
  where
    go : (r : Lexed) → cf_lex expr ≡ r → LexOk [] expr r → FitsArrays r
    go (tokens toks) q k = (k.1, parse_expr-Fits expr q)
    go (lex_failed x) q k = tt
    go overrun q k = absurd (omega arith)
    go out_of_fuel q k = k

compile_text-Returns :
    (alloc : Bool) (expr : List ℕ) → length expr < max_tokens → Returns (compile_text alloc expr)
unfolding compile_text
compile_text-Returns alloc expr h = go (cf_lex expr) (cf_lex-LexOk expr)
  where
    go :
        (r : Lexed)
        → LexOk [] expr r
        → Returns (elim r [
          | tokens toks ↦ parse_tokens alloc toks
          | lex_failed e ↦ error e
          | overrun ↦ undefined
          | out_of_fuel ↦ no_fuel
        ])
    go (tokens toks) k = parse_tokens-Returns alloc toks k.0
    go (lex_failed x) k = tt
    go overrun k = absurd (omega arith)
    go out_of_fuel k = k

-- Of an expression of fewer than 256 bytes `capfilter_compile` makes a program of at most 1024
-- instructions, none, or an error. The lexer and the parser end; the tokens that the lexer writes
-- are at most 256; the parser, which only moves on, stops with a TOK_END at its place or behind it;
-- the nodes that it takes from the pool are at most 256; and the code generator reads no member of
-- a null node and patches no instruction that it has not written.
pub capfilter_compile-Returns :
    (alloc : Bool) (expr : List ℕ)
    → length expr < max_tokens
    → Returns (capfilter_compile alloc (some expr)) × FitsArrays (cf_lex expr)
unfolding capfilter_compile
capfilter_compile-Returns alloc [] h = (tt, cf_lex-FitsArrays [] h)
capfilter_compile-Returns alloc (ch ∷ rest) h =
    (compile_text-Returns alloc (ch ∷ rest) h, cf_lex-FitsArrays (ch ∷ rest) h)
