-- ===== src/Cap/Compile.antt =====
-- `capfilter_compile` of src/c/capfilter.c: the lexer, the parser and the code generator in turn.
pub mod Correct
use my_wireshark.Base.{ℕ, Bool, true, false, List, [], ◌∷◌, Option, none, some}
use my_wireshark.Cap.Node.{Error, trailing_tokens, out_of_memory, Node}
use my_wireshark.Cap.Token.{Token, tok_end}
use my_wireshark.Cap.Insn.{Insn}
use my_wireshark.Cap.Lexer.{tokens, lex_failed, overrun, out_of_fuel, cf_lex}
use my_wireshark.Cap.Parser.{State, p_peek, Parsed, parse_expr, parser, parse_fuel}
use my_wireshark.Cap.Codegen.{done, failed, fault, compile_root}

-- `everything` is a return of 0 with no program; `error` a return of -1 with its message.
-- `undefined` is a write or read that C leaves undefined, `no_fuel` has no counterpart.
pub data Outcome : Type 0 where
  everything : Outcome
  program : List Insn → Outcome
  error : Error → Outcome
  undefined no_fuel : Outcome

abbrev pub is_end : Token → Bool
is_end tok_end = true
is_end _ = false

-- `alloc` tells whether `malloc` had room for the program.
unfoldable pub generate : Bool → Node → Outcome
unfolding compile_root
generate alloc root = elim (compile_root root) [
  | done prog ↦ elim alloc [ true ↦ program prog | false ↦ error out_of_memory ]
  | failed e ↦ error e
  | fault ↦ undefined
]

unfoldable pub after_parse : Bool → Parsed → Outcome
unfolding generate p_peek
after_parse alloc (root, s) = elim s.failed [
  | some e ↦ error e
  | none ↦ elim (is_end (p_peek s)) [ true ↦ generate alloc root | false ↦ error trailing_tokens ]
]

unfoldable pub parse_tokens : Bool → List Token → Outcome
unfolding parse_expr after_parse
parse_tokens alloc toks = elim (parse_expr (parse_fuel toks) (parser toks)) [
  | none ↦ no_fuel
  | some p ↦ after_parse alloc p
]

unfoldable pub compile_text : Bool → List ℕ → Outcome
unfolding cf_lex parse_tokens
compile_text alloc expr = elim (cf_lex expr) [
  | tokens toks ↦ parse_tokens alloc toks
  | lex_failed e ↦ error e
  | overrun ↦ undefined
  | out_of_fuel ↦ no_fuel
]

-- `none` is a null `expr`.
unfoldable pub capfilter_compile : Bool → Option (List ℕ) → Outcome
unfolding compile_text
capfilter_compile alloc none = everything
capfilter_compile alloc (some []) = everything
capfilter_compile alloc (some (ch ∷ rest)) = compile_text alloc (ch ∷ rest)
