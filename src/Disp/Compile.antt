-- ===== src/Disp/Compile.antt =====
-- `dispfilter_compile` of src/c/dispfilter.c: the lexer and the parser in turn.
pub mod Correct
use my_wireshark.Base.{ℕ, Bool, true, false, List, [], ◌∷◌, Option, none, some}
use my_wireshark.Disp.Node.{Error, trailing_tokens, out_of_memory, Node, null}
use my_wireshark.Disp.Token.{Token, tok_end}
use my_wireshark.Disp.Lexer.{tokens, lex_failed, overrun, out_of_fuel, df_lex}
use my_wireshark.Disp.Parser.{State, p_peek, Parsed, parse_expr, parser, parse_fuel}

-- `filter` is the filter with its root; `error` a return of NULL with its message. `undefined` is a
-- write that C leaves undefined, `no_fuel` has no counterpart.
pub data Outcome : Type 0 where
  filter : Node → Outcome
  error : Error → Outcome
  undefined no_fuel : Outcome

abbrev pub is_end : Token → Bool
is_end tok_end = true
is_end _ = false

unfoldable pub after_parse : Parsed → Outcome
unfolding p_peek
after_parse (root, s) = elim s.failed [
  | some e ↦ error e
  | none ↦ elim (is_end (p_peek s)) [ true ↦ filter root | false ↦ error trailing_tokens ]
]

unfoldable pub parse_tokens : List Token → Outcome
unfolding parse_expr after_parse
parse_tokens toks = elim (parse_expr (parse_fuel toks) (parser toks)) [
  | none ↦ no_fuel
  | some p ↦ after_parse p
]

unfoldable pub compile_text : List ℕ → Outcome
unfolding df_lex parse_tokens
compile_text expr = elim (df_lex expr) [
  | tokens toks ↦ parse_tokens toks
  | lex_failed e ↦ error e
  | overrun ↦ undefined
  | out_of_fuel ↦ no_fuel
]

-- `alloc` tells whether both calls of `malloc` had room; `none` is a null `expr`.
unfoldable pub dispfilter_compile : Bool → Option (List ℕ) → Outcome
unfolding compile_text
dispfilter_compile false expr = error out_of_memory
dispfilter_compile true none = filter null
dispfilter_compile true (some []) = filter null
dispfilter_compile true (some (ch ∷ rest)) = compile_text (ch ∷ rest)
