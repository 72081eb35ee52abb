-- ===== src/Cap/Tests.antt =====
-- Expressions and frames for src/c/capfilter.c, and its theorems applied to them.
use my_wireshark.Base.{
  IsBytes, ℕ, ◌≡◌, ◌≤◌, refl, true, List, [], ◌∷◌, ◌++◌, none, some, arith, length, replicate,
  All-replicate, all_test, IsBytes-test,
}
use my_wireshark.Base.Text.{codes, same_bytes}
use my_wireshark.Cap.Node.{Node, and_node, or_node, ethertype, ipproto, port, dst, trailing_tokens}
use my_wireshark.Cap.Token.{Token, tok_end, tok_proto_tcp, tok_and, tok_dst, tok_port, tok_number}
use my_wireshark.Cap.Insn.{Insn}
use my_wireshark.Cap.Codegen.{
  done, max_insns, compile_root, accept_len, compile_node, gen_push, pl_resolve, push_all,
  emit_leaf, addr_to_u32, prefix_mask,
}
use my_wireshark.Cap.Bpf.{bpf_interp_run}
use my_wireshark.Cap.Bpf.Runs.{pick}
use my_wireshark.Cap.Matches.{matches, field}
use my_wireshark.Cap.Correct.{program_of, compile_root-run, compile_root_lem, length-compile_root}
use my_wireshark.Cap.Lexer.{tokens, overrun, cf_lex}
use my_wireshark.Cap.Lexer.Safety.{IsParen, LexOk, cf_lex-LexOk, cf_lex-overrun}
use my_wireshark.Cap.Parser.{max_nodes, Parsed, p_peek, parse_expr, parser, parse_fuel}
use my_wireshark.Cap.Compile.{program, error, capfilter_compile}
use my_wireshark.Cap.Compile.Correct.{
  IsParse, Returns, FitsArrays, parse_expr-total, capfilter_compile-run, capfilter_compile-Returns,
}

abbrev text : List ℕ
text = codes "tcp and dst port 443"

abbrev toks : List Token
toks = tok_proto_tcp ∷ tok_and ∷ tok_dst ∷ tok_port ∷ tok_number 443 ∷ tok_end ∷ []

abbrev tree : Node
tree =
    and_node (and_node (ethertype 0x0800) (ipproto 6))
      (and_node (ethertype 0x0800) (and_node (or_node (ipproto 6) (ipproto 17)) (port dst 443)))

abbrev prog : List Insn
unfolding program_of
prog = program_of tree

-- An IPv4 header of 20 bytes behind the Ethernet header, and a segment to port 443.
abbrev frame : List ℕ
frame =
    replicate 12 0
    ++ 8 ∷ 0 ∷ 0x45 ∷ replicate 8 0
    ++ 6 ∷ replicate 10 0
    ++ 0x12 ∷ 0x34 ∷ 1 ∷ 0xbb ∷ []

lexes : cf_lex text ≡ tokens toks
unfolding cf_lex same_bytes
lexes = refl

compiles : capfilter_compile true (some text) ≡ program prog
unfolding capfilter_compile program_of same_bytes compile_node gen_push pl_resolve push_all
    emit_leaf addr_to_u32 prefix_mask
compiles = refl

frame-IsBytes : IsBytes frame
unfolding all_test
frame-IsBytes = IsBytes-test frame refl

root_compiles : compile_root tree ≡ done prog
unfolding compile_root compile_node gen_push pl_resolve push_all emit_leaf program_of
root_compiles = refl

parse : IsParse text tree
unfolding cf_lex same_bytes parse_expr p_peek
parse = record {
  toks = toks;
  state = record { rest = tok_end ∷ []; count = 11; failed = none };
  lexed = refl;
  parsed = refl;
  no_error = refl;
  at_end = refl;
}

compile_root-run_example : bpf_interp_run prog frame ≡ some (pick (matches tree frame) accept_len 0)
compile_root-run_example =
    compile_root-run tree frame ((tt, tt), (tt, ((tt, tt), tt))) frame-IsBytes root_compiles

accepts : bpf_interp_run prog frame ≡ some 65535
unfolding matches field
accepts = compile_root-run_example

compile_root_lem_example : prog ≡ program_of tree
compile_root_lem_example = compile_root_lem tree root_compiles

length-compile_root_example : length prog ≤ max_insns
length-compile_root_example = length-compile_root tree root_compiles

cf_lex-LexOk_example : LexOk [] text (cf_lex text)
cf_lex-LexOk_example = cf_lex-LexOk text

cf_lex-overrun_example : cf_lex (replicate 256 b'(') ≡ overrun
cf_lex-overrun_example = cf_lex-overrun (replicate 256 b'(') (All-replicate IsParen refl 256) refl

parse_expr-total_example :
    (p : Parsed) × (parse_expr (parse_fuel toks) (parser toks) ≡ some p) × (p.1.count ≤ max_nodes)
parse_expr-total_example = parse_expr-total text lexes

capfilter_compile-run_example :
    (root : Node) × IsParse text root
    × (bpf_interp_run prog frame ≡ some (pick (matches root frame) accept_len 0))
capfilter_compile-run_example = capfilter_compile-run true text frame frame-IsBytes compiles

capfilter_compile-Returns_example :
    Returns (capfilter_compile true (some text)) × FitsArrays (cf_lex text)
capfilter_compile-Returns_example = capfilter_compile-Returns true text (omega arith)

-- Two primitives beside each other are not a filter: there is no implicit `and`.
refuses : capfilter_compile true (some (codes "tcp port 443")) ≡ error trailing_tokens
unfolding capfilter_compile same_bytes
refuses = refl
