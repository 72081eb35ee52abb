-- ===== src/Disp/Parser/Leaves.antt =====
-- The functions under the loops of the parser of src/c/dispfilter.c, from a comparison to a
-- parenthesis.
use my_wireshark.Base.{arith, ltb, All, if_elim, ltb→le}
use my_wireshark.Disp.Node.{
  no_field, no_operator, no_rparen, Field, Cmp, cmp_eq, cmp_ne, port, Node, null, not_node,
  cmp_node,
}
use my_wireshark.Disp.Token.{
  Token, tok_rparen, tok_eq, tok_ne, tok_field, tok_number, tok_ipv4, tok_ipv6, tok_mac,
}
use my_wireshark.Disp.Eval.Holds.{IsOfKind, IsWellTyped}
use my_wireshark.Disp.Lexer.Safety.{IsOkToken}
use my_wireshark.Disp.Parser.{
  State, p_peek, p_advance, Parsed, Kind, mac_kind, ipv4_kind, ipv6_kind, port_kind, kind_of,
  Checked, fits, misfit, check_value, fill_value, value_arg, operator_arg, field_arg,
  parse_primitive, mk_not, rparen_arg, close_paren,
}
use my_wireshark.Disp.Parser.Steps.{
  GoodFor, Good, Step-trans, back, head_token-ok, Step-advance, refused-Good, mk_node-Good,
  Good-after,
}

-- The value that a check lets through is of the kind asked for.
abbrev IsOkChecked : Kind → Checked → Type 0
IsOkChecked k (fits v) = IsOfKind k v
IsOkChecked k (misfit e) = Unit

check_value-ok : (k : Kind) (t : Token) → IsOkToken t → IsOkChecked k (check_value k t)
unfolding check_value
check_value-ok mac_kind (tok_mac m) h = h
check_value-ok mac_kind _ h = tt
check_value-ok ipv4_kind (tok_ipv4 a) h = h
check_value-ok ipv4_kind _ h = tt
check_value-ok ipv6_kind (tok_ipv6 a) h = h
check_value-ok ipv6_kind _ h = tt
check_value-ok port_kind (tok_number n) h =
    if_elim (IsOkChecked port_kind) (ltb 65535 n) (λ _. tt) λ e. omega (arith, ltb→le 65535 n e)
check_value-ok port_kind _ h = tt

abbrev IsNode : Node → Type 0
IsNode null = ⊥
IsNode _ = Unit

fill_value-Good :
    (s : State) (field : Field) (c : Cmp) (checked : Checked) (p : Parsed)
    → IsOkChecked (kind_of field) checked
    → GoodFor IsNode s p
    → Good s (fill_value field c checked p)
unfolding fill_value
fill_value-Good s field c checked (null, t) h g = record {
  after = g.after;
  whole = λ e. absurd (g.whole e);
}
fill_value-Good s field c (fits v) (_, t) h g = record { after = g.after; whole = λ e. h }
fill_value-Good s field c (misfit x) (_, t) h g = Good-after g.after (refused-Good t x)

peek-ok : (s : State) → All IsOkToken s.rest → IsOkToken (p_peek s)
unfolding p_peek
peek-ok s h = head_token-ok s.rest h

pub next_ok : (s : State) → All IsOkToken s.rest → All IsOkToken (p_advance s).rest
next_ok s ok = (Step-advance s).tokens_ok ok

value_arg-Good :
    (field : Field) (c : Cmp) (t : Token) (s : State) → IsOkToken t → Good s (value_arg field c t s)
unfolding value_arg
value_arg-Good field c t s h =
    fill_value-Good s field c (check_value (kind_of field) t) _ (check_value-ok (kind_of field) t h)
      (mk_node-Good IsNode s (cmp_node field c (port 0)) λ _. tt)

operator_arg-Good :
    (field : Field) (t : Token) (s : State) → All IsOkToken s.rest → Good s (operator_arg field t s)
unfolding operator_arg
operator_arg-Good field tok_eq s ok =
    Good-after (Step-advance s)
      (value_arg-Good field cmp_eq (p_peek s) (p_advance s) (peek-ok s ok))
operator_arg-Good field tok_ne s ok =
    Good-after (Step-advance s)
      (value_arg-Good field cmp_ne (p_peek s) (p_advance s) (peek-ok s ok))
operator_arg-Good field _ s ok = refused-Good s no_operator

field_arg-Good : (t : Token) (s : State) → All IsOkToken s.rest → Good s (field_arg t s)
unfolding field_arg
field_arg-Good (tok_field field) s ok =
    Good-after (Step-advance s) (operator_arg-Good field (p_peek s) (p_advance s) (next_ok s ok))
field_arg-Good _ s ok = refused-Good s no_field

pub parse_primitive-Good : (s : State) → All IsOkToken s.rest → Good s (parse_primitive s)
unfolding parse_primitive
parse_primitive-Good s ok =
    Good-after (Step-advance s) (field_arg-Good (p_peek s) (p_advance s) (next_ok s ok))

pub mk_not-Good : (s : State) {p : Parsed} → Good s p → Good s (mk_not p)
unfolding mk_not
mk_not-Good s {p} g = Good-after g.after (mk_node-Good IsWellTyped p.1 (not_node p.0) g.whole)

rparen_arg-Good :
    (t : Token) (s : State) {p : Parsed} → Good s p → Good s (rparen_arg t p.0 (p_advance p.1))
unfolding rparen_arg
rparen_arg-Good tok_rparen s {p} g = record {
  after = Step-trans g.after (Step-advance p.1);
  whole = λ h. g.whole (back (Step-advance p.1) h);
}
rparen_arg-Good _ s {p} g =
    Good-after (Step-trans g.after (Step-advance p.1)) (refused-Good (p_advance p.1) no_rparen)

pub close_paren-Good : (s : State) {p : Parsed} → Good s p → Good s (close_paren p)
unfolding close_paren
close_paren-Good s {p} g = rparen_arg-Good (p_peek p.1) s g
