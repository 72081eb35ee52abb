-- ===== src/Cap/Parser/Sound.antt =====
-- The parser ends within its fuel, keeps the first error, stays within the pool of nodes, and on
-- success has built a tree without null pointers.
use my_wireshark.Base.{
  ◌>>=◌, ℕ, zero, suc, ◌+◌, ◌*◌, ◌<◌, ◌≡◌, ◌≢◌, true, Option, none, some, arith, length, All,
  if_elim,
}
use my_wireshark.Cap.Node.{Node}
use my_wireshark.Cap.Token.{Token, tok_end}
use my_wireshark.Cap.Lexer.Safety.{IsOkToken}
use my_wireshark.Cap.Parser.{
  State, p_peek, p_advance, Parsed, mk_and, mk_or, parse_primitive, is_not, is_lparen, is_and,
  is_or, parse_not, parse_and, and_loop, parse_expr, or_loop,
}
use my_wireshark.Cap.Parser.Steps.{
  Good, Step-refl, Step-trans, back, drop_token-lt, Step-advance, Good-after, and-Good, or-Good,
}
use my_wireshark.Cap.Parser.Leaves.{next_ok, primitive-Good, mk_not-Good, close_paren-Good}

-- The fuel was enough, and the call was good.
abbrev pub Ensured : State → Option Parsed → Type 0
Ensured s none = ⊥
Ensured s (some p) = Good s p

Ensured-bind :
    (s t : State) (o : Option Parsed) (k : Parsed → Option Parsed)
    → Ensured t o
    → ((p : Parsed) → Good t p → Ensured s (k p))
    → Ensured s (o >>= k)
Ensured-bind s t none k h f = absurd h
Ensured-bind s t (some p) k h f = f p h

advance-lt : (s : State) → p_peek s ≢ tok_end → length (p_advance s).rest < length s.rest
unfolding p_peek p_advance
advance-lt s h = drop_token-lt s.rest h

is_not-ne : (t : Token) → is_not t ≡ true → t ≢ tok_end
is_not-ne t h e = cc (rw e at h)

is_lparen-ne : (t : Token) → is_lparen t ≡ true → t ≢ tok_end
is_lparen-ne t h e = cc (rw e at h)

is_and-ne : (t : Token) → is_and t ≡ true → t ≢ tok_end
is_and-ne t h e = cc (rw e at h)

is_or-ne : (t : Token) → is_or t ≡ true → t ≢ tok_end
is_or-ne t h e = cc (rw e at h)

-- The left operand, taken over the operator.
carried :
    (s : State) (left : Node) (t : State)
    → Good s (left, t)
    → Good (p_advance t) (left, p_advance t)
carried s left t g = record {
  after = Step-refl (p_advance t);
  whole = λ h. g.whole (back (Step-advance t) h);
}

mutual
  unfolding parse_not parse_and and_loop parse_expr or_loop parse_primitive

  parse_not-Good :
      (f : ℕ) (s : State) → All IsOkToken s.rest → 4 * length s.rest < f → Ensured s (parse_not f s)
  parse_not-Good zero s ok h = absurd (omega arith)
  parse_not-Good (suc f) s ok h =
      if_elim (Ensured s) (is_not (p_peek s))
        (λ e.
          Ensured-bind s (p_advance s) (parse_not f (p_advance s)) _
            (parse_not-Good f (p_advance s) (next_ok s ok)
              (omega (arith, advance-lt s (is_not-ne (p_peek s) e))))
            λ p g. mk_not-Good s (Good-after (Step-advance s) g))
        λ _.
          if_elim (Ensured s) (is_lparen (p_peek s))
            (λ e.
              Ensured-bind s (p_advance s) (parse_expr f (p_advance s)) _
                (parse_expr-Good f (p_advance s) (next_ok s ok)
                  (omega (arith, advance-lt s (is_lparen-ne (p_peek s) e))))
                λ p g. close_paren-Good s (Good-after (Step-advance s) g))
            λ _. primitive-Good (p_peek s) s ok

  parse_and-Good :
      (f : ℕ) (s : State)
      → All IsOkToken s.rest
      → 4 * length s.rest + 1 < f
      → Ensured s (parse_and f s)
  parse_and-Good zero s ok h = absurd (omega arith)
  parse_and-Good (suc f) s ok h =
      Ensured-bind s s (parse_not f s) (λ p. and_loop f p) (parse_not-Good f s ok (omega arith))
        λ p g. and_loop-Good f s p g (g.after.tokens_ok ok) (omega (arith, g.after.shorter))

  and_loop-Good :
      (f : ℕ) (s : State) (p : Parsed)
      → Good s p
      → All IsOkToken p.1.rest
      → 4 * length p.1.rest < f
      → Ensured s (and_loop f p)
  and_loop-Good zero s p g ok h = absurd (omega arith)
  and_loop-Good (suc f) s (left, t) g ok h =
      if_elim (Ensured s) (is_and (p_peek t))
        (λ e.
          let fewer = advance-lt t (is_and-ne (p_peek t) e) in
          Ensured-bind s (p_advance t) (parse_not f (p_advance t)) _
            (parse_not-Good f (p_advance t) (next_ok t ok) (omega (arith, fewer)))
            λ q r.
              let round = and-Good (p_advance t) (carried s left t g) r in
              and_loop-Good f s (mk_and q.1 left q.0)
                (Good-after (Step-trans g.after (Step-advance t)) round)
                (round.after.tokens_ok (next_ok t ok)) (omega (arith, fewer, round.after.shorter)))
        λ _. g

  pub parse_expr-Good :
      (f : ℕ) (s : State)
      → All IsOkToken s.rest
      → 4 * length s.rest + 2 < f
      → Ensured s (parse_expr f s)
  parse_expr-Good zero s ok h = absurd (omega arith)
  parse_expr-Good (suc f) s ok h =
      Ensured-bind s s (parse_and f s) (λ p. or_loop f p) (parse_and-Good f s ok (omega arith))
        λ p g. or_loop-Good f s p g (g.after.tokens_ok ok) (omega (arith, g.after.shorter))

  or_loop-Good :
      (f : ℕ) (s : State) (p : Parsed)
      → Good s p
      → All IsOkToken p.1.rest
      → 4 * length p.1.rest < f
      → Ensured s (or_loop f p)
  or_loop-Good zero s p g ok h = absurd (omega arith)
  or_loop-Good (suc f) s (left, t) g ok h =
      if_elim (Ensured s) (is_or (p_peek t))
        (λ e.
          let fewer = advance-lt t (is_or-ne (p_peek t) e) in
          Ensured-bind s (p_advance t) (parse_and f (p_advance t)) _
            (parse_and-Good f (p_advance t) (next_ok t ok) (omega (arith, fewer)))
            λ q r.
              let round = or-Good (p_advance t) (carried s left t g) r in
              or_loop-Good f s (mk_or q.1 left q.0)
                (Good-after (Step-trans g.after (Step-advance t)) round)
                (round.after.tokens_ok (next_ok t ok)) (omega (arith, fewer, round.after.shorter)))
        λ _. g
