-- ===== src/Disp/Parser/Steps.antt =====
-- Steps of the parser of src/c/dispfilter.c: tokens are taken, and an error or the use of a node
-- stays.
use my_wireshark.Base.{
  ◌+◌, ◌≤◌, ◌<◌, ◌≡◌, ◌≢◌, refl, List, [], ◌∷◌, Option, none, some, arith, inl, inr, leb, length,
  All, if_elim, leb→lt, if◌then◌else◌,
}
use my_wireshark.Disp.Node.{Error, too_complex, Node, null, and_node, or_node}
use my_wireshark.Disp.Token.{Token, tok_end}
use my_wireshark.Disp.Eval.Holds.{IsWellTyped}
use my_wireshark.Disp.Lexer.Safety.{IsOkToken, HasEnd}
use my_wireshark.Disp.Parser.{
  df_max_nodes, State, head_token, drop_token, p_advance, df_fail, Parsed, refused, mk_node,
}

-- What every step of the parser keeps.
pub record Step (s s' : State) : Type 0 where
  pub shorter : length s'.rest ≤ length s.rest
  pub tokens_ok : All IsOkToken s.rest → All IsOkToken s'.rest
  pub ends : HasEnd s.rest → HasEnd s'.rest
  pub kept : (e : Error) → s.failed ≡ some e → s'.failed ≡ some e
  pub pool : s.count ≤ df_max_nodes → s'.count ≤ df_max_nodes

-- The outcome of a call: a step, and a whole tree unless an error was recorded.
pub record GoodFor (P : Node → Type 0) (s : State) (p : Parsed) : Type 0 where
  pub after : Step s p.1
  pub whole : p.1.failed ≡ none → P p.0

abbrev pub Good : State → Parsed → Type 0
Good = GoodFor IsWellTyped

pub Step-refl : (s : State) → Step s s
Step-refl s = record {
  shorter = omega arith;
  tokens_ok = λ h. h;
  ends = λ h. h;
  kept = λ e h. h;
  pool = λ h. h;
}

pub Step-trans : {s t u : State} → Step s t → Step t u → Step s u
Step-trans a b = record {
  shorter = omega (arith, a.shorter, b.shorter);
  tokens_ok = λ h. b.tokens_ok (a.tokens_ok h);
  ends = λ h. b.ends (a.ends h);
  kept = λ e h. b.kept e (a.kept e h);
  pool = λ h. b.pool (a.pool h);
}

-- Without an error after the step there was none before.
pub back : {s t : State} → Step s t → t.failed ≡ none → s.failed ≡ none
back {s} {t} a h = go s.failed refl
  where
    go : (o : Option Error) → s.failed ≡ o → s.failed ≡ none
    go none e = e
    go (some x) e = cc (a.kept x e)

drop_token-shorter : (ts : List Token) → length (drop_token ts) ≤ length ts
unfolding drop_token
drop_token-shorter [] = omega arith
drop_token-shorter (tok_end ∷ ts) = omega arith
drop_token-shorter (_ ∷ ts) = omega arith

drop_token-ok : (ts : List Token) → All IsOkToken ts → All IsOkToken (drop_token ts)
unfolding drop_token
drop_token-ok [] h = tt
drop_token-ok (tok_end ∷ ts) h = h
drop_token-ok (_ ∷ ts) h = h.1

drop_token-HasEnd : (ts : List Token) → HasEnd ts → HasEnd (drop_token ts)
unfolding drop_token
drop_token-HasEnd [] h = h
drop_token-HasEnd (tok_end ∷ ts) h = h
drop_token-HasEnd (_ ∷ ts) (inl e) = cc
drop_token-HasEnd (_ ∷ ts) (inr h) = h

pub drop_token-lt : (ts : List Token) → head_token ts ≢ tok_end → length (drop_token ts) < length ts
unfolding drop_token head_token
drop_token-lt [] h = absurd (h refl)
drop_token-lt (tok_end ∷ ts) h = absurd (h refl)
drop_token-lt (_ ∷ ts) h = omega arith

pub head_token-ok : (ts : List Token) → All IsOkToken ts → IsOkToken (head_token ts)
unfolding head_token
head_token-ok [] h = tt
head_token-ok (t ∷ ts) h = h.0

pub Step-advance : (s : State) → Step s (p_advance s)
unfolding p_advance
Step-advance s = record {
  shorter = drop_token-shorter s.rest;
  tokens_ok = drop_token-ok s.rest;
  ends = drop_token-HasEnd s.rest;
  kept = λ e h. h;
  pool = λ h. h;
}

Step-fail : (s : State) (e : Error) → Step s (df_fail s e)
unfolding df_fail
Step-fail s e = record {
  shorter = omega arith;
  tokens_ok = λ h. h;
  ends = λ h. h;
  kept = λ e' h. rw h;
  pool = λ h. h;
}

failed-df_fail : (s : State) (e : Error) → (df_fail s e).failed ≢ none
unfolding df_fail
failed-df_fail s e = ground arith

Refused : (P : Node → Type 0) (s : State) (e : Error) → GoodFor P s (refused s e)
Refused P s e = record { after = Step-fail s e; whole = λ h. absurd (failed-df_fail s e h) }

pub refused-Good : (s : State) (e : Error) → Good s (refused s e)
refused-Good = Refused IsWellTyped

pub mk_node-Good :
    (P : Node → Type 0) (s : State) (n : Node) → (s.failed ≡ none → P n) → GoodFor P s (mk_node s n)
unfolding mk_node
mk_node-Good P s n wf = go s.failed refl
  where
    go :
        (o : Option Error)
        → s.failed ≡ o
        → GoodFor P s (elim o [
          | some e ↦ (null, s)
          | none ↦
              if leb df_max_nodes s.count
              then refused s too_complex
              else (n, record s { count = s.count + 1 })
        ])
    go (some x) e = record { after = Step-refl s; whole = λ h. cc }
    go none e =
        if_elim (GoodFor P s) (leb df_max_nodes s.count) (λ _. Refused P s too_complex)
          λ room. record {
            after = record {
              shorter = omega arith;
              tokens_ok = λ h. h;
              ends = λ h. h;
              kept = λ x h. h;
              pool = λ h. omega (arith, leb→lt df_max_nodes s.count room);
            };
            whole = λ h. wf e;
          }

pub Good-after :
    {P : Node → Type 0} {s t : State} {p : Parsed} → Step s t → GoodFor P t p → GoodFor P s p
Good-after a g = record { after = Step-trans a g.after; whole = g.whole }

module _ (s : State) {p q : Parsed} (left : Good s p) (right : Good p.1 q) where
  pub and-Good : Good s (mk_node q.1 (and_node p.0 q.0))
  and-Good = Good-after (Step-trans left.after right.after) (
      mk_node-Good IsWellTyped q.1 (and_node p.0 q.0)
        λ h. (left.whole (back right.after h), right.whole h))

  pub or-Good : Good s (mk_node q.1 (or_node p.0 q.0))
  or-Good = Good-after (Step-trans left.after right.after) (
      mk_node-Good IsWellTyped q.1 (or_node p.0 q.0)
        λ h. (left.whole (back right.after h), right.whole h))
