-- ===== src/Queue/Fifo.antt =====
-- What src/cpp/packet_queue.h promises of the queue.
use my_wireshark.Base.{
  ◌>>=◌, ℕ, ◌≤◌, ◌<◌, ◌≡◌, ◌≢◌, refl, sym, ap, subst, ◌∙◌, Bool, true, false, ◌||◌, List, [], ◌∷◌,
  ◌++◌, Option, none, some, arith, ltb, ltb→lt, ltb→le, if◌then◌else◌, length, length-append,
  append_assoc, append-nil,
}
use my_wireshark.Queue.{
  CapturedFrame, PacketQueue, push, pop, pop_front, close, Call, push_call, pop_call, close_call,
  History, one, perform, perform_all, fresh,
}

-- The frames taken in are those given out and then those in the queue, which is within its bound.
pub record IsFifo (n : ℕ) (w : History) : Type 0 where
  pub order : w.taken ≡ w.given ++ w.state.queue
  pub bound : length w.state.queue ≤ n
  pub size : w.state.max_size ≡ n

module _ (n : ℕ) where
  -- Of a call that has to wait nothing is said.
  abbrev Kept : Option History → Type 0
  Kept none = Unit
  Kept (some w) = IsFifo n w

  push-Kept :
      (w : History) (frame : CapturedFrame) → IsFifo n w → Kept (perform (push_call frame) w)
  unfolding perform push
  push-Kept w frame i = go (ltb (length w.state.queue) w.state.max_size) w.state.closed refl
    where
      go :
          (b c : Bool)
          → ltb (length w.state.queue) w.state.max_size ≡ b
          → Kept (
              (if b || c
                then (if c
                    then some w.state
                    else some (record w.state { queue = w.state.queue ++ frame ∷ [] }))
                else none)
              >>= λ q. some (record {
                state = q;
                taken = if c then w.taken else w.taken ++ frame ∷ [];
                given = w.given;
              }))
      go true true e = record { order = i.order; bound = i.bound; size = i.size }
      go false true e = record { order = i.order; bound = i.bound; size = i.size }
      go true false e = record {
        order = ap (λ t. t ++ frame ∷ []) i.order ∙ append_assoc w.given w.state.queue (frame ∷ []);
        bound = omega (
          arith,
          length-append w.state.queue (frame ∷ []),
          ltb→lt (length w.state.queue) w.state.max_size e,
          i.size,
        );
        size = i.size;
      }
      go false false e = tt

  pop-Kept : (w : History) → IsFifo n w → Kept (perform pop_call w)
  unfolding perform pop
  pop-Kept w i = go w.state.queue w.state.closed i.order i.bound
    where
      go :
          (xs : List CapturedFrame) (c : Bool)
          → w.taken ≡ w.given ++ xs
          → length xs ≤ n
          → Kept (
              pop_front (record w.state { queue = xs; closed = c }) xs >>= λ (out, q).
              some (record { state = q; taken = w.taken; given = w.given ++ one out }))
      go [] true o b = record {
        order = o ∙ sym (append-nil (w.given ++ []));
        bound = b;
        size = i.size;
      }
      go [] false o b = tt
      go (x ∷ xs) c o b = record {
        order = o ∙ sym (append_assoc w.given (x ∷ []) xs);
        bound = omega arith;
        size = i.size;
      }

  perform-Kept : (c : Call) (w : History) → IsFifo n w → Kept (perform c w)
  unfolding perform close
  perform-Kept (push_call frame) w i = push-Kept w frame i
  perform-Kept pop_call w i = pop-Kept w i
  perform-Kept close_call w i = record { order = i.order; bound = i.bound; size = i.size }

  perform_all-Kept : (cs : List Call) (w : History) → IsFifo n w → Kept (perform_all cs w)
  unfolding perform_all
  perform_all-Kept [] w i = i
  perform_all-Kept (c ∷ cs) w i = go (perform c w) (perform-Kept c w i) (perform_all-Kept cs)
    where
      go :
          (o : Option History)
          → Kept o
          → ((w' : History) → IsFifo n w' → Kept (perform_all cs w'))
          → Kept (o >>= perform_all cs)
      go none k f = tt
      go (some w') k f = f w' k

-- After any sequence of calls on a new queue, the frames taken in are those given out and then those
-- in the queue, in their order, and the queue is within its bound.
pub perform_all-fifo :
    (n : ℕ) (cs : List Call) {w : History}
    → perform_all cs (fresh n) ≡ some w
    → (w.taken ≡ w.given ++ w.state.queue) × (length w.state.queue ≤ n)
perform_all-fifo n cs {w} e =
    let i = subst (Kept n) e (
      perform_all-Kept n cs (fresh n)
        (record { order = refl; bound = omega arith; size = refl })) in
    (i.order, i.bound)

-- No deadlock: of a queue with a positive bound, whose push has to wait, a pop has not to wait.
pub push-pop-wait :
    (q : PacketQueue) (frame : CapturedFrame) → 0 < q.max_size → push q frame ≡ none → pop q ≢ none
unfolding push pop
push-pop-wait q frame h e = go q.queue q.closed (ltb (length q.queue) q.max_size) refl e
  where
    go :
        (xs : List CapturedFrame) (c b : Bool)
        → ltb (length xs) q.max_size ≡ b
        → (if b || c
            then (if c then some q else some (record q { queue = q.queue ++ frame ∷ [] }))
            else none)
          ≡ none
        → pop_front (record q { queue = xs; closed = c }) xs ≢ none
    go xs true true r k = cc
    go xs true false r k = cc
    go xs false true r k = cc
    go [] false false r k = absurd (omega (arith, ltb→le 0 q.max_size r))
    go (x ∷ xs) false false r k = λ z. cc
