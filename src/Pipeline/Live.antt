-- ===== src/Pipeline/Live.antt =====
-- The threads of src/main.cpp come to an end, with every frame printed.
use mathlib.Core.List.{Memᴰ}
use my_wireshark.Base.{
  ℕ, ◌+◌, ◌*◌, ◌≤◌, ◌<◌, ◌≡◌, refl, sym, ap, ap₂, ◌∙◌, ◌⊎◌, inl, inr, subst, List, [], ◌∷◌, ◌++◌,
  map, append-nil, Option, none, some, arith, length, All,
}
use my_wireshark.Capture.{Frame}
use my_wireshark.Disp.Node.{Node}
use my_wireshark.Printer.Decode.{IsFilter}
use my_wireshark.Pipeline.{
  captured, Threads, Turn, moved, waits, over, broken, capture_turn, main_turn, Thread,
  capture_thread, main_thread, turn, after, run_threads, started, IsOver,
}
use my_wireshark.Pipeline.Underway.{IsCaught, Prints, work, IsUnderway, Goes}
use my_wireshark.Pipeline.Steps.{turn-Goes}
use my_wireshark.Pipeline.Moves.{IsMove, progress}
use my_wireshark.Pipeline.Order.{started-IsUnderway, run_threads-IsUnderway}

-- A round in which each thread gets a turn, beside any others.
abbrev pub IsFair : List Thread → Type 0
IsFair ts = Memᴰ capture_thread ts × Memᴰ main_thread ts

-- The rounds one after the other.
abbrev pub schedule : List (List Thread) → List Thread
schedule [] = []
schedule (r ∷ rs) = r ++ schedule rs

run_threads-append :
    (ts us : List Thread) (p : Threads) {p' : Threads}
    → run_threads ts p ≡ some p'
    → run_threads (ts ++ us) p ≡ run_threads us p'
unfolding run_threads
run_threads-append [] us p e = cc
run_threads-append (t ∷ ts) us p {p'} e =
    go (after p (turn t p)) e (λ p₁. run_threads-append ts us p₁)
  where
    go :
        (o : Option Threads)
        → (elim o [ none ↦ none | some p₁ ↦ run_threads ts p₁ ]) ≡ some p'
        → ((p₁ : Threads)
            → run_threads ts p₁ ≡ some p'
            → run_threads (ts ++ us) p₁ ≡ run_threads us p')
        → (elim o [ none ↦ none | some p₁ ↦ run_threads (ts ++ us) p₁ ]) ≡ run_threads us p'
    go none q ih = cc
    go (some p₁) q ih = ih p₁ q

module _ (filter : Option Node) (typed : IsFilter filter) (max_size : ℕ) (room : 0 < max_size)
    (frames : List Frame) (caught : All IsCaught frames) where
  abbrev Kept : Threads → Type 0
  Kept = IsUnderway filter max_size frames

  -- Once both have ended, a turn changes nothing.
  over-turn : (p : Threads) → Kept p → IsOver p → (t : Thread) → turn t p ≡ over
  unfolding turn capture_turn main_turn
  over-turn p i (x, y) capture_thread = rw (i.none_ahead x, x) refl
  over-turn p i (x, y) main_thread = rw (y) refl

  over-run_threads :
      (p : Threads) → Kept p → IsOver p → (ts : List Thread) → run_threads ts p ≡ some p
  unfolding run_threads
  over-run_threads p i o [] = refl
  over-run_threads p i o (t ∷ ts) =
      ap (λ (r : Turn). elim (after p r) [ none ↦ none | some p' ↦ run_threads ts p' ])
        (over-turn p i o t)
      ∙ over-run_threads p i o ts

  -- The threads go on to a state in which the invariant holds and fewer turns are left.
  abbrev Advances : Option Threads → Threads → Type 0
  Advances o p = (p' : Threads) × (o ≡ some p') × Kept p' × (work p' < work p)

  -- A thread that can move has moved, or another has, when its turn is over.
  run_threads-Advances :
      (t : Thread) (p : Threads)
      → Kept p
      → IsMove (turn t p)
      → (ts : List Thread) → Memᴰ t ts
      → Advances (run_threads ts p) p
  unfolding run_threads
  run_threads-Advances t p i m [] member = elim member [ ]
  run_threads-Advances t p i m (x ∷ ts) member =
      go (turn x p) refl (turn-Goes filter typed max_size frames x p i) member
        (run_threads-Advances t p i m ts)
    where
      moves : (p₁ : Threads) → Kept p₁ → work p₁ < work p → Advances (run_threads ts p₁) p
      moves p₁ k l =
          let (p₂, e, k₂, l₂) =
            run_threads-IsUnderway filter typed max_size frames caught ts p₁ k in
          (p₂, e, k₂, omega (arith, l, l₂))

      stays :
          (r : Turn)
          → turn x p ≡ r
          → (IsMove r → ⊥)
          → Memᴰ t (x ∷ ts)
          → (Memᴰ t ts → Advances (run_threads ts p) p)
          → Advances (run_threads ts p) p
      stays r q still (Memᴰ.head e) ih =
          absurd (still (subst IsMove (ap (λ (s : Thread). turn s p) e ∙ q) m))
      stays r q still (Memᴰ.tail k) ih = ih k

      go :
          (r : Turn)
          → turn x p ≡ r
          → Goes filter max_size frames p r
          → Memᴰ t (x ∷ ts)
          → (Memᴰ t ts → Advances (run_threads ts p) p)
          → Advances (elim (after p r) [ none ↦ none | some p' ↦ run_threads ts p' ]) p
      go (moved p₁) q (k, l) member ih = moves p₁ k l
      go waits q g member ih = stays waits q (λ h. h) member ih
      go over q g member ih = stays over q (λ h. h) member ih
      go broken q g member ih = absurd g

  -- Either thread can move, and each has a turn.
  fair-Advances :
      (p : Threads)
      → Kept p
      → (ts : List Thread) → IsFair ts
      → IsMove (turn capture_thread p) ⊎ IsMove (turn main_thread p)
      → Advances (run_threads ts p) p
  fair-Advances p i ts (c, m) (inl h) = run_threads-Advances capture_thread p i h ts c
  fair-Advances p i ts (c, m) (inr h) = run_threads-Advances main_thread p i h ts m

  abbrev Ends : Option Threads → Type 0
  Ends o = (p' : Threads) × (o ≡ some p') × Kept p' × IsOver p'

  rounds-Ends :
      (rs : List (List Thread)) (p : Threads)
      → Kept p
      → All IsFair rs
      → work p ≤ length rs
      → Ends (run_threads (schedule rs) p)
  rounds-Ends [] p i fair enough = elim (progress filter typed max_size room frames p i) [
    | inl o ↦ (p, over-run_threads p i o [], i, o)
    | inr h ↦
        let (p', _, _, l) =
          fair-Advances p i (capture_thread ∷ main_thread ∷ [])
            (Memᴰ.head refl, Memᴰ.tail (Memᴰ.head refl)) h in
        absurd (omega (arith, enough, l))
  ]
  rounds-Ends (r ∷ rs) p i (f, fair) enough =
      elim (progress filter typed max_size room frames p i) [
        | inl o ↦ (p, over-run_threads p i o (r ++ schedule rs), i, o)
        | inr h ↦
            let (p₁, e, k, l) = fair-Advances p i r f h in
            let (p₂, q, k₂, o) = rounds-Ends rs p₁ k fair (omega (arith, enough, l)) in
            (p₂, run_threads-append r (schedule rs) p e ∙ q, k₂, o)
      ]

  -- The queue has room for a frame, and the threads take turns in rounds in which each has at
  -- least one, for as many rounds as twice the frames, of up to 65536 bytes each, and two more.
  -- Then both threads have ended: the capture thread has closed the queue, nothing is in it, and
  -- the main thread has printed every frame once and in order, numbered from 1 on in 64 bits, as
  -- `print_packet` shows it.
  pub rounds-print :
      (rs : List (List Thread))
      → All IsFair rs
      → 2 * length frames + 2 ≤ length rs
      → (p : Threads) × (run_threads (schedule rs) (started max_size filter frames) ≡ some p)
        × IsOver p
        × (p.buffer.queue ≡ [])
        × Prints filter 0 frames p.printed
  rounds-print rs fair enough =
      let (p, e, i, o) =
        rounds-Ends rs (started max_size filter frames)
          (started-IsUnderway filter typed max_size frames caught) fair (omega (arith, enough)) in
      let printed_all : frames ≡ i.done =
        i.order
        ∙ ap₂ (λ (a b : List Frame). i.done ++ (a ++ b)) (i.none_queued o.1).1 (i.none_ahead o.0)
        ∙ append-nil i.done in
      (
        p,
        e,
        o,
        i.queue_holds ∙ ap (map captured) (i.none_queued o.1).1,
        subst (λ (fs : List Frame). Prints filter 0 fs p.printed) (sym printed_all) i.prints,
      )
