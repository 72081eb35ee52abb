-- ===== src/Pipeline/Order.antt =====
-- Whatever turns the threads of src/main.cpp get, no frame is lost, doubled or moved.
use mathlib.Core.List.{map-append}
use my_wireshark.Base.{
  ℕ, ◌≤◌, ◌≡◌, refl, sym, ap, ◌∙◌, List, [], ◌∷◌, ◌++◌, map, Option, none, some, arith, length, All,
}
use my_wireshark.Capture.{Frame}
use my_wireshark.Disp.Node.{Node}
use my_wireshark.Printer.Decode.{IsFilter}
use my_wireshark.Pipeline.{
  captured, Threads, Turn, moved, waits, over, broken, Thread, turn, after, run_threads, started,
}
use my_wireshark.Pipeline.Underway.{IsCaught, Prints, work, IsUnderway, Goes}
use my_wireshark.Pipeline.Steps.{turn-Goes}

-- The frames are those that were printed, in their order, then those in the queue and then those
-- ahead.
pub record Accounts (filter : Option Node) (max_size : ℕ) (frames : List Frame) (p : Threads)
    : Type 0 where
  pub done : List Frame
  pub prints : Prints filter 0 done p.printed
  pub total : map captured frames ≡ map captured done ++ (p.buffer.queue ++ map captured p.ahead)
  pub bound : length p.buffer.queue ≤ max_size

module _ (filter : Option Node) (typed : IsFilter filter) (max_size : ℕ) (frames : List Frame)
    (caught : All IsCaught frames) where
  pub started-IsUnderway : IsUnderway filter max_size frames (started max_size filter frames)
  started-IsUnderway = record {
    done = [];
    queued = [];
    order = refl;
    queue_holds = refl;
    bound = omega arith;
    size = refl;
    closing = refl;
    prints = tt;
    count = refl;
    filter_kept = refl;
    caught_queued = tt;
    caught_ahead = caught;
    none_ahead = λ h. cc;
    none_queued = λ h. cc;
  }

  -- After a turn the invariant holds, and no more turns are left than before.
  pub after-IsUnderway :
      (p : Threads) (r : Turn)
      → IsUnderway filter max_size frames p
      → Goes filter max_size frames p r
      → (p' : Threads) × (after p r ≡ some p')
        × IsUnderway filter max_size frames p'
        × (work p' ≤ work p)
  after-IsUnderway p (moved p') i (g, l) = (p', refl, g, omega (arith, l))
  after-IsUnderway p waits i g = (p, refl, i, omega arith)
  after-IsUnderway p over i g = (p, refl, i, omega arith)
  after-IsUnderway p broken i g = absurd g

  pub run_threads-IsUnderway :
      (ts : List Thread) (p : Threads)
      → IsUnderway filter max_size frames p
      → (p' : Threads) × (run_threads ts p ≡ some p')
        × IsUnderway filter max_size frames p'
        × (work p' ≤ work p)
  unfolding run_threads
  run_threads-IsUnderway [] p i = (p, refl, i, omega arith)
  run_threads-IsUnderway (t ∷ ts) p i =
      let (p₁, e, i₁, l) =
        after-IsUnderway p (turn t p) i (turn-Goes filter typed max_size frames t p i) in
      let (p₂, q, i₂, m) = run_threads-IsUnderway ts p₁ i₁ in
      (
        p₂,
        ap (λ (o : Option Threads). elim o [ none ↦ none | some p' ↦ run_threads ts p' ]) e ∙ q,
        i₂,
        omega (arith, l, m),
      )

  pub IsUnderway-Accounts :
      (p : Threads) → IsUnderway filter max_size frames p → Accounts filter max_size frames p
  IsUnderway-Accounts p i = record {
    done = i.done;
    prints = i.prints;
    total =
        ap (map captured) i.order
        ∙ map-append captured i.done (i.queued ++ p.ahead)
        ∙ ap (λ (q : List _). map captured i.done ++ q)
            (map-append captured i.queued p.ahead
              ∙ ap (λ (q : List _). q ++ map captured p.ahead) (sym i.queue_holds));
    bound = i.bound;
  }

  -- The capture thread and the main thread take turns in any order, on frames of up to 65536
  -- bytes. Then no print reads outside a frame, the queue is within its bound, and the frames are
  -- those printed so far, those in the queue and those still ahead, in this order: the main thread
  -- has printed each of the first ones once, numbered from 1 on in 64 bits, as `print_packet`
  -- shows it.
  pub run_threads-Accounts :
      (ts : List Thread)
      → (p : Threads) × (run_threads ts (started max_size filter frames) ≡ some p)
        × Accounts filter max_size frames p
  run_threads-Accounts ts =
      let (p, e, i, _) =
        run_threads-IsUnderway ts (started max_size filter frames) started-IsUnderway in
      (p, e, IsUnderway-Accounts p i)
