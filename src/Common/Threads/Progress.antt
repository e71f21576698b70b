-- ===== src/Common/Threads/Progress.antt =====
-- The steps of a `CPktHandleThread` that runs and is not held up.
use mathlib.Core.Path.{subst}
use serverlib.Prelude.{
  ℕ, zero, suc, ◌≤◌, ◌≡◌, ◌≢◌, refl, sym, ap, ◌∙◌, Bool, true, List, [], ◌∷◌, ◌++◌, Option, length,
  take, drop, length-take, take-append-drop, append_assoc, append-nil, arith,
}
use serverlib.Common.Threads.Order.{in_hand, claimed}
use serverlib.Common.Threads.{
  PktData, PktHandleThread, Pc, testing, waiting, ended, sized, taking, handling, take_pkt, work,
  handle_pkt,
}

-- `u` is where the steps of the thread lead from `t`, with no other thread between them.
pub data Reaches : PktHandleThread → PktHandleThread → Type 0 where
  here : (t : PktHandleThread) → Reaches t t
  next : (t u : PktHandleThread) → Reaches (handle_pkt t) u → Reaches t u

pub Reaches-trans : {t u w : PktHandleThread} → Reaches t u → Reaches u w → Reaches t w
Reaches-trans (here t) r = r
Reaches-trans {w = w} (next t u q) r = next t w (Reaches-trans q r)

abbrev pub at : Option ℕ → Bool → List PktData → Pc → List PktData → PktHandleThread
at handle running queue pc handled = record {
  data_handle = handle;
  running = running;
  queue = queue;
  pc = pc;
  handled = handled;
}

module _ (handle : Option ℕ) (running : Bool) where
  -- The packets that it is about to take are handled, whatever else is queued.
  takes :
      (xs ys handled : List PktData)
      → Reaches
          (at handle running (xs ++ ys) (taking (length xs)) handled)
          (at handle running ys (taking 0) (handled ++ xs))
  unfolding work take_pkt
  takes [] ys handled = rw (append-nil handled) (here (at handle running ys (taking 0) handled))
  takes (x ∷ xs) ys handled = next _ _ (
      next _ _ (
        subst
          (λ (done : List PktData).
            Reaches (at handle running (xs ++ ys) (taking (length xs)) (handled ++ x ∷ []))
              (at handle running ys (taking 0) done))
          (append_assoc handled (x ∷ []) xs) (takes xs ys (handled ++ x ∷ []))))

  -- So too from the reading of the queue's size on.
  pub takes_claimed :
      (n : ℕ) (queue handled : List PktData)
      → n ≤ length queue
      → Reaches
          (at handle running queue (taking n) handled)
          (at handle running (drop n queue) (taking 0) (handled ++ take n queue))
  takes_claimed n queue handled h =
      subst
        (λ (k : ℕ).
          Reaches (at handle running queue (taking k) handled)
            (at handle running (drop n queue) (taking 0) (handled ++ take n queue)))
        (length-take n queue ∙ omega arith)
        (subst
          (λ (q : List PktData).
            Reaches (at handle running q (taking (length (take n queue))) handled)
              (at handle running (drop n queue) (taking 0) (handled ++ take n queue)))
          (take-append-drop n queue) (takes (take n queue) (drop n queue) handled))

-- What a running thread comes to: an empty queue, with all of it handled.
abbrev pub Empties : PktHandleThread → Type 0
Empties t =
    (u : PktHandleThread) × Reaches t u
    × (u.queue ≡ [])
    × (u.handled ≡ t.handled ++ (in_hand t.pc ++ t.queue))

from_sized :
    (handle : Option ℕ) (x : PktData) (xs handled : List PktData)
    → Reaches
        (at handle true (x ∷ xs) (sized (length (x ∷ xs))) handled)
        (at handle true [] (taking 0) (handled ++ x ∷ xs))
unfolding work
from_sized handle x xs handled = next _ _ (
    subst
      (λ (q : List PktData).
        Reaches (at handle true q (taking (length (x ∷ xs))) handled)
          (at handle true [] (taking 0) (handled ++ x ∷ xs)))
      (append-nil (x ∷ xs)) (takes handle true (x ∷ xs) [] handled))

from_test :
    (handle : Option ℕ) (queue handled : List PktData)
    → Empties (at handle true queue testing handled)
unfolding work
from_test handle [] handled = (_, here _, refl, sym (append-nil handled))
from_test handle (x ∷ xs) handled = (_, next _ _ (from_sized handle x xs handled), refl, refl)

Empties-before :
    (t t' : PktHandleThread)
    → Reaches t t'
    → t'.handled ++ (in_hand t'.pc ++ t'.queue) ≡ t.handled ++ (in_hand t.pc ++ t.queue)
    → Empties t'
    → Empties t
Empties-before t t' r e (u, r', q, h) = (u, Reaches-trans r r', q, h ∙ e)

from_taking :
    (handle : Option ℕ) (n : ℕ) (queue handled : List PktData)
    → n ≤ length queue
    → Empties (at handle true queue (taking n) handled)
unfolding work
from_taking handle n queue handled h =
    Empties-before (at handle true queue (taking n) handled)
      (at handle true (drop n queue) testing (handled ++ take n queue))
      (Reaches-trans (takes_claimed handle true n queue handled h) (next _ _ (here _)))
      (append_assoc handled (take n queue) (drop n queue)
        ∙ ap (◌++◌ handled) (take-append-drop n queue))
      (from_test handle (drop n queue) (handled ++ take n queue))

from_pc :
    (handle : Option ℕ) (pc : Pc) (queue handled : List PktData)
    → pc ≢ ended
    → claimed pc ≤ length queue
    → Empties (at handle true queue pc handled)
unfolding work
from_pc handle testing queue handled alive h = from_test handle queue handled
from_pc handle waiting [] handled alive h = (_, here _, refl, sym (append-nil handled))
from_pc handle waiting (x ∷ xs) handled alive h =
    (_, next _ _ (from_sized handle x xs handled), refl, refl)
from_pc handle (sized zero) [] handled alive h = (_, here _, refl, sym (append-nil handled))
from_pc handle (sized zero) (x ∷ xs) handled alive h =
    (_, next _ _ (next _ _ (from_sized handle x xs handled)), refl, refl)
from_pc handle (sized (suc n)) queue handled alive h =
    let (u, r, q, e) = from_taking handle (suc n) queue handled h in (u, next _ _ r, q, e)
from_pc handle (taking n) queue handled alive h = from_taking handle n queue handled h
from_pc handle (handling n p) queue handled alive h =
    Empties-before (at handle true queue (handling n p) handled)
      (at handle true queue (taking n) (handled ++ p ∷ [])) (next _ _ (here _))
      (append_assoc handled (p ∷ []) queue) (from_taking handle n queue (handled ++ p ∷ []) h)
from_pc handle ended queue handled alive h = absurd (alive refl)

-- A running thread, not at its end, that is about to take no more than is queued and is not held up
-- comes, by its own steps, to an empty queue, having handled the
-- packet in hand and then all that was queued, in order.
pub handle_pkt-Empties :
    (t : PktHandleThread)
    → t.running ≡ true
    → t.pc ≢ ended
    → claimed t.pc ≤ length t.queue
    → Empties t
handle_pkt-Empties t runs alive h =
    subst (λ (r : Bool). Empties (at t.data_handle r t.queue t.pc t.handled)) (sym runs)
      (from_pc t.data_handle t.pc t.queue t.handled alive h)
