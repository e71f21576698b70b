-- ===== src/Common/Threads/Stop.antt =====
-- `CPktHandleThread::Stop()`, and the join in it.
use mathlib.Core.Path.{subst}
use serverlib.Prelude.{
  ℕ, zero, suc, ◌≤◌, ◌≡◌, refl, false, List, [], ◌∷◌, ◌++◌, Option, length, take, drop,
  append_assoc, append-nil, arith,
}
use serverlib.Common.Threads.Order.{in_hand, claimed}
use serverlib.Common.Threads.Progress.{Reaches, here, next, Reaches-trans, at, takes_claimed}
use serverlib.Common.Threads.{
  PktData, PktHandleThread, Pc, testing, waiting, ended, sized, taking, handling, stop, work,
}

-- How many packets a thread still takes once it is told to stop: one that waits looks once more.
abbrev pub last_taken : Pc → List PktData → ℕ
last_taken waiting queue = length queue
last_taken (sized n) queue = n
last_taken (taking n) queue = n
last_taken (handling n p) queue = n
last_taken testing queue = 0
last_taken ended queue = 0

-- What the join waits for: the thread has ended, has handled what it had in hand and took, and left
-- the rest.
abbrev pub Joins : PktHandleThread → PktHandleThread → Type 0
Joins t u =
    Reaches (stop t) u
    × (u.pc ≡ ended)
    × (u.handled ≡ t.handled ++ (in_hand t.pc ++ take (last_taken t.pc t.queue) t.queue))
    × (u.queue ≡ drop (last_taken t.pc t.queue) t.queue)

module _ (handle : Option ℕ) where
  ends_testing :
      (queue handled : List PktData)
      → Reaches (at handle false queue testing handled) (at handle false queue ended handled)
  unfolding work
  ends_testing queue handled = next _ _ (here _)

  ends_taking :
      (n : ℕ) (queue handled : List PktData)
      → n ≤ length queue
      → Reaches
          (at handle false queue (taking n) handled)
          (at handle false (drop n queue) ended (handled ++ take n queue))
  unfolding work
  ends_taking n queue handled h =
      Reaches-trans (takes_claimed handle false n queue handled h)
        (next _ _ (ends_testing (drop n queue) (handled ++ take n queue)))

  ends_sized :
      (n : ℕ) (queue handled : List PktData)
      → n ≤ length queue
      → Reaches
          (at handle false queue (sized n) handled)
          (at handle false (drop n queue) ended (handled ++ take n queue))
  unfolding work
  ends_sized zero queue handled h = next _ _ (ends_taking 0 queue handled h)
  ends_sized (suc n) queue handled h = next _ _ (ends_taking (suc n) queue handled h)

  joined :
      (pc : Pc) (queue handled : List PktData)
      → claimed pc ≤ length queue
      → Reaches (at handle false queue pc handled) (
          at handle false
            (drop (last_taken pc queue) queue)
            ended
            (handled ++ (in_hand pc ++ take (last_taken pc queue) queue)))
  unfolding work
  joined testing queue handled h = rw (append-nil handled) (ends_testing queue handled)
  joined ended queue handled h = rw (append-nil handled) (here _)
  joined waiting queue handled h = next _ _ (ends_sized (length queue) queue handled (omega arith))
  joined (sized n) queue handled h = ends_sized n queue handled h
  joined (taking n) queue handled h = ends_taking n queue handled h
  joined (handling n p) queue handled h =
      subst
        (λ (done : List PktData).
          Reaches (at handle false queue (handling n p) handled)
            (at handle false (drop n queue) ended done))
        (append_assoc handled (p ∷ []) (take n queue))
        (next _ _ (ends_taking n queue (handled ++ p ∷ []) h))

-- A thread that is about to take no more than is queued, and is told to stop, ends by its own
-- steps: the join returns. By then it has handled the packet in hand and those that it was about to
-- take, which are all that are queued if it waited, and the rest is left in the queue.
pub stop-Joins :
    (t : PktHandleThread) → claimed t.pc ≤ length t.queue → (u : PktHandleThread) × Joins t u
unfolding stop
stop-Joins t h = (_, (joined t.data_handle t.pc t.queue t.handled h, refl, refl, refl))
