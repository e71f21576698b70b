-- ===== src/Common/Threads/Order.antt =====
-- The steps of `CPktHandleThread` among those of the other threads.
use mathlib.Core.Path.{subst}
use serverlib.Prelude.{
  ℕ, zero, suc, ◌≤◌, ◌≡◌, refl, sym, ap, ◌∙◌, List-cases, inl, inr, List, [], ◌∷◌, ◌++◌, Option,
  length, append_assoc, append-nil, length-append, arith,
}
use serverlib.Common.Threads.{
  PktData, PktHandleThread, Pc, testing, waiting, ended, sized, taking, handling, new_thread, init,
  stop, add_pkt, take_pkt, work, handle_pkt,
}

-- A step of the thread, or one of the others'.
pub data Action : Type 0 where
  works stops : Action
  adds : PktData → Action

unfoldable pub act : PktHandleThread → Action → PktHandleThread
act t works = handle_pkt t
act t stops = stop t
act t (adds p) = add_pkt p t

pub acts : PktHandleThread → List Action → PktHandleThread
acts t [] = t
acts t (a ∷ actions) = acts (act t a) actions

-- The packets that a schedule adds, in order.
abbrev pub added : List Action → List PktData
added [] = []
added (adds p ∷ actions) = p ∷ added actions
added (works ∷ actions) = added actions
added (stops ∷ actions) = added actions

-- The packet that the handler has been called with.
abbrev pub in_hand : Pc → List PktData
in_hand (handling n p) = p ∷ []
in_hand testing = []
in_hand waiting = []
in_hand ended = []
in_hand (sized n) = []
in_hand (taking n) = []

-- How many packets the thread is about to take without looking.
abbrev pub claimed : Pc → ℕ
claimed (sized n) = n
claimed (taking n) = n
claimed (handling n p) = n
claimed testing = 0
claimed waiting = 0
claimed ended = 0

pub record IsThread (total : List PktData) (t : PktHandleThread) : Type 0 where
  pub kept : t.handled ++ (in_hand t.pc ++ t.queue) ≡ total
  pub enough : claimed t.pc ≤ length t.queue

added-cons :
    (a : Action) (actions : List Action) → added (a ∷ []) ++ added actions ≡ added (a ∷ actions)
added-cons works actions = refl
added-cons stops actions = refl
added-cons (adds p) actions = refl

pub work-IsThread :
    (total : List PktData) (pc : Pc) (t : PktHandleThread)
    → t.pc ≡ pc
    → IsThread total t
    → IsThread total (work pc t)
unfolding work take_pkt
work-IsThread total testing t e v = ground arith
work-IsThread total (sized zero) t e v = ground arith
work-IsThread total (sized (suc n)) t e v = ground arith
work-IsThread total waiting t e v = ground arith
work-IsThread total ended t e v = v
work-IsThread total (taking zero) t e v = ground arith
work-IsThread total (taking (suc n)) t e v = elim (List-cases t.queue) [
  | inl none ↦ absurd (omega (arith, ap length none, ap claimed e))
  | inr (p, rest, some) ↦
      rw (some, take_pkt)
        (record {
          kept =
              ap (◌++◌ t.handled) (sym some)
              ∙ ap (λ (pc : Pc). t.handled ++ (in_hand pc ++ t.queue)) (sym e)
              ∙ v.kept;
          enough = omega (arith, ap length some, ap claimed e);
        })
]
work-IsThread total (handling n p) t e v = record {
  kept =
      append_assoc t.handled (p ∷ []) t.queue
      ∙ ap (λ (pc : Pc). t.handled ++ (in_hand pc ++ t.queue)) (sym e)
      ∙ v.kept;
  enough = omega (arith, ap claimed e);
}

pub act-IsThread :
    (total : List PktData) (t : PktHandleThread) (a : Action)
    → IsThread total t
    → IsThread (total ++ added (a ∷ [])) (act t a)
unfolding act stop add_pkt
act-IsThread total t works v = rw append-nil (work-IsThread total t.pc t refl v)
act-IsThread total t stops v = rw append-nil (record { kept = v.kept; enough = v.enough })
act-IsThread total t (adds p) v = record {
  kept =
      ap (◌++◌ t.handled) (sym (append_assoc (in_hand t.pc) t.queue (p ∷ [])))
      ∙ sym (append_assoc t.handled (in_hand t.pc ++ t.queue) (p ∷ []))
      ∙ ap (λ (xs : List PktData). xs ++ p ∷ []) v.kept;
  enough = omega (arith, v.enough, length-append t.queue (p ∷ []));
}

acts_from :
    (total : List PktData) (t : PktHandleThread) (actions : List Action)
    → IsThread total t
    → IsThread (total ++ added actions) (acts t actions)
unfolding acts
acts_from total t [] v = rw append-nil v
acts_from total t (a ∷ actions) v =
    subst (λ (xs : List PktData). IsThread xs (acts (act t a) actions))
      (append_assoc total (added (a ∷ [])) (added actions) ∙ ap (◌++◌ total) (added-cons a actions))
      (acts_from (total ++ added (a ∷ [])) (act t a) actions (act-IsThread total t a v))

-- A thread that is started has handled, has in hand and has queued, in this order, exactly the
-- packets that were added, in the order in which they were; and it never takes from an empty queue.
pub acts-IsThread :
    (handle : Option ℕ) (actions : List Action)
    → IsThread (added actions) (acts (init handle new_thread) actions)
unfolding init new_thread
acts-IsThread handle actions =
    acts_from [] (init handle new_thread) actions (record { kept = refl; enough = omega arith })
