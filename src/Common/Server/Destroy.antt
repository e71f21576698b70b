-- ===== src/Common/Server/Destroy.antt =====
-- The body of `~CCommonServer`: `delete []` destroys the threads from the last to the first, and
-- `~CPktHandleThread` stops each and joins it, while those before it go on.
use serverlib.Prelude.{◌≡◌, ◌≢◌, ℕ_discrete, refl, sym, ap, ◌∙◌, List, [], ◌∷◌, ◌++◌, length, arith}
use serverlib.Common.Threads.{PktData, PktHandleThread, Pc, ended, stop}
use serverlib.Common.Threads.Order.{in_hand, IsThread, work-IsThread}
use serverlib.Common.Threads.Progress.{Reaches, here, next}
use serverlib.Common.Threads.Stop.{stop-Joins}
use serverlib.Common.Server.{Dispatcher}
use serverlib.Common.Server.Receive.{HasThreads}
use serverlib.Common.Server.Held.{held, AllClaim}

-- The threads, and how `delete []` leaves them. The last is joined while the others take any steps,
-- and then those are deleted.
pub data Deletes : List PktHandleThread → List PktHandleThread → Type 0 where
  none_left : Deletes [] []
  last_first :
      (t t' u : PktHandleThread) (ts us : List PktHandleThread)
      → Deletes ts us
      → Reaches t t'
      → Reaches (stop t') u
      → u.pc ≡ ended
      → Deletes (t ∷ ts) (u ∷ us)

-- Each thread has ended, and what it had handled, in hand and queued is handled, in order, or left.
abbrev pub AllKept : List PktHandleThread → List PktHandleThread → Type 0
AllKept [] [] = Unit {0}
AllKept (t ∷ ts) (u ∷ us) = (u.pc ≡ ended) × (u.handled ++ u.queue ≡ held t) × AllKept ts us
AllKept [] (u ∷ us) = ⊥
AllKept (t ∷ ts) [] = ⊥

-- The body of `~CCommonServer()`: without threads it does nothing. What the destructor of the base
-- class does after it, to the connections that are left, is no part of it.
pub data Destroys : Dispatcher → Dispatcher → Type 0 where
  no_threads : (d : Dispatcher) → d.thread_num ≡ 0 → Destroys d d
  with_threads :
      (d : Dispatcher) (us : List PktHandleThread)
      → d.thread_num ≢ 0
      → Deletes d.threads us
      → Destroys d (record d { threads = us })

Reaches-IsThread :
    {total : List PktData} {t u : PktHandleThread}
    → Reaches t u
    → IsThread total t
    → IsThread total u
Reaches-IsThread (here t) v = v
Reaches-IsThread {total = total} (next t u steps) v =
    Reaches-IsThread steps (work-IsThread total t.pc t refl v)

stop-IsThread :
    (total : List PktData) (t : PktHandleThread) → IsThread total t → IsThread total (stop t)
unfolding stop
stop-IsThread total t v = record { kept = v.kept; enough = v.enough }

ended-kept :
    (total : List PktData) (u : PktHandleThread)
    → u.pc ≡ ended
    → IsThread total u
    → u.handled ++ u.queue ≡ total
ended-kept total u e v = ap (λ (pc : Pc). u.handled ++ (in_hand pc ++ u.queue)) (sym e) ∙ v.kept

Deletes-AllKept : {ts us : List PktHandleThread} → Deletes ts us → AllClaim ts → AllKept ts us
Deletes-AllKept none_left h = tt
Deletes-AllKept (last_first t t' u ts us d before after e) h = (
  e,
  ended-kept (held t) u e (
      Reaches-IsThread after (
        stop-IsThread (held t) t'
          (Reaches-IsThread before (record { kept = refl; enough = h.0 })))),
  Deletes-AllKept d h.1,
)

AllKept-nil : (ts : List PktHandleThread) → length ts ≡ 0 → AllKept ts ts
AllKept-nil [] h = tt
AllKept-nil (t ∷ ts) h = absurd (omega (arith, h))

-- However a destructor of a server with as many threads as it believes, none of which is about to
-- take more than is queued, ends: each thread has ended, and what it had handled, in hand and
-- queued it has handled up to some point, in order, and the rest is left in its queue.
pub Destroys-AllKept :
    (d d' : Dispatcher)
    → HasThreads d
    → AllClaim d.threads
    → Destroys d d'
    → AllKept d.threads d'.threads
Destroys-AllKept _ _ h claims (no_threads d alone) = AllKept-nil d.threads (h ∙ alone)
Destroys-AllKept _ _ h claims (with_threads d us more deletes) = Deletes-AllKept deletes claims

threads-Deletes :
    (ts : List PktHandleThread) → AllClaim ts → (us : List PktHandleThread) × Deletes ts us
threads-Deletes [] h = ([], none_left)
threads-Deletes (t ∷ ts) h =
    let (us, d) = threads-Deletes ts h.1 in
    let (u, j) = stop-Joins t h.0 in (u ∷ us, last_first t t u ts us d (here t) j.0 j.1)

-- If no thread is about to take more than is queued, the destructor ends: every join returns.
pub destructor-Destroys : (d : Dispatcher) → AllClaim d.threads → (d' : Dispatcher) × Destroys d d'
destructor-Destroys d claims = elim (ℕ_discrete d.thread_num 0) [
  | yes alone ↦ (d, no_threads d alone)
  | no more ↦
      let (us, deletes) = threads-Deletes d.threads claims in
      (record d { threads = us }, with_threads d us more deletes)
]
