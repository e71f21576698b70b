-- ===== src/Common/Server/Turns.antt =====
-- A common server and its threads, in any interleaving: the loop's thread runs the server, and each
-- of the others takes the steps of its own packet thread.
use serverlib.Prelude.{ℕ, ◌≡◌, refl, inl, inr, List, [], ◌∷◌, arith}
use serverlib.Prelude.Run.{Run, ok, ◌>>=◌}
use serverlib.Tcp.Server.Loop.{Ends}
use serverlib.Tcp.Server.History.{Input, IsProper, step, step-Ends}
use serverlib.Common.Server.{Dispatcher, CommonServer, common_virtual}
use serverlib.Common.Server.Held.{works_at, works_at-IsHeld}
use serverlib.Common.Server.Keeps.{IsCommonServer, BadLength, common_virtual-Keeps}

-- An input of the server, or a step of the thread with this index.
pub data Turn : Type 0 where
  server_takes : Input → Turn
  thread_takes : ℕ → Turn

unfoldable pub turn : CommonServer → Turn → Run CommonServer
turn s (server_takes i) = step s i
turn s (thread_takes i) = ok (record s { dispatcher = works_at i s.dispatcher })

unfoldable pub turns : CommonServer → List Turn → Run CommonServer
turns s [] = ok s
turns s (t ∷ ts) = turn s t >>= λ s'. turns s' ts

abbrev pub IsProperTurn : CommonServer → Turn → Type 0
IsProperTurn s (server_takes i) = IsProper s.dispatcher.tcp i
IsProperTurn s (thread_takes i) = Unit {0}

-- Every input is proper where it comes.
abbrev pub AllTurns : CommonServer → List Turn → Type 0
AllTurns s [] = Unit {0}
AllTurns s (t ∷ ts) = IsProperTurn s t × ((s' : CommonServer) → turn s t ≡ ok s' → AllTurns s' ts)

pub works_at-tcp : (i : ℕ) (d : Dispatcher) → (works_at i d).tcp ≡ d.tcp
unfolding works_at
works_at-tcp i d = ground arith

turn-Ends :
    (d₀ : Dispatcher) (s : CommonServer) (t : Turn)
    → IsCommonServer d₀ s
    → IsProperTurn s t
    → Ends common_virtual (IsCommonServer d₀) BadLength (turn s t)
unfolding turn
turn-Ends d₀ s (server_takes i) w p =
    step-Ends common_virtual (IsCommonServer d₀) BadLength (common_virtual-Keeps d₀) s i w p
turn-Ends d₀ s (thread_takes i) w p =
    let (h, k) = works_at-IsHeld d₀ s.dispatcher i w.1 w.2 in
    inl (_, refl, (rw (works_at-tcp i s.dispatcher) w.0, h, k))

-- From a sound common server with as many threads as it believes, in any interleaving of proper
-- inputs with the steps of its threads: the history ends in one of the two exceptions that a bad
-- length causes, or with the server's invariant: no thread takes from an empty queue, the counter
-- is, modulo 2 ^ 64, the number of packets that are handled, in hand and queued over all threads,
-- and those of each thread are those it had at the start, in their order, and then the new ones.
pub turns-IsCommonServer :
    (d₀ : Dispatcher) (s : CommonServer) (ts : List Turn)
    → IsCommonServer d₀ s
    → AllTurns s ts
    → Ends common_virtual (IsCommonServer d₀) BadLength (turns s ts)
unfolding turns
turns-IsCommonServer d₀ s [] w p = inl (s, refl, w)
turns-IsCommonServer d₀ s (t ∷ ts) w p = elim (turn-Ends d₀ s t w p.0) [
  | inl (s', ran, w') ↦ rw ran (turns-IsCommonServer d₀ s' ts w' (p.1 s' ran))
  | inr (f, threw, bad) ↦ inr (f, rw threw, bad)
]
