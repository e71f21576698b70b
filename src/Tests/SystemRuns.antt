-- ===== src/Tests/SystemRuns.antt =====
-- The theorems on a common server with its threads, and on a UDP echo server, at concrete inputs.
use serverlib.Prelude.{ℕ, Bool, refl, true, false, List, [], ◌∷◌, some, arith}
use serverlib.Prelude.Int.{pos}
use serverlib.Tcp.Server.Loop.{Ends}
use serverlib.Tcp.Server.History.{accepts, asyncs, wakes_io}
use serverlib.Common.Threads.{PktHandleThread, waiting}
use serverlib.Common.Threads.Stop.{Joins, stop-Joins}
use serverlib.Common.Server.{Dispatcher, common_virtual}
use serverlib.Common.Server.Keeps.{IsCommonServer, BadLength}
use serverlib.Common.Server.Prepared.{prepared, prepared-IsCommonServer}
use serverlib.Common.Server.Turns.{
  Turn, server_takes, thread_takes, turns, AllTurns, turns-IsCommonServer,
}
use serverlib.Common.Server.Destroy.{AllKept, Destroys-AllKept, destructor-Destroys}
use serverlib.Udp.{Datagram, received, recv_failed}
use serverlib.Echo.Two.{Side, at_first, at_second}
use serverlib.Echo.Udp
use serverlib.Echo.Udp.{Input, starts, reads}
use serverlib.Tests.{alice, bob, greeting, reading}

abbrev four : Dispatcher
four = (prepared 1 (pos 4)).dispatcher

abbrev ts : List Turn
ts =
    server_takes (accepts false alice (pos 100))
    ∷ thread_takes 2
    ∷ server_takes (wakes_io alice reading)
    ∷ thread_takes 7
    ∷ server_takes asyncs
    ∷ []

ts-AllTurns : AllTurns (prepared 1 (pos 4)) ts
ts-AllTurns = (
  tt,
  λ s₁ e₁. (tt, λ s₂ e₂. ((5, refl, λ conn found. tt), λ s₃ e₃. (tt, λ s₄ e₄. (tt, λ s₅ e₅. tt)))),
)

turns-IsCommonServer_example :
    Ends common_virtual (IsCommonServer four) BadLength (turns (prepared 1 (pos 4)) ts)
turns-IsCommonServer_example =
    turns-IsCommonServer four (prepared 1 (pos 4)) ts (prepared-IsCommonServer 1 (pos 4))
      ts-AllTurns

Destroys-AllKept_example :
    AllKept four.threads
      (destructor-Destroys four (prepared-IsCommonServer 1 (pos 4)).2.claims).0.threads
Destroys-AllKept_example =
    Destroys-AllKept four (destructor-Destroys four (prepared-IsCommonServer 1 (pos 4)).2.claims).0
      (prepared-IsCommonServer 1 (pos 4)).1 (prepared-IsCommonServer 1 (pos 4)).2.claims
      (destructor-Destroys four (prepared-IsCommonServer 1 (pos 4)).2.claims).1

abbrev idle : PktHandleThread
idle = record {
  data_handle = some 1;
  running = true;
  queue = (alice, greeting) ∷ (bob, greeting) ∷ [];
  pc = waiting;
  handled = [];
}

stop-Joins_example : (u : PktHandleThread) × Joins idle u
stop-Joins_example = stop-Joins idle (omega arith)

abbrev datagrams : List (Bool × Datagram)
datagrams =
    (false, received 1 80 (7 ∷ 8 ∷ []))
    ∷ (true, received 1 80 (9 ∷ []))
    ∷ (false, recv_failed)
    ∷ (false, received 2 81 (9 ∷ []))
    ∷ []

abbrev sides : List (Side Input)
sides =
    at_first (starts 0 7777 (pos 5) (pos 0))
    ∷ at_first (reads false (received 1 80 (7 ∷ 8 ∷ [])))
    ∷ at_second (starts 0 8888 (pos 6) (pos 0))
    ∷ at_first (reads true (received 1 80 (9 ∷ [])))
    ∷ at_second (reads false (received 3 82 (7 ∷ [])))
    ∷ at_first (reads false recv_failed)
    ∷ at_first (reads false (received 2 81 (9 ∷ [])))
    ∷ []

-- `7777`
abbrev seven : List (List ℕ)
seven = (55 ∷ 55 ∷ 55 ∷ 55 ∷ []) ∷ []
