-- ===== src/Tests/CommonRuns.antt =====
-- The theorems on the packet loop, the threads and the common server at concrete inputs.
use serverlib.Prelude.{ℕ, ◌≡◌, ◌-◌, ◌^◌, refl, true, false, List, [], ◌∷◌, ◌++◌, some, arith}
use serverlib.Prelude.Int.{pos}
use serverlib.Prelude.Words.{read32, bytes32}
use serverlib.Prelude.Run.{Fault, fault, Returns}
use serverlib.Prelude.Map.{find-nil}
use serverlib.Socket.Order.{client_order}
use serverlib.OutputBuffer.{IsOutputBuffer}
use serverlib.Framing.{pkt_len}
use serverlib.Framing.Stream.{puts_by}
use serverlib.Tcp.Server.{new_tcp_server}
use serverlib.Tcp.Server.Loop.{Ends}
use serverlib.Tcp.Server.History
use serverlib.Tcp.Server.History.{Input, accepts, asyncs, wakes_io, AllProper}
use serverlib.Common.Threads.{PktHandleThread, taking, new_thread, init}
use serverlib.Common.Threads.Order.{
  Action, works, stops, adds, added, acts, IsThread, acts-IsThread,
}
use serverlib.Common.Threads.Progress.{Empties, handle_pkt-Empties}
use serverlib.Common.Server.{CommonServer, Dispatcher, common_virtual, add_content, content}
use serverlib.Common.Server.Keeps.{IsCommonServer, BadLength}
use serverlib.Common.Server.Prepared.{prepared, run-IsCommonServer}
use serverlib.Common.Server.Crash.{add_content-crash}
use serverlib.Common.Server.Receive.{dispatch, receive_all, Received, receive_all-stream}
use serverlib.Common.Server.Share.{queue_of, share, receive_all-share}
use serverlib.Tests.{alice, bob, greeting, reading}

abbrev dispatcher : Dispatcher
dispatcher = record {
  tcp = new_tcp_server;
  thread_num = 2;
  count = 0;
  threads = new_thread ∷ new_thread ∷ [];
}

abbrev server : CommonServer
server = record { dispatcher = dispatcher; contents = [] }

content-server : content alice server ≡ []
unfolding content
content-server = rw (content, find-nil {V = List ℕ} alice)

abbrev bodies : List (List ℕ)
bodies = (1 ∷ 2 ∷ []) ∷ (3 ∷ []) ∷ []

abbrev chunks : List (List ℕ)
chunks = (2 ∷ 0 ∷ 0 ∷ []) ∷ (0 ∷ 1 ∷ 2 ∷ []) ∷ (1 ∷ 0 ∷ 0 ∷ []) ∷ (0 ∷ 3 ∷ []) ∷ []

receive_all-stream_example :
    Returns
      (receive_all alice chunks server)
      (Received alice server (puts_by (dispatch alice) dispatcher bodies) [])
unfolding bytes32
receive_all-stream_example =
    receive_all-stream 4 3 alice bodies chunks server refl content-server
      (omega arith, omega arith, (omega arith, omega arith, tt))
      (omega arith, (omega arith, (omega arith, (omega arith, tt)))) (omega arith) refl

abbrev inputs : List Input
inputs = accepts false alice (pos 100) ∷ wakes_io alice reading ∷ asyncs ∷ []

inputs-AllProper : AllProper (prepared 1 (pos 4)) inputs
inputs-AllProper = (tt, λ s₁ e₁. ((5, refl, λ conn found. tt), λ s₂ e₂. (tt, λ s₃ e₃. tt)))

run-IsCommonServer_example :
    Ends common_virtual
      (IsCommonServer (prepared 1 (pos 4)).dispatcher)
      BadLength
      (History.run (prepared 1 (pos 4)) inputs)
run-IsCommonServer_example = run-IsCommonServer 1 (pos 4) inputs inputs-AllProper

-- The length 2 ^ 31 - 4, and a byte.
abbrev bad : List ℕ
bad = 252 ∷ 255 ∷ 255 ∷ 127 ∷ 0 ∷ []

add_content-crash_example : (f : Fault) × (add_content alice bad server ≡ fault f) × BadLength f
unfolding pkt_len read32
add_content-crash_example =
    add_content-crash alice bad (2 ^ 31 - 4) server (rw content-server (omega arith))
      (rw content-server (omega arith)) (rw content-server refl) (omega arith) (omega arith)

receive_all-share_example :
    Returns
      (receive_all alice chunks server)
      (λ t. queue_of t.dispatcher 1 ≡ queue_of dispatcher 1 ++ share 2 0 1 alice bodies)
unfolding bytes32
receive_all-share_example =
    receive_all-share 4 3 alice bodies chunks server 1 refl refl (omega arith) content-server
      (omega arith, omega arith, (omega arith, omega arith, tt))
      (omega arith, (omega arith, (omega arith, (omega arith, tt)))) (omega arith) refl

abbrev actions : List Action
actions = adds (alice, greeting) ∷ works ∷ works ∷ adds (bob, greeting) ∷ works ∷ works ∷ stops ∷ []

acts-IsThread_example : IsThread (added actions) (acts (init (some 1) new_thread) actions)
acts-IsThread_example = acts-IsThread (some 1) actions

abbrev busy_thread : PktHandleThread
busy_thread = record {
  data_handle = some 1;
  running = true;
  queue = (alice, greeting) ∷ (bob, greeting) ∷ [];
  pc = taking 1;
  handled = [];
}

handle_pkt-Empties_example : Empties busy_thread
handle_pkt-Empties_example = handle_pkt-Empties busy_thread refl (λ e. absurd (cc)) (omega arith)

greeting-IsOutputBuffer : IsOutputBuffer greeting
greeting-IsOutputBuffer = record { sized = refl; within = omega arith }
