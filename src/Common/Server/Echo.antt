-- ===== src/Common/Server/Echo.antt =====
-- test/tcpcommonechoserver.cpp: a common server with threads, whose data handle answers each packet
-- by the server's `Send()`.
pub mod Handled
pub mod Keeps
pub mod Turns
pub mod Passing
pub mod Written
use serverlib.Prelude.{
  length, drop, ℕ, ◌≡◌, false, List, [], ◌∷◌, ◌++◌, get_or, if◌then◌else◌, ◌==◌, arith,
}
use serverlib.Prelude.Run.{Run, ok, fault, ◌>>=◌}
use serverlib.OutputBuffer.{get_data_pos, get_bytes}
use serverlib.Tcp.Server.{TcpServer, post_send}
use serverlib.Tcp.Server.Invariant.{AllPosted}
use serverlib.Tcp.Server.History.{step}
use serverlib.Common.Threads.{PktData, PktHandleThread, new_thread}
use serverlib.Common.Threads.Order.{in_hand}
use serverlib.Common.Server.{Dispatcher, CommonServer, with_tcp, common_virtual}
use serverlib.Common.Server.Receive.{packet_buffer}
use serverlib.Common.Server.Held.{held, works_at}
use serverlib.Common.Server.Keeps.{IsDispatcher}
use serverlib.Common.Server.Turns.{Turn, server_takes, thread_takes, IsProperTurn}

-- What the thread with this index is in the data handle with.
abbrev pub hand_at : ℕ → Dispatcher → List PktData
hand_at i d = in_hand (get_or d.threads i new_thread).pc

-- `OnClientDataReceived`: `g_pTcpServer->Send(sClient, pData, nLen)`, with what `HandlePkt` passes.
unfoldable pub send_back : List PktData → TcpServer → Run TcpServer
send_back [] s = ok s
send_back ((client, buffer) ∷ packets) s = do
  r ← post_send client (get_data_pos buffer) (get_bytes buffer) s
  send_back packets r.0

-- A step of a thread that comes back from the data handle has made its call.
unfoldable pub echo_turn : CommonServer → Turn → Run CommonServer
echo_turn s (server_takes i) = step s i
echo_turn s (thread_takes i) = do
  t ← send_back (hand_at i s.dispatcher) s.dispatcher.tcp
  ok (with_tcp t (record s { dispatcher = works_at i s.dispatcher }))

unfoldable pub echo_turns : CommonServer → List Turn → Run CommonServer
echo_turns s [] = ok s
echo_turns s (t ∷ ts) = echo_turn s t >>= λ s'. echo_turns s' ts

abbrev pub AllEchoTurns : CommonServer → List Turn → Type 0
AllEchoTurns s [] = Unit {0}
AllEchoTurns s (t ∷ ts) =
    IsProperTurn s t × ((s' : CommonServer) → echo_turn s t ≡ ok s' → AllEchoTurns s' ts)

-- A packet as `Send` puts it off, in a buffer of its own.
abbrev pub copy : PktData → PktData
copy (client, buffer) = (client, packet_buffer (get_data_pos buffer))

abbrev pub copies : List PktData → List PktData
copies [] = []
copies (p ∷ packets) = copy p ∷ copies packets

abbrev pub after_turn : Run CommonServer → (CommonServer → List PktData) → List PktData
after_turn (ok s) f = f s
after_turn (fault _) f = []

-- What the turns of the thread `i` add to the calls of `Send` that are put off, in one turn and in a
-- history.
abbrev pub answers_at : ℕ → CommonServer → Turn → List PktData
answers_at i s (server_takes _) = []
answers_at i s (thread_takes j) =
    if j == i
    then after_turn (echo_turn s (thread_takes j))
        (λ s'. drop (length s.dispatcher.tcp.functions) s'.dispatcher.tcp.functions)
    else []

abbrev pub answered : ℕ → CommonServer → List Turn → List PktData
answered i s [] = []
answered i s (t ∷ ts) = answers_at i s t ++ after_turn (echo_turn s t) (λ s'. answered i s' ts)

-- What each thread has handled, has in hand and has queued can be sent back.
abbrev pub AllSound : List PktHandleThread → Type 0
AllSound [] = Unit {0}
AllSound (t ∷ ts) = AllPosted (held t) × AllSound ts

abbrev pub handled_at : ℕ → Dispatcher → List PktData
handled_at i d = (get_or d.threads i new_thread).handled

-- The server has threads, whatever they hold can be sent back, and of what each has handled,
-- `past` are the copies.
abbrev pub IsEchoing : Dispatcher → (ℕ → List PktData) → Dispatcher → Type 0
IsEchoing d₀ past d =
    IsDispatcher d₀ d
    × AllSound d.threads
    × ((d.thread_num == 0) ≡ false)
    × ((i : ℕ) → copies (handled_at i d) ≡ past i)

abbrev pub IsEchoServer : Dispatcher → (ℕ → List PktData) → CommonServer → Type 0
IsEchoServer d₀ past s = IsEchoing d₀ past s.dispatcher
