-- ===== src/Common/Server.antt =====
-- `CCommonServer` of commonserver.h and commonserver.cpp: a TCP server that cuts each client's
-- stream into packets and hands them to its own threads, or to the data handle if it has none.
pub mod Keeps
pub mod Prepared
pub mod Crash
pub mod Receive
pub mod Share
pub mod Held
pub mod Turns
pub mod Echo
pub mod Destroy
use serverlib.Prelude.{
  ℕ, zero, suc, ◌+◌, ◌%◌, ◌^◌, ◌≡◌, Bool, true, false, ◌||◌, List, [], ◌∷◌, ◌++◌, Option, none,
  some, get_elem?, set, replicate, take, ◌==◌, if◌then◌else◌,
}
use serverlib.Prelude.Int.{ℤ, pos, negsuc, leb_ℤ, ltb_ℤ, pos_part}
use serverlib.Prelude.Map
use serverlib.Prelude.Map.{Map}
use serverlib.Prelude.Run.{Run, ok, fault, out_of_bounds, ◌>>=◌}
use serverlib.Socket.{SocketClientData}
use serverlib.Socket.Order.{client_order}
use serverlib.OutputBuffer.{OutputBuffer, new_output_buffer}
use serverlib.Framing.{feed}
use serverlib.Tcp.Server
use serverlib.Tcp.Server.{
  TcpServer, Virtual, new_tcp_server, tell, on_client_data_received, on_disconnected, on_recv_error,
  on_send_error, on_timeout,
}
use serverlib.Common.Threads
use serverlib.Common.Threads.{PktHandleThread, new_thread, init, add_pkt}

abbrev pub max_thread_num : ℕ
max_thread_num = 64

-- What `__HandlePkt` reads and changes.
pub record Dispatcher : Type 0 where
  pub tcp : TcpServer
  pub thread_num : ℕ
  pub count : ℕ
  pub threads : List PktHandleThread

-- `m_Contents` holds what each client has sent of a packet that is not yet whole.
pub record CommonServer : Type 0 where
  pub dispatcher : Dispatcher
  pub contents : Map SocketClientData (List ℕ)

-- The constructor.
unfoldable pub new_common_server : CommonServer
new_common_server = record {
  dispatcher = record { tcp = new_tcp_server; thread_num = 0; count = 0; threads = [] };
  contents = [];
}

-- `SetThreadNum()`: a number out of range is ignored. The threads of an earlier call are not
-- stopped, and no longer reached.
unfoldable pub set_thread_num : ℤ → Dispatcher → Dispatcher
set_thread_num n d = if leb_ℤ n (pos 0) || ltb_ℤ (pos max_thread_num) n then d else record d {
  thread_num = pos_part n;
  threads = replicate (pos_part n) (init d.tcp.data_handle new_thread);
}

-- The bytes at a pointer that is passed with this length.
abbrev pub pkt_bytes : List ℕ → ℤ → List ℕ
pkt_bytes bytes (pos n) = take n bytes
pkt_bytes bytes (negsuc n) = []

-- `__sync_fetch_and_add` on a 64-bit counter, of which the low 32 bits choose the thread.
unfoldable pub next_thread : Dispatcher → ℕ
next_thread d = d.count % 2 ^ 32 % d.thread_num

-- `__HandlePkt`
unfoldable pub handle_pkt : SocketClientData → Dispatcher → List ℕ → ℤ → Run Dispatcher
handle_pkt client d bytes len =
    if d.thread_num == 0
    then ok (record d {
      tcp = tell (on_client_data_received d.tcp.data_handle client (pkt_bytes bytes len)) d.tcp;
    })
    else do
      buffer ← new_output_buffer bytes len
      elim (get_elem? d.threads (next_thread d)) [
        | none ↦ fault out_of_bounds
        | some thread ↦ ok (record d {
          count = (d.count + 1) % 2 ^ 64;
          threads = set d.threads (next_thread d) (add_pkt (client, buffer) thread);
        })
      ]

-- `m_Contents[sClient]`, which is empty for a new client.
unfoldable pub content : SocketClientData → CommonServer → List ℕ
content client s = elim (Map.find client s.contents) [ none ↦ [] | some bytes ↦ bytes ]

-- `__AddContent`
unfoldable pub add_content : SocketClientData → List ℕ → CommonServer → Run CommonServer
add_content client bytes s = do
  r ← feed (handle_pkt client) s.dispatcher (content client s) bytes
  ok (record { dispatcher = r.0; contents = Map.assign client r.1 s.contents })

-- `__RemoveContent`
unfoldable pub remove_content : SocketClientData → CommonServer → CommonServer
remove_content client s = record s { contents = Map.erase client s.contents }

abbrev pub with_tcp : TcpServer → CommonServer → CommonServer
with_tcp t s = record s { dispatcher = record (s.dispatcher) { tcp = t } }

-- An override that calls the base class's member and then forgets the client's bytes.
unfoldable pub forgetting :
    (TcpServer → Run TcpServer) → SocketClientData → CommonServer → Run CommonServer
forgetting member client s = do
  t ← member s.dispatcher.tcp
  ok (remove_content client (with_tcp t s))

instance abbrev pub common_virtual : Virtual CommonServer
common_virtual = record {
  base = λ s. s.dispatcher.tcp;
  with_base = with_tcp;
  disconnected = λ client error. forgetting (on_disconnected client error) client;
  data_received = add_content;
  recv_error = λ client error. forgetting (on_recv_error client error) client;
  send_error = λ client error. forgetting (on_send_error client error) client;
  timed_out = λ client. forgetting (on_timeout client) client;
}
