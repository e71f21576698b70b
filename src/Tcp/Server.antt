-- ===== src/Tcp/Server.antt =====
-- `CTcpServer` of tcpserver.h and tcpserver.cpp. The log, newest first, is what the server tells its
-- data handle and the system; the virtual members are an interface, which the derived server of
-- commonserver.h fills too. A spinlock is held for one step.
pub mod Handled
pub mod Drop
pub mod Invariant
pub mod Loop
pub mod Plain
pub mod Given
pub mod Delivery
pub mod History
pub mod Passing
pub mod Answer
pub mod Reuse
use serverlib.Prelude.{
  ℕ, ◌≡◌, Bool, true, false, List, [], ◌∷◌, ◌++◌, Option, none, some, if◌then◌else◌,
}
use serverlib.Prelude.Int.{ℤ, pos, ltb_ℤ, eqb_ℤ}
use serverlib.Prelude.Run.{Run, ok, fault, unset_pointer, ◌>>=◌}
use serverlib.Socket.{SocketClientData}
use serverlib.OutputBuffer.{OutputBuffer, new_output_buffer}
use serverlib.Tcp.Channels.{SocketInfoManager, add, get, remove, new_manager}
use serverlib.Tcp.Connection
use serverlib.Tcp.Connection.{
  Connection, Call, client_disconnected, client_recv_error, client_send_error, client_data_received,
  client_timeout, shut_down, closed, Wakeup, new_connection, destroy, io_callback, timer_callback,
}

-- Calls of the data handle, which is `none` before `SetDataHandle`, system calls on a socket, and
-- `m_Async.send()`.
pub data Event : Type 0 where
  on_client_connected : Option ℕ → SocketClientData → Event
  on_client_disconnected : Option ℕ → SocketClientData → ℤ → Event
  on_client_data_received : Option ℕ → SocketClientData → List ℕ → Event
  socket_call : Call → Event
  binds : ℤ → ℕ → ℕ → Event
  async_send : Event

pub record TcpServer : Type 0 where
  pub manager : SocketInfoManager Connection
  pub data_handle : Option ℕ
  pub timeout : ℤ
  pub socket : ℤ
  pub listening : Bool
  pub looping : Bool
  pub functions : List (SocketClientData × OutputBuffer)
  pub log : List Event

-- The constructor.
unfoldable pub new_tcp_server : TcpServer
new_tcp_server = record {
  manager = new_manager;
  data_handle = none;
  timeout = Connection.tcp_connection_timeout;
  socket = pos 0;
  listening = false;
  looping = false;
  functions = [];
  log = [];
}

abbrev pub push_calls : List Call → List Event → List Event
push_calls [] log = log
push_calls (c ∷ calls) log = push_calls calls (socket_call c ∷ log)

abbrev pub tell : Event → TcpServer → TcpServer
tell e s = record s { log = e ∷ s.log }

-- What the destructor does where the last pointer to a connection goes.
abbrev pub destroyed : Option Connection → List Event → List Event
destroyed none log = log
destroyed (some c) log = push_calls (destroy c) log

-- A call of the data handle. The constructor leaves the pointer to it as the memory has it.
unfoldable pub call_handle : (Option ℕ → Event) → TcpServer → Run TcpServer
call_handle event s = elim s.data_handle [
  | none ↦ fault unset_pointer
  | some handle ↦ ok (tell (event (some handle)) s)
]

unfoldable pub set_data_handle : ℕ → TcpServer → TcpServer
set_data_handle handle s = record s { data_handle = some handle }

unfoldable pub set_connection_timeout : ℤ → TcpServer → TcpServer
set_connection_timeout timeout s = record s { timeout = timeout }

-- `Start()`, with what `socket` and `bind` returned: up to the event loop, and the result of the
-- call.
unfoldable pub start : ℕ → ℕ → ℤ → ℤ → TcpServer → TcpServer × Bool
start ip port fd bound s =
    let s' = record s {
      socket = fd;
      log =
          binds fd ip port
          ∷ push_calls (Connection.set_nonblock fd ∷ Connection.set_reuseaddr fd ∷ []) s.log;
    } in
    if eqb_ℤ bound (pos 0)
    then (record s' { listening = true; looping = true }, true)
    else (s', false)

unfoldable pub stop : TcpServer → TcpServer × Bool
stop s = (
  record s {
    listening = false;
    looping = false;
    log = push_calls (shut_down s.socket ∷ closed s.socket ∷ []) s.log;
  },
  true,
)

-- `m_SocketInfoManager.Remove(sClient)`: the entry is destroyed with it.
unfoldable pub remove_client : SocketClientData → TcpServer → Run TcpServer
remove_client client s = do
  entry ← get client s.manager
  manager ← remove client s.manager
  ok (record s { manager = manager; log = destroyed entry s.log })

-- `OnClientDisconnected`, `OnClientRecvError` and `OnClientSendError`, whose bodies are the same,
-- and `OnClientTimeout`, with 0 for the error.
unfoldable pub on_disconnected : SocketClientData → ℤ → TcpServer → Run TcpServer
on_disconnected client error s =
    call_handle (λ handle. on_client_disconnected handle client error) s >>= remove_client client

unfoldable pub on_recv_error : SocketClientData → ℤ → TcpServer → Run TcpServer
on_recv_error client error s =
    call_handle (λ handle. on_client_disconnected handle client error) s >>= remove_client client

unfoldable pub on_send_error : SocketClientData → ℤ → TcpServer → Run TcpServer
on_send_error client error s =
    call_handle (λ handle. on_client_disconnected handle client error) s >>= remove_client client

unfoldable pub on_timeout : SocketClientData → TcpServer → Run TcpServer
on_timeout client s =
    call_handle (λ handle. on_client_disconnected handle client (pos 0)) s >>= remove_client client

unfoldable pub on_data_received : SocketClientData → List ℕ → TcpServer → Run TcpServer
on_data_received client bytes s =
    call_handle (λ handle. on_client_data_received handle client bytes) s

-- A server: where it keeps the state of its base class, and its virtual members.
pub record Virtual (S : Type 0) : Type 0 where
  pub base : S → TcpServer
  pub with_base : TcpServer → S → S
  pub disconnected : SocketClientData → ℤ → S → Run S
  pub data_received : SocketClientData → List ℕ → S → Run S
  pub recv_error : SocketClientData → ℤ → S → Run S
  pub send_error : SocketClientData → ℤ → S → Run S
  pub timed_out : SocketClientData → S → Run S

instance abbrev pub tcp_virtual : Virtual TcpServer
tcp_virtual = record {
  base = λ s. s;
  with_base = λ t s. t;
  disconnected = on_disconnected;
  data_received = on_data_received;
  recv_error = on_recv_error;
  send_error = on_send_error;
  timed_out = on_timeout;
}

-- `Send()`: the call is put off until the loop's thread runs it, and says true.
unfoldable pub post_send : SocketClientData → List ℕ → ℤ → TcpServer → Run (TcpServer × Bool)
post_send client bytes len s = do
  buffer ← new_output_buffer bytes len
  ok (record s { functions = s.functions ++ (client, buffer) ∷ []; log = async_send ∷ s.log }, true)

-- A connection is changed through a pointer that the manager holds too.
unfoldable pub put_connection :
    SocketClientData → Connection → List Call → TcpServer → Run TcpServer
put_connection client conn calls s = do
  manager ← add client conn s.manager
  ok (record s { manager = manager; log = push_calls calls s.log })

unfoldable pub close_client : SocketClientData → TcpServer → Run (TcpServer × Bool)
close_client client s = do
  found ← get client s.manager
  elim found [
    | none ↦ ok (s, true)
    | some conn ↦ do
      let (conn', calls) = Connection.close conn
      s' ← put_connection client conn' calls s
      ok (s', true)
  ]

-- `__Accept`, with the error bit, the client as `accept` reported it, its descriptor included, and
-- the time. The entry that the new one replaces is destroyed.
unfoldable pub accept : Bool → SocketClientData → ℤ → TcpServer → Run TcpServer
accept error client now s = if error then ok s else if ltb_ℤ client.socket (pos 0) then ok s else do
  let (conn, calls) = new_connection s.timeout now client
  old ← get client s.manager
  manager ← add client conn s.manager
  call_handle (λ handle. on_client_connected handle client)
      (record s { manager = manager; log = destroyed old (push_calls calls s.log) })

module _ {S : Type 0} ⦃v : Virtual S⦄ where
  -- One call of a connection.
  unfoldable pub run_call : SocketClientData → Call → S → Run S
  run_call client (client_disconnected e) s = v.disconnected client e s
  run_call client (client_recv_error e) s = v.recv_error client e s
  run_call client (client_send_error e) s = v.send_error client e s
  run_call client (client_data_received bytes) s = v.data_received client bytes s
  run_call client client_timeout s = v.timed_out client s
  run_call client call s = ok (v.with_base (tell (socket_call call) (v.base s)) s)

  unfoldable pub run_calls : SocketClientData → List Call → S → Run S
  run_calls client [] s = ok s
  run_calls client (c ∷ calls) s = run_call client c s >>= run_calls client calls

  -- The connection's new state, and then its calls.
  unfoldable pub settle : SocketClientData → Connection × List Call → S → Run S
  settle client r s = do
    t ← put_connection client r.0 [] (v.base s)
    run_calls client r.1 (v.with_base t s)

  -- libev calls `__IoCallback` or `__TimerCallback` of the connection under this key. There are no
  -- watchers where there is no connection.
  unfoldable pub wake_io : SocketClientData → Wakeup → S → Run S
  wake_io client w s = do
    found ← get client (v.base s).manager
    elim found [ none ↦ ok s | some conn ↦ settle client (io_callback w conn) s ]

  unfoldable pub wake_timer : SocketClientData → Wakeup → S → Run S
  wake_timer client w s = do
    found ← get client (v.base s).manager
    elim found [ none ↦ ok s | some conn ↦ run_calls client (timer_callback w conn) s ]

  -- `__Send`
  unfoldable pub deliver : SocketClientData → OutputBuffer → S → Run S
  deliver client buffer s = do
    found ← get client (v.base s).manager
    elim found [ none ↦ ok s | some conn ↦ settle client (Connection.send buffer conn) s ]

  unfoldable pub deliver_all : List (SocketClientData × OutputBuffer) → S → Run S
  deliver_all [] s = ok s
  deliver_all ((client, buffer) ∷ functions) s = deliver client buffer s >>= deliver_all functions

  -- `__AsyncCallback`: the list is swapped for an empty one, and its calls are made.
  unfoldable pub async_callback : S → Run S
  async_callback s =
      deliver_all (v.base s).functions (v.with_base (record (v.base s) { functions = [] }) s)
