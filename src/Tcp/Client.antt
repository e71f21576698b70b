-- ===== src/Tcp/Client.antt =====
-- `CTcpClient` of tcpclient.h and tcpclient.cpp: one connection, which is made again when it is
-- lost. What libev reports and what the system calls return are arguments. The log, newest first,
-- is what the client tells its data handle and the system.
pub mod Keeps
pub mod Members
pub mod History
use serverlib.Prelude.{
  ℕ, ◌+◌, ◌≡◌, Bool, true, false, List, [], ◌∷◌, ◌++◌, Option, none, some, ltb, if◌then◌else◌,
  length, take,
}
use serverlib.Prelude.Int.{ℤ, pos, ltb_ℤ, leb_ℤ, eqb_ℤ}
use serverlib.Prelude.Run.{Run, ok, ◌>>=◌}
use serverlib.Socket.{SocketClientData}
use serverlib.OutputBuffer.{OutputBuffer, new_output_buffer, get_data_pos}
use serverlib.Tcp.Connection.{
  IoWatcher, Revents, Recv, received, recv_failed, Written, written, write_failed,
  write_queue_max_size, eagain, advance,
}

-- Calls of the data handle, `m_Async.send()`, `sleep(1)`, and system calls on a socket.
pub data Event : Type 0 where
  on_disconnected on_send_error on_recv_error : Option ℕ → SocketClientData → ℤ → Event
  on_data_received : Option ℕ → SocketClientData → List ℕ → Event
  async_send slept : Event
  set_nonblock set_reuseaddr set_nodelay set_linger shut_down closed : ℤ → Event
  connected : ℤ → ℕ → ℕ → Event
  wrote : ℤ → List ℕ → Event

-- `io` is `none` while `m_Io` is stopped.
pub record TcpClient : Type 0 where
  pub data_handle : Option ℕ
  pub socket : ℤ
  pub ip : ℕ
  pub port : ℕ
  pub client : SocketClientData
  pub looping : Bool
  pub io : Option IoWatcher
  pub functions : List OutputBuffer
  pub write_queue : List OutputBuffer
  pub log : List Event

-- What the environment says at one callback; `opened` is what `socket()` returns, if it is called.
pub record Wakeup : Type 0 where
  pub revents : Revents
  pub recv : Recv
  pub write : Written
  pub errno : ℤ
  pub opened : ℤ

abbrev pub tell : Event → TcpClient → TcpClient
tell e c = record c { log = e ∷ c.log }

-- `m_Io.set(events)`, which keeps the descriptor.
abbrev pub watch : Bool → TcpClient → TcpClient
watch writes c = elim c.io [
  | none ↦ c
  | some w ↦ record c { io = some (record { fd = w.fd; read = true; write = writes }) }
]

-- The constructor; the address and the key of a client that was never started are of no consequence.
unfoldable pub new_tcp_client : TcpClient
new_tcp_client = record {
  data_handle = none;
  socket = pos 0;
  ip = 0;
  port = 0;
  client = record { ip = 0; port = 0; socket = pos 0 };
  looping = false;
  io = none;
  functions = [];
  write_queue = [];
  log = [];
}

unfoldable pub set_data_handle : ℕ → TcpClient → TcpClient
set_data_handle handle c = record c { data_handle = some handle }

-- `if (m_Socket > 0)` at the head of `__Connect()`
unfoldable pub drop_socket : TcpClient → TcpClient
drop_socket c =
    if ltb_ℤ (pos 0) c.socket then record c { socket = pos 0; log = closed c.socket ∷ c.log } else c

-- `__Connect()`, with what `socket()` returned.
unfoldable pub connect : ℤ → TcpClient → TcpClient × Bool
connect fd c =
    let c₁ = drop_socket c in
    if leb_ℤ fd (pos 0) then (record c₁ { socket = fd }, false) else (
      record c₁ {
        socket = fd;
        client = record { ip = c₁.ip; port = c₁.port; socket = fd };
        io = some (record { fd = fd; read = true; write = true });
        log =
            connected fd c₁.ip c₁.port
            ∷ set_linger fd
            ∷ set_reuseaddr fd
            ∷ set_nonblock fd
            ∷ set_nodelay fd
            ∷ set_reuseaddr fd
            ∷ set_nonblock fd
            ∷ c₁.log;
      },
      true,
    )

-- `Start()`, up to the event loop, and the result of the call.
unfoldable pub start : ℕ → ℕ → ℤ → TcpClient → TcpClient × Bool
start ip port fd c =
    let (c₁, made) = connect fd (record c { ip = ip; port = port; log = async_send ∷ c.log }) in
    if made then (record c₁ { looping = true }, true) else (c₁, false)

unfoldable pub stop : TcpClient → TcpClient × Bool
stop c = (
  record c { looping = false; io = none; log = closed c.socket ∷ shut_down c.socket ∷ c.log },
  true,
)

-- `Send()`: the call is put off until the loop's thread runs it, and says true.
unfoldable pub post_send : List ℕ → ℤ → TcpClient → Run (TcpClient × Bool)
post_send bytes len c = do
  buffer ← new_output_buffer bytes len
  ok (record c { functions = c.functions ++ buffer ∷ []; log = async_send ∷ c.log }, true)

-- `__Send()`
unfoldable pub send : OutputBuffer → TcpClient → TcpClient × Bool
send buffer c =
    if ltb write_queue_max_size (length c.write_queue)
    then (tell (on_send_error c.data_handle c.client (pos 0)) c, false)
    else (watch true (record c { write_queue = c.write_queue ++ buffer ∷ [] }), true)

unfoldable pub send_all : List OutputBuffer → TcpClient → TcpClient
send_all [] c = c
send_all (buffer ∷ functions) c = send_all functions (send buffer c).0

-- `__AsyncCallback`: the list is swapped for an empty one, and its calls are made.
unfoldable pub async_callback : TcpClient → TcpClient
async_callback c = send_all c.functions (record c { functions = [] })

-- The data handle is told, and after a second the client connects again.
unfoldable pub reconnect : Event → ℤ → TcpClient → TcpClient
reconnect e fd c = (connect fd (tell slept (tell e c))).0

-- `__ErrorCallback()`
unfoldable pub error_callback : Wakeup → TcpClient → TcpClient
error_callback w c = reconnect (on_disconnected c.data_handle c.client w.errno) w.opened c

-- The `EV_READ` part of `__IoCallback`, and whether it returned from there.
unfoldable pub read_part : Recv → ℤ → TcpClient → TcpClient × Bool
read_part (received []) fd c =
    (reconnect (on_disconnected c.data_handle c.client (pos 0)) fd c, true)
read_part (received (b ∷ bs)) fd c =
    (tell (on_data_received c.data_handle c.client (b ∷ bs)) c, false)
read_part (recv_failed errno) fd c =
    if eqb_ℤ errno eagain
    then (c, false)
    else (reconnect (on_recv_error c.data_handle c.client errno) fd c, true)

-- The end of the `EV_WRITE` part, with the new queue: once it is empty, only reads are watched.
unfoldable pub after_write : List OutputBuffer → TcpClient → TcpClient
after_write [] c = watch false (record c { write_queue = [] })
after_write (b ∷ queue) c = record c { write_queue = b ∷ queue }

-- The `EV_WRITE` part, from the queue's front on; `fd` is the watcher's descriptor.
unfoldable pub write_front :
    Written → ℤ → ℤ → OutputBuffer → List OutputBuffer → TcpClient → TcpClient
write_front (write_failed errno) fd opened front rest c =
    if eqb_ℤ errno eagain
    then c
    else reconnect (on_send_error c.data_handle c.client errno) opened c
write_front (written n) fd opened front rest c =
    after_write (advance front rest n) (tell (wrote fd (take n (get_data_pos front))) c)

unfoldable pub write_part : Written → ℤ → ℤ → TcpClient → TcpClient
write_part w fd opened c = elim c.write_queue [
  | [] ↦ watch false c
  | front ∷ rest ↦ write_front w fd opened front rest c
]

-- `__IoCallback`, of the watcher with the descriptor `fd`.
unfoldable pub io_callback : Wakeup → ℤ → TcpClient → TcpClient
io_callback w fd c =
    let (c₁, returned) = if w.revents.read then read_part w.recv w.opened c else (c, false) in
    let c₂ = write_part w.write fd w.opened c₁ in
    if w.revents.error
    then error_callback w c
    else if returned
    then c₁
    else if w.revents.write
    then c₂
    else c₁
