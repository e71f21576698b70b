-- ===== src/Tcp/Connection.antt =====
-- `CTcpConnection` of tcpserver.h and tcpserver.cpp. What libev reports and what the system calls
-- return are arguments; what the connection calls is returned as a list, in order.
pub mod Queue
pub mod Stream
pub mod Close
pub mod Timer
pub mod Last
pub mod Flush
use serverlib.Prelude.{
  ℕ, suc, ◌+◌, ◌-◌, ◌≤◌, ◌≡◌, Bool, true, false, List, [], ◌∷◌, ◌++◌, ltb, leb, ◌==◌, if◌then◌else◌,
  length, take, drop,
}
use serverlib.Prelude.Int.{ℤ, pos, negsuc, ltb_ℤ, leb_ℤ, eqb_ℤ}
use serverlib.Prelude.Words.{sub_int}
use serverlib.Socket.{SocketClientData}
use serverlib.OutputBuffer.{OutputBuffer, get_data_pos, get_bytes}

abbrev pub write_queue_max_size : ℕ
write_queue_max_size = 1000000

abbrev pub tcp_connection_timeout : ℤ
tcp_connection_timeout = pos 600

-- Linux's number.
abbrev pub eagain : ℤ
eagain = pos 11

-- What an `ev::io` watches.
pub record IoWatcher : Type 0 where
  pub fd : ℤ
  pub read : Bool
  pub write : Bool

-- An `ev::timer`.
pub record TimerWatcher : Type 0 where
  pub after : ℤ
  pub repeat : ℤ

pub record Connection : Type 0 where
  pub client : SocketClientData
  pub socket : ℤ
  pub io : IoWatcher
  pub timer : TimerWatcher
  pub write_queue : List OutputBuffer
  pub last_time : ℤ

-- The members of the server and the system calls that a connection calls.
pub data Call : Type 0 where
  client_disconnected client_recv_error client_send_error : ℤ → Call
  client_data_received : List ℕ → Call
  client_timeout : Call
  set_nonblock set_reuseaddr set_nodelay : ℤ → Call
  shut_down closed : ℤ → Call
  wrote : ℤ → List ℕ → Call

-- The bits of `revents` that the code tests.
pub record Revents : Type 0 where
  pub error : Bool
  pub read : Bool
  pub write : Bool
  pub timer : Bool

-- What `recv` returned: bytes, of which there are none at the end of the stream, or -1 with `errno`.
pub data Recv : Type 0 where
  received : List ℕ → Recv
  recv_failed : ℤ → Recv

-- What `write` returned: how many bytes it took, or -1 with `errno`.
pub data Written : Type 0 where
  written : ℕ → Written
  write_failed : ℤ → Written

-- What the environment says at one callback: the events, what the calls return, `errno` where no
-- call was made, and `(int)time(0)`.
pub record Wakeup : Type 0 where
  pub revents : Revents
  pub recv : Recv
  pub write : Written
  pub errno : ℤ
  pub now : ℤ

-- `m_Io.set(ev::READ)` and `m_Io.set(ev::READ|ev::WRITE)`
abbrev pub watch_read : Connection → Connection
watch_read c = record c { io = record { fd = c.io.fd; read = true; write = false } }

abbrev pub watch_read_write : Connection → Connection
watch_read_write c = record c { io = record { fd = c.io.fd; read = true; write = true } }

-- The constructor, with the server's timeout and the time.
unfoldable pub new_connection : ℤ → ℤ → SocketClientData → Connection × List Call
new_connection timeout now client = (
  record {
    client = client;
    socket = client.socket;
    io = record { fd = client.socket; read = true; write = false };
    timer = record { after = timeout; repeat = timeout };
    write_queue = [];
    last_time = now;
  },
  set_nonblock client.socket ∷ set_reuseaddr client.socket ∷ set_nodelay client.socket ∷ [],
)

-- `Close()`
unfoldable pub close : Connection → Connection × List Call
close c =
    if ltb_ℤ (pos 0) c.socket
    then (record c { socket = pos 0 }, shut_down c.socket ∷ closed c.socket ∷ [])
    else (c, [])

-- The destructor. Its watchers go with it.
unfoldable pub destroy : Connection → List Call
destroy c = (close c).1

-- `Send()`
unfoldable pub send : OutputBuffer → Connection → Connection × List Call
send buffer c =
    if ltb write_queue_max_size (length c.write_queue)
    then (c, client_send_error (pos 0) ∷ [])
    else (watch_read_write (record c { write_queue = c.write_queue ++ buffer ∷ [] }), [])

-- The queue after `nWritten` bytes of its front are written: a buffer with nothing left is popped.
unfoldable pub advance : OutputBuffer → List OutputBuffer → ℕ → List OutputBuffer
advance front rest n =
    let front' = record front { position = front.position + n } in
    if eqb_ℤ (get_bytes front') (pos 0) then rest else front' ∷ rest

-- The end of the `EV_WRITE` part, with the new queue: once it is empty, only reads are watched.
unfoldable pub after_write : List OutputBuffer → ℤ → Connection → Connection
after_write [] now c = watch_read (record c { write_queue = []; last_time = now })
after_write (b ∷ queue) now c = record c { write_queue = b ∷ queue; last_time = now }

-- The `EV_READ` part of `__IoCallback`, and whether it returned from there.
unfoldable pub read_part : Recv → ℤ → Connection → Connection × List Call × Bool
read_part (received []) now c = (c, client_disconnected (pos 0) ∷ [], true)
read_part (received (b ∷ bs)) now c =
    (record c { last_time = now }, client_data_received (b ∷ bs) ∷ [], false)
read_part (recv_failed errno) now c =
    if eqb_ℤ errno eagain then (c, [], false) else (c, client_recv_error errno ∷ [], true)

-- The `EV_WRITE` part, from the queue's front on.
unfoldable pub write_front :
    Written → ℤ → OutputBuffer → List OutputBuffer → Connection → Connection × List Call
write_front (write_failed errno) now front rest c =
    if eqb_ℤ errno eagain then (c, []) else (c, client_send_error errno ∷ [])
write_front (written n) now front rest c =
    (after_write (advance front rest n) now c, wrote c.io.fd (take n (get_data_pos front)) ∷ [])

unfoldable pub write_part : Written → ℤ → Connection → Connection × List Call
write_part w now c = elim c.write_queue [
  | [] ↦ (watch_read c, [])
  | front ∷ rest ↦ write_front w now front rest c
]

-- `__IoCallback`
unfoldable pub io_callback : Wakeup → Connection → Connection × List Call
io_callback w c =
    let (c₁, calls₁, returned) =
      if w.revents.read then read_part w.recv w.now c else (c, [], false) in
    let (c₂, calls₂) = write_part w.write w.now c₁ in
    if w.revents.error
    then (c, client_disconnected w.errno ∷ [])
    else if returned
    then (c₁, calls₁)
    else if w.revents.write
    then (c₂, calls₁ ++ calls₂)
    else (c₁, calls₁)

-- `__TimerCallback`
unfoldable pub timer_callback : Wakeup → Connection → List Call
timer_callback w c =
    if w.revents.error
    then client_disconnected w.errno ∷ []
    else if w.revents.timer
    then (if leb_ℤ tcp_connection_timeout (sub_int w.now c.last_time)
        then client_timeout ∷ []
        else [])
    else []
