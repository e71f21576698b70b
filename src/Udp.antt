-- ===== src/Udp.antt =====
-- `CUdpServer` of udpserver.h and udpserver.cpp, and `CUdpClient` of udpclient.h and udpclient.cpp:
-- datagrams, which are sent at once and read by the event loop. The log, newest first, is what the
-- object tells its data handle and the system.
pub mod Server
pub mod Client
pub mod Open
pub mod Echo
use serverlib.Prelude.{
  ℕ, ◌%◌, ◌^◌, Bool, true, false, List, [], ◌∷◌, Option, none, some, if◌then◌else◌,
}
use serverlib.Prelude.Int.{ℤ, pos, ltb_ℤ, eqb_ℤ}

-- The data handle's call, and the system calls on a socket. `sent` is a `sendto` of a memory and a
-- length to an address and a port, and `binds` a `bind` of a socket to them.
pub data Event : Type 0 where
  on_data_received : Option ℕ → ℕ → ℕ → List ℕ → Event
  sent : ℤ → List ℕ → ℤ → ℕ → ℕ → Event
  binds : ℤ → ℕ → ℕ → Event
  set_nonblock closed : ℤ → Event

-- What `recvfrom` returned: a datagram with its sender's address and port, or -1.
pub data Datagram : Type 0 where
  received : ℕ → ℕ → List ℕ → Datagram
  recv_failed : Datagram

-- The part of `__ReadCallback` that both classes share: an error bit and an empty datagram are
-- ignored.
abbrev pub heard : Option ℕ → Bool → Datagram → List Event → List Event
heard handle error (received ip port []) log = log
heard handle error (received ip port (b ∷ bytes)) log =
    if error then log else on_data_received handle ip port (b ∷ bytes) ∷ log
heard handle error recv_failed log = log
