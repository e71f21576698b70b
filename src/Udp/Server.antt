-- ===== src/Udp/Server.antt =====
-- `CUdpServer` of udpserver.h and udpserver.cpp.
use serverlib.Prelude.{
  ℕ, ◌%◌, ◌^◌, Bool, true, false, List, [], ◌∷◌, Option, none, some, if◌then◌else◌,
}
use serverlib.Prelude.Int.{ℤ, pos, ltb_ℤ, eqb_ℤ}
use serverlib.Udp.{Event, sent, binds, set_nonblock, closed, Datagram, heard}

pub record UdpServer : Type 0 where
  pub data_handle : Option ℕ
  pub socket : ℤ
  pub reading : Bool
  pub looping : Bool
  pub log : List Event

-- The constructor leaves `m_Socket` as the memory has it.
unfoldable pub new : ℤ → UdpServer
new garbage = record {
  data_handle = none;
  socket = garbage;
  reading = false;
  looping = false;
  log = [];
}

unfoldable pub set_data_handle : ℕ → UdpServer → UdpServer
set_data_handle handle s = record s { data_handle = some handle }

-- `Start()`, with what `socket` and `bind` returned: up to the event loop, and the result.
unfoldable pub start : ℕ → ℕ → ℤ → ℤ → UdpServer → UdpServer × Bool
start ip port fd bound s =
    let s' = record s {
      socket = fd;
      log = binds fd (ip % 2 ^ 32) port ∷ (set_nonblock fd ∷ s.log);
    } in
    if eqb_ℤ bound (pos 0)
    then (record s' { reading = true; looping = true }, true)
    else (s', false)

unfoldable pub stop : UdpServer → UdpServer × Bool
stop s =
    let s' =
      if ltb_ℤ (pos 0) s.socket
      then record s { socket = pos 0; log = closed s.socket ∷ s.log }
      else s in
    (record s' { reading = false; looping = false }, true)

-- `Send()`: `htonl` takes the low 32 bits of the `unsigned long`.
unfoldable pub send : ℕ → ℕ → List ℕ → ℤ → UdpServer → UdpServer
send ip port bytes len s =
    if ltb_ℤ (pos 0) s.socket
    then record s { log = sent s.socket bytes len (ip % 2 ^ 32) port ∷ s.log }
    else s

-- `__ReadCallback`
unfoldable pub read_callback : Bool → Datagram → UdpServer → UdpServer
read_callback error d s = record s { log = heard s.data_handle error d s.log }
