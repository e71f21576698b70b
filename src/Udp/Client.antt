-- ===== src/Udp/Client.antt =====
-- `CUdpClient` of udpclient.h and udpclient.cpp.
use serverlib.Prelude.{ℕ, Bool, true, false, List, [], ◌∷◌, Option, none, some, if◌then◌else◌}
use serverlib.Prelude.Int.{ℤ, pos, ltb_ℤ}
use serverlib.Udp.{Event, sent, set_nonblock, closed, Datagram, heard}

pub record UdpClient : Type 0 where
  pub data_handle : Option ℕ
  pub ip : ℕ
  pub port : ℕ
  pub socket : ℤ
  pub reading : Bool
  pub looping : Bool
  pub log : List Event

unfoldable pub new : ℤ → UdpClient
new garbage = record {
  data_handle = none;
  ip = 0;
  port = 0;
  socket = garbage;
  reading = false;
  looping = false;
  log = [];
}

unfoldable pub set_data_handle : ℕ → UdpClient → UdpClient
set_data_handle handle c = record c { data_handle = some handle }

-- `Start()`, with what `socket` returned, which is not tested.
unfoldable pub start : ℕ → ℕ → ℤ → UdpClient → UdpClient × Bool
start ip port fd c = (
  record c {
    ip = ip;
    port = port;
    socket = fd;
    reading = true;
    looping = true;
    log = set_nonblock fd ∷ c.log;
  },
  true,
)

unfoldable pub stop : UdpClient → UdpClient × Bool
stop c =
    let c' =
      if ltb_ℤ (pos 0) c.socket
      then record c { socket = pos 0; log = closed c.socket ∷ c.log }
      else c in
    (record c' { reading = false; looping = false }, true)

unfoldable pub send : List ℕ → ℤ → UdpClient → UdpClient
send bytes len c =
    if ltb_ℤ (pos 0) c.socket
    then record c { log = sent c.socket bytes len c.ip c.port ∷ c.log }
    else c

unfoldable pub read_callback : Bool → Datagram → UdpClient → UdpClient
read_callback error d c = record c { log = heard c.data_handle error d c.log }
