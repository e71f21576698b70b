-- ===== src/Proxy/UdpMain/Relays.antt =====
-- From the command line of the UDP proxy to the datagrams that it sends.
use serverlib.Prelude.{ℕ, suc, ◌+◌, ◌%◌, ◌^◌, List, ◌∷◌, set, length}
use serverlib.Prelude.Int.{pos}
use serverlib.Prelude.Run.{Run}
use serverlib.Framing.Rounds.{packet}
use serverlib.Udp.{Event, sent, on_data_received}
use serverlib.Udp.Client
use serverlib.Udp.Client.{UdpClient}
use serverlib.Udp.Server
use serverlib.Udp.Server.{UdpServer}
use serverlib.Proxy.UdpTrip.{wrap}
use serverlib.Proxy.UdpMain.{Running}

-- What the pool's client that passes a datagram on has told the system, and what its data handle hears
-- of the answer.
abbrev pub passed_on : List ℕ → UdpClient → UdpClient
passed_on bytes c = record c { log = sent c.socket bytes (pos (length bytes)) c.ip c.port ∷ c.log }

abbrev pub heard_of : ℕ → ℕ → List ℕ → UdpClient → UdpClient
heard_of ip port bytes c = record c { log = on_data_received c.data_handle ip port bytes ∷ c.log }

module _ (k ip port : ℕ) (body : List ℕ) (r : Running) (c : UdpClient) where
  abbrev chosen : ℕ
  chosen = (ip + port) % 2 ^ 32 % suc k

  abbrev wrapped : List ℕ
  wrapped = packet (wrap ip port body)

module _ (k ip port : ℕ) (body : List ℕ) (r : Running) (c : UdpClient) where
  abbrev m : ℕ
  m = chosen k ip port body r c

  abbrev w : List ℕ
  w = packet (wrap ip port body)

  abbrev after : List Event → Running
  after log = record r {
    pool = set r.pool m (passed_on w c);
    server = record (r.server) { log = log };
  }

  abbrev hears : List Event
  hears = on_data_received r.server.data_handle ip port (packet body) ∷ r.server.log
