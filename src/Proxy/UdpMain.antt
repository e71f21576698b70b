-- ===== src/Proxy/UdpMain.antt =====
-- `main` of test/udpproxy.cpp: the command line, the pool of clients, what their threads start, and
-- what the proxy's calls do to the server and the pool.
pub mod Started
pub mod Relays
use serverlib.Prelude.{
  ℕ, zero, suc, ◌+◌, false, List, [], ◌∷◌, Option, none, some, get_elem?, set, length, ◌==◌,
  if◌then◌else◌,
}
use serverlib.Prelude.Int.{ℤ, pos, negsuc}
use serverlib.Prelude.Run.{Run, ok, fault, null_pointer, bad_alloc, out_of_bounds, ◌>>=◌}
use serverlib.Arguments.{atoi, address, port_number, to_u16}
use serverlib.Arguments.Loop.{read_arguments}
use serverlib.Udp.{Datagram, received}
use serverlib.Udp.Client
use serverlib.Udp.Client.{UdpClient}
use serverlib.Udp.Server
use serverlib.Udp.Server.{UdpServer}
use serverlib.Proxy.Udp.{Call, client_send, server_send, server_received, client_received}

-- The globals that the command line sets.
pub record Options : Type 0 where
  pub target_ip : List ℕ
  pub target_port : ℤ
  pub concurrency : ℤ

abbrev pub server_port : ℕ
server_port = 9999

-- "127.0.0.1"
abbrev pub defaults : Options
defaults = record {
  target_ip = 49 ∷ 50 ∷ 55 ∷ 46 ∷ 48 ∷ 46 ∷ 48 ∷ 46 ∷ 49 ∷ [];
  target_port = pos 8888;
  concurrency = pos 4;
}

-- The `switch`, with the text of the next argument.
unfoldable pub set_flag : ℕ → List ℕ → Options → Options
set_flag flag text o = if flag == b'c' then record o { concurrency = atoi text } else o

-- Behind the last argument stands a null pointer.
unfoldable pub set_last : ℕ → Options → Run Options
set_last flag o = if flag == b'c' then fault null_pointer else ok o

unfoldable pub set_url : List ℕ → Options → Options
set_url url o = record o { target_ip = address url; target_port = port_number url }

abbrev pub parse : List (List ℕ) → Options → Run Options
parse args o = read_arguments set_flag set_last set_url args o

-- `CUdpProxyClient::Init()`; its data handle is the client's own, and its socket as the memory has it.
unfoldable pub init_client : (ℕ → ℤ) → ℕ → UdpClient
init_client garbage i = Client.set_data_handle i (Client.new (garbage i))

-- `CUdpProxyClientPool::Init()`, from the client `i` on.
unfoldable pub init_pool : (ℕ → ℤ) → ℕ → ℕ → List UdpClient
init_pool garbage zero i = []
init_pool garbage (suc k) i = init_client garbage i ∷ init_pool garbage k (i + 1)

-- `new CUdpProxyClient[concurrency]` throws for a negative number.
unfoldable pub new_pool : (ℕ → ℤ) → ℤ → Run (List UdpClient)
new_pool garbage (pos k) = ok (init_pool garbage k 0)
new_pool garbage (negsuc n) = fault bad_alloc

-- `run_thread_client`, with what `socket()` returns. `resolve` is `ntohl(inet_addr(…))`.
unfoldable pub run_thread_client : (List ℕ → ℕ) → Options → ℤ → UdpClient → UdpClient
run_thread_client resolve o fd c =
    (Client.start (resolve o.target_ip) (to_u16 o.target_port) fd c).0

-- The program once `main` has called the server's `Start()`, which stays in its loop if `bind`
-- succeeded.
pub record Running : Type 0 where
  pub options : Options
  pub pool : List UdpClient
  pub server : UdpServer

-- What `main` sets up once the pool is there, with what `socket` and `bind` return to the server.
abbrev pub set_up : Options → List UdpClient → UdpServer → ℤ → ℤ → Running
set_up o pool s fd bound = record {
  options = o;
  pool = pool;
  server = (Server.start 0 server_port fd bound (Server.set_data_handle (length pool) s)).0;
}

-- `main`, with the arguments behind the program's name; without one, only the usage is printed. The
-- pool and the server are made of memory that holds these sockets.
unfoldable pub main : (ℕ → ℤ) → ℤ → List (List ℕ) → ℤ → ℤ → Run (Option Running)
main garbage own [] fd bound = ok none
main garbage own (arg ∷ args) fd bound = do
  o ← parse (arg ∷ args) defaults
  pool ← new_pool garbage o.concurrency
  ok (some (set_up o pool (Server.new own) fd bound))

-- The threads of the pool, each of which starts its own client; `fds` is what `socket()` returns to
-- them.
unfoldable pub start_pool : (List ℕ → ℕ) → Options → List ℤ → List UdpClient → List UdpClient
start_pool resolve o [] pool = pool
start_pool resolve o (fd ∷ fds) [] = []
start_pool resolve o (fd ∷ fds) (c ∷ pool) =
    run_thread_client resolve o fd c ∷ start_pool resolve o fds pool

abbrev pub start_threads : (List ℕ → ℕ) → List ℤ → Running → Running
start_threads resolve fds r = record r { pool = start_pool resolve r.options fds r.pool }

-- What a call does: `Send()` of the pool's client, or of the server.
unfoldable pub make_call : Call → Running → Run Running
make_call (client_send i bytes) r = elim (get_elem? r.pool i) [
  | none ↦ fault out_of_bounds
  | some c ↦ ok (record r { pool = set r.pool i (Client.send bytes (pos (length bytes)) c) })
]
make_call (server_send ip port bytes) r =
    ok (record r { server = Server.send ip port bytes (pos (length bytes)) r.server })

unfoldable pub make_calls : List Call → Running → Run Running
make_calls [] r = ok r
make_calls (call ∷ calls) r = make_call call r >>= make_calls calls

-- A datagram arrives at the server, whose data handle is told; the remainder is by the size of the
-- pool.
unfoldable pub server_reads : ℕ → ℕ → List ℕ → Running → Run Running
server_reads ip port bytes r = do
  calls ← server_received (length r.pool) ip port bytes []
  make_calls calls
      (record r { server = Server.read_callback false (received ip port bytes) r.server })

-- A datagram arrives at the pool's client `i`.
unfoldable pub client_reads : ℕ → ℕ → ℕ → List ℕ → Running → Run Running
client_reads i ip port bytes r = elim (get_elem? r.pool i) [
  | none ↦ ok r
  | some c ↦
      make_calls (client_received bytes [])
        (record r { pool = set r.pool i (Client.read_callback false (received ip port bytes) c) })
]
