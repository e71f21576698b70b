-- ===== src/Proxy/Main.antt =====
-- `main` of test/tcpproxy.cpp: the command line, the pool of clients, and what their threads start.
pub mod Settings
pub mod Pool
pub mod Forwards
use serverlib.Prelude.{
  ℕ, zero, suc, ◌+◌, ◌-◌, ◌%◌, ◌^◌, Bool, true, false, List, [], ◌∷◌, Option, none, some, get_elem?,
  set, length, ◌==◌, if◌then◌else◌,
}
use serverlib.Prelude.Int.{ℤ, pos, negsuc}
use serverlib.Prelude.Run.{Run, ok, fault, null_pointer, bad_alloc, out_of_bounds, ◌>>=◌}
use serverlib.Arguments.{atoi, address, port_number, to_u16}
use serverlib.Arguments.Loop.{read_arguments}
use serverlib.Tcp.Client
use serverlib.Tcp.Client.{TcpClient, new_tcp_client}
use serverlib.Tcp.Server
use serverlib.Tcp.Server.{TcpServer, new_tcp_server}
use serverlib.Proxy.Tcp.{Proxy, Call, client_send, server_send}

-- The globals that the command line sets.
pub record Options : Type 0 where
  pub server_ip : List ℕ
  pub server_port : ℤ
  pub target_ip : List ℕ
  pub target_port : ℤ
  pub concurrency : ℤ

-- "0.0.0.0" and "127.0.0.1"
abbrev pub defaults : Options
defaults = record {
  server_ip = 48 ∷ 46 ∷ 48 ∷ 46 ∷ 48 ∷ 46 ∷ 48 ∷ [];
  server_port = pos 9999;
  target_ip = 49 ∷ 50 ∷ 55 ∷ 46 ∷ 48 ∷ 46 ∷ 48 ∷ 46 ∷ 49 ∷ [];
  target_port = pos 8888;
  concurrency = pos 4;
}

-- The `switch`, with the text of the next argument.
unfoldable pub set_flag : ℕ → List ℕ → Options → Options
set_flag flag text o =
    if flag == b'c'
    then record o { concurrency = atoi text }
    else if flag == b's'
    then record o { server_ip = address text; server_port = port_number text }
    else if flag == b'd'
    then record o { target_ip = address text; target_port = port_number text }
    else o

-- Behind the last argument stands a null pointer.
unfoldable pub set_last : ℕ → Options → Run Options
set_last flag o =
    if flag == b'c'
    then fault null_pointer
    else if flag == b's'
    then fault null_pointer
    else if flag == b'd'
    then fault null_pointer
    else ok o

-- What is no flag is passed over.
abbrev pub parse : List (List ℕ) → Options → Run Options
parse args o = read_arguments set_flag set_last (λ arg o. o) args o

-- `CTcpProxyClient::Init()`; its data handle is the client's own.
unfoldable pub init_client : ℕ → TcpClient
init_client i = Client.set_data_handle i new_tcp_client

-- `CTcpProxyClientPool::Init()`, from the client `i` on.
unfoldable pub init_pool : ℕ → ℕ → List TcpClient
init_pool zero i = []
init_pool (suc k) i = init_client i ∷ init_pool k (i + 1)

-- `new CTcpProxyClient[concurrency]` throws for a negative number.
unfoldable pub new_pool : ℤ → Run (ℕ × List TcpClient)
new_pool (pos k) = ok (k, init_pool k 0)
new_pool (negsuc n) = fault bad_alloc

-- `run_thread_client`, with what `socket()` returns. `resolve` is `ntohl(inet_addr(…))`.
unfoldable pub run_thread_client : (List ℕ → ℕ) → Options → ℤ → TcpClient → TcpClient
run_thread_client resolve o fd c =
    (Client.start (resolve o.target_ip) (to_u16 o.target_port) fd c).0

-- The program once `main` has called the server's `Start()`, which stays in its loop if `bind`
-- succeeded.
pub record Running : Type 0 where
  pub options : Options
  pub proxy : Proxy
  pub pool : List TcpClient
  pub server : TcpServer

-- What `main` sets up once the pool is there, with what `socket` and `bind` return to the server.
abbrev pub set_up : (List ℕ → ℕ) → Options → ℕ × List TcpClient → ℤ → ℤ → Running
set_up resolve o pool fd bound = record {
  options = o;
  proxy = record { concurrency = pool.0; requests = []; replies = []; calls = [] };
  pool = pool.1;
  server =
      (Server.start (resolve o.server_ip) (to_u16 o.server_port) fd bound
        (Server.set_data_handle pool.0 new_tcp_server)).0;
}

-- `main`, with the arguments behind the program's name; with fewer than two, only the usage is
-- printed.
unfoldable pub main : (List ℕ → ℕ) → List (List ℕ) → ℤ → ℤ → Run (Option Running)
main resolve [] fd bound = ok none
main resolve (arg ∷ []) fd bound = ok none
main resolve (arg ∷ (next ∷ args)) fd bound = do
  o ← parse (arg ∷ (next ∷ args)) defaults
  pool ← new_pool o.concurrency
  ok (some (set_up resolve o pool fd bound))

-- `Send()` of the pool's client `i`.
unfoldable pub send_by : ℕ → List ℕ → List TcpClient → Run (List TcpClient)
send_by i bytes pool = elim (get_elem? pool i) [
  | none ↦ fault out_of_bounds
  | some c ↦ Client.post_send bytes (pos (length bytes)) c >>= λ r. ok (set pool i r.0)
]

-- The calls of a proxy, in order: to a client of the pool, and to the server.
unfoldable pub make_calls : List Call → Running → Run Running
make_calls [] r = ok r
make_calls (client_send i bytes ∷ calls) r = do
  pool ← send_by i bytes r.pool
  make_calls calls (record r { pool = pool })
make_calls (server_send client bytes ∷ calls) r = do
  s ← Server.post_send client bytes (pos (length bytes)) r.server
  make_calls calls (record r { server = s.0 })
