-- ===== src/Proxy/Tcp.antt =====
-- test/tcpproxy.cpp: the two content managers, the data handles that feed them, and the pool of
-- clients through which packets go to the target. The calls made are listed in order.
use serverlib.Prelude.{ℕ, zero, suc, ◌%◌, List, [], ◌∷◌, ◌++◌, none, some, drop, if◌then◌else◌}
use serverlib.Prelude.Int.{ℤ, pos, negsuc, leb_ℤ}
use serverlib.Prelude.Words.{bytes32, word32, add_int, sub_int}
use serverlib.Prelude.Map
use serverlib.Prelude.Map.{Map}
use serverlib.Prelude.Run.{Run, ok, fault, out_of_bounds, ◌>>=◌}
use serverlib.Socket.{SocketClientData}
use serverlib.Socket.Order.{client_order}
use serverlib.Framing.{pkt_len, feed}
use serverlib.Proxy.Wire.{client_bytes, read_client, copied}

-- `Send()` of a client of the pool, and of the server.
pub data Call : Type 0 where
  client_send : ℕ → List ℕ → Call
  server_send : SocketClientData → List ℕ → Call

-- `m_userRequests` of the server's content manager, and of one pool client's.
pub record Proxy : Type 0 where
  pub concurrency : ℕ
  pub requests : Map SocketClientData (List ℕ)
  pub replies : Map SocketClientData (List ℕ)
  pub calls : List Call

-- `__Hash()` of the pool, as an index of its array: undefined for no clients, and outside the array
-- for a negative remainder.
unfoldable pub pool_index : ℕ → SocketClientData → Run ℕ
pool_index zero client = fault out_of_bounds
pool_index (suc k) client = elim client.socket [
  | pos n ↦ ok (n % suc k)
  | negsuc n ↦ elim (suc n % suc k) [ zero ↦ ok 0 | suc r ↦ fault out_of_bounds ]
]

-- `Send()` of the pool.
unfoldable pub pool_send : ℕ → SocketClientData → List ℕ → List Call → Run (List Call)
pool_send concurrency client bytes calls = do
  i ← pool_index concurrency client
  ok (calls ++ client_send i bytes ∷ [])

-- `HandlePkt` of `CServerContentManager`
unfoldable pub handle_request : ℕ → SocketClientData → List ℕ → ℤ → List Call → Run (List Call)
handle_request concurrency client bytes len calls = do
  body ← copied bytes len
  pool_send concurrency client
      (bytes32 (word32 (add_int len (pos 10))) ++ (client_bytes client ++ body)) calls

-- `HandlePkt` of `CClientContentManager`
unfoldable pub handle_reply : List ℕ → ℤ → List Call → Run (List Call)
handle_reply bytes len calls =
    let size = sub_int len (pos 10) in
    if leb_ℤ len (pos 10) then ok calls else do
      head ← copied bytes (pos 10)
      body ← copied (drop 10 bytes) size
      ok (calls ++ server_send (read_client head) (bytes32 (word32 size) ++ body) ∷ [])

-- The body of the loop in `Add`, which passes `&strData[4], nPktLen`.
abbrev pub on_request : ℕ → SocketClientData → List Call → List ℕ → ℤ → Run (List Call)
on_request concurrency client calls buf total =
    handle_request concurrency client (drop 4 buf) (pkt_len buf) calls

abbrev pub on_reply : List Call → List ℕ → ℤ → Run (List Call)
on_reply calls buf total = handle_reply (drop 4 buf) (pkt_len buf) calls

unfoldable pub content : SocketClientData → Map SocketClientData (List ℕ) → List ℕ
content client m = elim (Map.find client m) [ none ↦ [] | some bytes ↦ bytes ]

-- `OnClientDataReceived` of the server's data handle: `Add`.
unfoldable pub client_data_received : SocketClientData → List ℕ → Proxy → Run Proxy
client_data_received client bytes p = do
  r ← feed (on_request p.concurrency client) p.calls (content client p.requests) bytes
  ok (record p { requests = Map.assign client r.1 p.requests; calls = r.0 })

-- `OnDataReceived` of a pool client's data handle, `peer` being the key of its connection.
unfoldable pub data_received : SocketClientData → List ℕ → Proxy → Run Proxy
data_received peer bytes p = do
  r ← feed on_reply p.calls (content peer p.replies) bytes
  ok (record p { replies = Map.assign peer r.1 p.replies; calls = r.0 })

-- `OnClientDisconnected` of the server's data handle: `Remove`.
unfoldable pub client_disconnected : SocketClientData → Proxy → Proxy
client_disconnected client p = record p { requests = Map.erase client p.requests }

-- `OnDisconnected`, `OnSendError` and `OnRecvError` of a pool client's data handle.
unfoldable pub disconnected : SocketClientData → Proxy → Proxy
disconnected peer p = record p { replies = Map.erase peer p.replies }
