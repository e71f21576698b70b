-- ===== src/Proxy/Udp.antt =====
-- test/udpproxy.cpp: the two data handles and the pool of clients. The calls made are listed in
-- order; a datagram's length is the length of its memory.
use serverlib.Prelude.{
  ℕ, zero, suc, ◌+◌, ◌-◌, ◌%◌, ◌^◌, List, [], ◌∷◌, ◌++◌, leb, drop, length, if◌then◌else◌,
}
use serverlib.Prelude.Words.{bytes32, read32}
use serverlib.Prelude.Run.{Run, ok, fault, out_of_bounds, ◌>>=◌}
use serverlib.Proxy.Wire.{bytes16, read16}

-- `Send()` of a client of the pool, and of the server.
pub data Call : Type 0 where
  client_send : ℕ → List ℕ → Call
  server_send : ℕ → ℕ → List ℕ → Call

-- `__Hash()` of the pool: the sum and the remainder are those of `unsigned int`. With no clients the
-- remainder is undefined.
unfoldable pub pool_index : ℕ → ℕ → ℕ → Run ℕ
pool_index zero ip port = fault out_of_bounds
pool_index (suc k) ip port = ok ((ip + port) % 2 ^ 32 % suc k)

-- `OnDataReceived` of the server's data handle.
unfoldable pub server_received : ℕ → ℕ → ℕ → List ℕ → List Call → Run (List Call)
server_received concurrency ip port bytes calls =
    let size = length bytes - 4 + 6 in
    if leb (length bytes) 4 then ok calls else do
      i ← pool_index concurrency ip port
      ok (
          calls
          ++ client_send i (bytes32 size ++ (bytes32 ip ++ (bytes16 port ++ drop 4 bytes))) ∷ [])

-- `OnDataReceived` of a pool client's data handle, which does not use the datagram's own sender.
unfoldable pub client_received : List ℕ → List Call → List Call
client_received bytes calls =
    let ip = read32 (drop 4 bytes) in
    let port = read16 (drop 8 bytes) in
    if leb (length bytes) 10
    then calls
    else calls ++ server_send ip port (bytes32 (length bytes - 10) ++ drop 10 bytes) ∷ []
