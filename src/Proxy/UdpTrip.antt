-- ===== src/Proxy/UdpTrip.antt =====
-- A datagram on its way through the UDP proxy to the target, and back.
use serverlib.Prelude.{
  ℕ, suc, ◌+◌, ◌-◌, ◌%◌, ◌^◌, ◌<◌, ◌≡◌, refl, List, [], ◌∷◌, ◌++◌, lt→leb_false, drop, length,
  arith,
}
use serverlib.Prelude.Words.{bytes32, read32, read32-bytes32, length-bytes32}
use serverlib.Prelude.Run.{ok}
use serverlib.Framing.Rounds.{packet, length-packet, drop-append}
use serverlib.Proxy.Wire.{bytes16, read16, read16-bytes16}
use serverlib.Proxy.Udp.{
  Call, client_send, server_send, pool_index, server_received, client_received,
}

-- The body that the proxy sends for a body from this address and port.
abbrev pub wrap : ℕ → ℕ → List ℕ → List ℕ
wrap ip port body = bytes32 ip ++ (bytes16 port ++ body)

length-wrap : (ip port : ℕ) (body : List ℕ) → length (wrap ip port body) ≡ length body + 6
unfolding bytes32 bytes16
length-wrap ip port body = omega arith

sends_on :
    (k ip port : ℕ) (body : List ℕ) (calls : List Call)
    → 0 < length body
    → server_received (suc k) ip port (packet body) calls
      ≡ ok (calls ++ client_send ((ip + port) % 2 ^ 32 % suc k) (packet (wrap ip port body)) ∷ [])
unfolding server_received pool_index
sends_on k ip port body calls h =
    rw
      (
        lt→leb_false (length (packet body)) 4 (omega (arith, length-packet body)),
        size,
        drop-append 4 (bytes32 (length body)) body (length-bytes32 (length body)),
      )
      refl
  where
    size : length (packet body) - 4 + 6 ≡ length (wrap ip port body)
    size = omega (arith, length-packet body, length-wrap ip port body)

parts :
    (ip port : ℕ) (body : List ℕ)
    → ip < 2 ^ 32
    → port < 2 ^ 16
    → (read32 (drop 4 (packet (wrap ip port body))) ≡ ip)
      × (read16 (drop 8 (packet (wrap ip port body))) ≡ port)
      × (drop 10 (packet (wrap ip port body)) ≡ body)
unfolding bytes32 bytes16 read32 read16
parts ip port body h k =
    (read32-bytes32 ip (bytes16 port ++ body) h, read16-bytes16 port body k, refl)

-- From an address of 32 bits and a port of 16, and with one pool client or more: a datagram with a
-- body that is not empty goes on once, to the pool client that the sender's address and port
-- choose, with these before its body; and when the target answers with that datagram, what comes
-- back to the sender is a datagram with the same body.
pub datagram_trip :
    (k ip port : ℕ) (body : List ℕ) (calls calls' : List Call)
    → ip < 2 ^ 32
    → port < 2 ^ 16
    → 0 < length body
    → (server_received (suc k) ip port (packet body) calls
        ≡ ok
            (calls ++ client_send ((ip + port) % 2 ^ 32 % suc k) (packet (wrap ip port body)) ∷ []))
      × (client_received (packet (wrap ip port body)) calls'
          ≡ calls' ++ server_send ip port (packet body) ∷ [])
unfolding client_received
datagram_trip k ip port body calls calls' h p long = (
  sends_on k ip port body calls long,
  rw
      (
        lt→leb_false (length (packet (wrap ip port body))) 10 (omega (arith, size)),
        at.0,
        at.1,
        at.2,
        back,
      )
      refl,
)
  where
    at :
        (read32 (drop 4 (packet (wrap ip port body))) ≡ ip)
        × (read16 (drop 8 (packet (wrap ip port body))) ≡ port)
        × (drop 10 (packet (wrap ip port body)) ≡ body)
    at = parts ip port body h p

    size : length (packet (wrap ip port body)) ≡ length body + 10
    size = omega (arith, length-packet (wrap ip port body), length-wrap ip port body)

    back : length (packet (wrap ip port body)) - 10 ≡ length body
    back = omega (arith, size)
