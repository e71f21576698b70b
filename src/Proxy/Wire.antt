-- ===== src/Proxy/Wire.antt =====
-- How the proxies lay numbers and clients out in bytes: the packed `SocketClientData_t` of isocket.h
-- takes ten.
use serverlib.Prelude.{
  ℕ, ◌+◌, ◌*◌, ◌/◌, ◌%◌, ◌^◌, ◌<◌, ◌≤◌, ◌≡◌, refl, ap, ◌∙◌, List, [], ◌∷◌, ◌++◌, leb, le→leb,
  if◌then◌else◌, length, take, drop, get_or, append_assoc, arith,
}
use serverlib.Prelude.Int.{ℤ, pos, negsuc}
use serverlib.Prelude.Words.{
  bytes32, read32, read32-bytes32, length-bytes32, word32, signed32, signed32-word32,
}
use serverlib.Prelude.Run.{Run, ok, fault, out_of_bounds}
use serverlib.Framing.Rounds.{drop-append}
use serverlib.Socket.{SocketClientData, IsSocketClientData}

-- `unsigned short` in memory.
unfoldable pub bytes16 : ℕ → List ℕ
bytes16 w = (w % 256) ∷ (w / 256 % 256) ∷ []

unfoldable pub read16 : List ℕ → ℕ
read16 b = get_or b 0 0 + 256 * get_or b 1 0

-- `(char*)&sClient, (char*)&sClient + sizeof(SocketClientData_t)`
unfoldable pub client_bytes : SocketClientData → List ℕ
client_bytes c = bytes32 c.ip ++ (bytes16 c.port ++ bytes32 (word32 c.socket))

-- `*(SocketClientData_t*)pData`
unfoldable pub read_client : List ℕ → SocketClientData
read_client b = record {
  ip = read32 b;
  port = read16 (drop 4 b);
  socket = signed32 (read32 (drop 6 b));
}

-- The bytes from a pointer to the pointer plus a length; outside the memory, this is undefined.
unfoldable pub copied : List ℕ → ℤ → Run (List ℕ)
copied bytes (pos n) = if leb n (length bytes) then ok (take n bytes) else fault out_of_bounds
copied bytes (negsuc n) = fault out_of_bounds

pub copied_lem :
    (bytes : List ℕ) (n : ℕ) → n ≤ length bytes → copied bytes (pos n) ≡ ok (take n bytes)
unfolding copied
copied_lem bytes n h = rw (le→leb n (length bytes) h)

pub length-client_bytes : (c : SocketClientData) → length (client_bytes c) ≡ 10
unfolding client_bytes bytes32 bytes16
length-client_bytes c = refl

word32-lt : (a : ℤ) → word32 a < 2 ^ 32
word32-lt (pos n) = omega arith
word32-lt (negsuc n) = omega arith

pub read16-bytes16 : (w : ℕ) (rest : List ℕ) → w < 2 ^ 16 → read16 (bytes16 w ++ rest) ≡ w
unfolding read16 bytes16
read16-bytes16 w rest h = omega arith

at_six :
    (c : SocketClientData) (rest : List ℕ)
    → read32 (drop 6 (bytes32 c.ip ++ ((bytes16 c.port ++ bytes32 (word32 c.socket)) ++ rest)))
      ≡ word32 c.socket
unfolding bytes32 bytes16 read32
at_six c rest = read32-bytes32 (word32 c.socket) rest (word32-lt c.socket)

-- A client that is laid out and read again is the same.
pub read_client-client_bytes :
    (c : SocketClientData) (rest : List ℕ)
    → IsSocketClientData c
    → read_client (client_bytes c ++ rest) ≡ c
unfolding read_client client_bytes
read_client-client_bytes c rest v =
    rw
      (
        append_assoc (bytes32 c.ip) (bytes16 c.port ++ socket) rest,
        read32-bytes32 c.ip ((bytes16 c.port ++ socket) ++ rest) v.ip,
        at_four,
        at_six c rest,
        signed32-word32 c.socket v.socket_low v.socket_high,
      )
      refl
  where
    socket : List ℕ
    socket = bytes32 (word32 c.socket)

    at_four : read16 (drop 4 (bytes32 c.ip ++ ((bytes16 c.port ++ socket) ++ rest))) ≡ c.port
    at_four =
        ap read16 (
          drop-append 4 (bytes32 c.ip) _ (length-bytes32 c.ip)
          ∙ append_assoc (bytes16 c.port) socket rest)
        ∙ read16-bytes16 c.port (socket ++ rest) v.port
