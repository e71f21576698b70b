-- ===== src/Socket.antt =====
-- isocket.h: the key under which the servers keep a client.
pub mod Order
use serverlib.Prelude.{ℕ, ◌<◌, ◌^◌, Bool, true, false, ◌&&◌, ◌==◌, ltb, if◌then◌else◌}
use serverlib.Prelude.Int.{ℤ, pos, negsuc, ltb_ℤ, eqb_ℤ, ◌≤ℤ◌}
use serverlib.Prelude.Words.{int_max}

-- `IP` and `Port` are unsigned, and `Socket` is an `int`.
pub record SocketClientData : Type 0 where
  pub ip : ℕ
  pub port : ℕ
  pub socket : ℤ

-- `operator<`
unfoldable pub lt : SocketClientData → SocketClientData → Bool
lt a b =
    if ltb a.ip b.ip
    then true
    else if a.ip == b.ip
    then (if ltb a.port b.port
        then true
        else if a.port == b.port
        then ltb_ℤ a.socket b.socket
        else false)
    else false

-- `operator==`
unfoldable pub eq : SocketClientData → SocketClientData → Bool
eq a b = a.ip == b.ip && a.port == b.port && eqb_ℤ a.socket b.socket

-- The ranges of the fields' types.
pub record IsSocketClientData (c : SocketClientData) : Type 0 where
  pub ip : c.ip < 2 ^ 32
  pub port : c.port < 2 ^ 16
  pub socket_low : negsuc int_max ≤ℤ c.socket
  pub socket_high : c.socket ≤ℤ pos int_max
