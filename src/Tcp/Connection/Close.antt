-- ===== src/Tcp/Connection/Close.antt =====
-- `Close()` and the destructor of `CTcpConnection`.
use serverlib.Prelude.{◌≡◌, List, [], ◌∷◌, ◌++◌, if◌then◌else◌, arith}
use serverlib.Prelude.Int.{ℤ, pos, ltb_ℤ}
use serverlib.Socket.{SocketClientData}
use serverlib.Tcp.Connection.{Connection, Call, shut_down, closed, new_connection, close, destroy}

-- `Close()` and then the destructor, which calls it again.
abbrev pub closings : Connection → List Call
closings c = (close c).1 ++ destroy (close c).0

-- A connection's socket is shut down and closed exactly once, whether `Close()` is called before the
-- destructor or not, if its descriptor is above 0; descriptor 0 is never closed.
pub close-once :
    (timeout now : ℤ) (client : SocketClientData)
    → let c = (new_connection timeout now client).0 in
      let once =
        if ltb_ℤ (pos 0) client.socket
        then shut_down client.socket ∷ closed client.socket ∷ []
        else [] in
      (closings c ≡ once) × (destroy c ≡ once)
unfolding new_connection close destroy
close-once timeout now client = (ground arith, ground arith)
