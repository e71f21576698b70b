-- ===== src/Echo.antt =====
-- The echo programs of test/, tcpechoserver.cpp and udpechoserver.cpp: the ports on their command lines,
-- and two servers, each with a data handle and an event loop of its own, in two threads.
pub mod Two
pub mod Udp
pub mod Tcp
use serverlib.Prelude.{ℕ, List, [], ◌∷◌}
use serverlib.Prelude.Int.{ℤ, pos}
use serverlib.Arguments.{atoi}

-- `port` and `port2`, with the arguments behind the program's name.
unfoldable pub ports : List (List ℕ) → ℤ × ℤ
ports [] = (pos 6666, pos 8888)
ports (arg ∷ []) = (atoi arg, pos 8888)
ports (arg ∷ (next ∷ args)) = (atoi arg, atoi next)
