-- ===== src/Echo/Udp.antt =====
-- test/udpechoserver.cpp, from its start on.
use serverlib.Prelude.{ℕ, Bool, List, ◌∷◌, map}
use serverlib.Prelude.Int.{ℤ, pos}
use serverlib.Prelude.Run.{Run, ok}
use serverlib.Udp.{Datagram}
use serverlib.Udp.Server.{UdpServer, new, set_data_handle, start}
use serverlib.Udp.Echo.{echo_callback}

-- `Start()`, with what `socket` and `bind` return, and what its loop then reads.
pub data Input : Type 0 where
  starts : ℕ → ℕ → ℤ → ℤ → Input
  reads : Bool → Datagram → Input

unfoldable pub step : UdpServer → Input → Run UdpServer
step s (starts ip port fd bound) = ok (start ip port fd bound s).0
step s (reads error d) = ok (echo_callback error d s)

-- The two servers before their threads run; their sockets are as the memory has them.
abbrev pub set_up : ℤ → ℤ → UdpServer × UdpServer
set_up garbage other = (set_data_handle 0 (new garbage), set_data_handle 1 (new other))

-- A server is started on a port and gets a descriptor, and then reads.
abbrev pub life : ℕ → ℤ → List (Bool × Datagram) → List Input
life port fd datagrams = starts 0 port fd (pos 0) ∷ map (λ r. reads r.0 r.1) datagrams

started : ℕ → ℤ → ℕ → ℤ → UdpServer
started port fd handle garbage = (start 0 port fd (pos 0) (set_data_handle handle (new garbage))).0
