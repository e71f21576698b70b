-- ===== src/Tests/UserRuns.antt =====
-- The theorems on headers, the signal handler and descriptors at concrete inputs.
use serverlib.Prelude.{ℕ, ◌≡◌, refl, true, not, List, [], ◌∷◌, none, some, take, arith}
use serverlib.Prelude.Int.{pos}
use serverlib.Prelude.Run.{Returns}
use serverlib.Prelude.Map.{same}
use serverlib.Socket.{SocketClientData, IsSocketClientData, lt}
use serverlib.Socket.Order.{client_order}
use serverlib.SigHandle.{
  Life, server_starts, client_starts, deletes, live_all, new_process, exits_well, first_started,
  deletes_loop, live_all-exits_well,
}
use serverlib.Tcp.Server.{TcpServer, new_tcp_server}
use serverlib.Tcp.Client.{new_tcp_client}
use serverlib.Tcp.Server.Reuse.{closed_then, BothRead, close_client-BothRead}
use serverlib.Proxy.Wire.{client_bytes, read_client}
use serverlib.Proxy.Header.{read_client-IsSocketClientData}
use serverlib.Tests.{alice, fresh, one_known, alice-known}

-- The first server's port is taken; the object of the first loop that runs is deleted before the
-- process exits.
abbrev lives : List Life
lives =
    server_starts 0 new_tcp_server 0 80 (pos 3) (pos 1)
    ∷ client_starts 1 new_tcp_client 0 80 (pos 4)
    ∷ server_starts 2 new_tcp_server 0 81 (pos 5) (pos 0)
    ∷ deletes 1
    ∷ []

live_all-exits_well_example :
    exits_well (live_all lives new_process)
    ≡ (elim (first_started lives) [ none ↦ true | some loop ↦ not (deletes_loop loop lives) ])
live_all-exits_well_example = live_all-exits_well lives

-- The bytes of `alice`, and of a packet behind them.
abbrev memory : List ℕ
memory = 1 ∷ 0 ∷ 0 ∷ 0 ∷ 2 ∷ 0 ∷ 5 ∷ 0 ∷ 0 ∷ 0 ∷ 255 ∷ []

read_client-IsSocketClientData_example :
    IsSocketClientData (read_client memory) × (client_bytes (read_client memory) ≡ take 10 memory)
read_client-IsSocketClientData_example =
    read_client-IsSocketClientData memory
      (
        omega arith,
        (
          omega arith,
          (
            omega arith,
            (
              omega arith,
              (
                omega arith,
                (
                  omega arith,
                  (omega arith, (omega arith, (omega arith, (omega arith, (omega arith, tt))))),
                ),
              ),
            ),
          ),
        ),
      )
      (omega arith)

abbrev carol : SocketClientData
carol = record { ip = 9; port = 9; socket = pos 5 }

abbrev connected : TcpServer
connected = record new_tcp_server { manager = one_known.0; data_handle = some 1 }

close_client-BothRead_example :
    Returns (closed_then alice carol (pos 200) connected) (BothRead 5 alice carol)
unfolding same lt
close_client-BothRead_example =
    close_client-BothRead alice carol 5 fresh (pos 200) connected (one_known.2.valid, (1, refl))
      refl refl refl alice-known refl refl
