-- ===== src/Tests.antt =====
-- The theorems at concrete inputs: two clients in one channel, a server with two threads.
pub mod TcpRuns
pub mod CommonRuns
pub mod OtherRuns
pub mod BenchRuns
pub mod AnswerRuns
pub mod SystemRuns
pub mod UserRuns
pub mod EchoRuns
use serverlib.Prelude.{◌∙◌, refl, some, ◌≡◌, arith, ℕ, List, [], ◌∷◌, false, true}
use serverlib.Prelude.Int.{ℤ, pos}
use serverlib.Prelude.Map.{same_refl}
use serverlib.Prelude.Run.{Returns}
use serverlib.Tcp.Channels.{add, new_manager}
use serverlib.Tcp.Channels.View.{lookup, Writes, add-Writes, new_manager-lookup}
use serverlib.Tcp.Connection.Queue.{IsConnection}
use serverlib.Socket.Order.{client_order}
use serverlib.Socket.{SocketClientData}
use serverlib.OutputBuffer.{OutputBuffer}
use serverlib.Tcp.Connection.{Connection, Wakeup, Revents, received, written, write_failed}

-- Their descriptors, 5 and 261, have one remainder by 256.
abbrev pub alice : SocketClientData
alice = record { ip = 1; port = 2; socket = pos 5 }

abbrev pub bob : SocketClientData
bob = record { ip = 1; port = 3; socket = pos 261 }

abbrev pub greeting : OutputBuffer
greeting = record { data_bytes = 7 ∷ 8 ∷ 9 ∷ []; len = 3; position = 0 }

-- libev reports the events, two bytes come in, and `write` takes two.
abbrev pub busy : Wakeup
busy = record {
  revents = record { error = false; read = true; write = true; timer = true };
  recv = received (1 ∷ 2 ∷ []);
  write = written 2;
  errno = pos 0;
  now = pos 700;
}

-- The same, with a `write` that would block.
abbrev pub reading : Wakeup
reading = record busy { write = write_failed (pos 11) }

abbrev pub fresh : Connection
fresh = record {
  client = alice;
  socket = pos 5;
  io = record { fd = pos 5; read = true; write = false };
  timer = record { after = pos 600; repeat = pos 600 };
  write_queue = [];
  last_time = pos 100;
}

pub fresh-IsConnection : IsConnection fresh
fresh-IsConnection = record { buffers = tt; bounded = omega arith; watches = refl; reads = refl }

-- A new manager to which a connection of `alice` is added.
pub one_known : Returns (add alice fresh new_manager) (Writes alice (some fresh) new_manager)
one_known =
    add-Writes alice 5 fresh new_manager (new_manager-lookup {V = Connection} alice 5).0 refl

pub alice-known : lookup alice 5 one_known.0 ≡ some fresh
alice-known = one_known.2.reads alice 5 refl ∙ rw (same_refl alice)
