-- ===== src/Tests/TcpRuns.antt =====
-- The theorems on the TCP server and its connections at concrete inputs.
use serverlib.Prelude.{
  sym, ap, length, Bool-cases, inl, inr, ◌∙◌, ◌++◌, ℕ, ◌≡◌, ◌-◌, refl, true, false, leb,
  if◌then◌else◌, List, [], ◌∷◌, none, some, arith,
}
use serverlib.Prelude.Int.{pos}
use serverlib.Prelude.Run.{Returns}
use serverlib.Prelude.Map.{same}
use serverlib.Socket.Order.{client_order}
use serverlib.Socket.{eq}
use serverlib.Socket.Order.{equiv, equiv-eq}
use serverlib.OutputBuffer.{OutputBuffer, get_data_pos}
use serverlib.Tcp.Channels.{new_manager}
use serverlib.Tcp.Channels.View.{new_manager-lookup}
use serverlib.Tcp.Connection
use serverlib.Tcp.Connection.{
  Connection, Call, client_timeout, closed, shut_down, Wakeup, Written, written, write_failed,
  new_connection, timer_callback, io_callback, received,
}
use serverlib.Tcp.Connection.Last.{goes_last, io_callback-goes_last}
use serverlib.Tcp.Connection.Flush.{flush, AllWritable, flush-empties}
use serverlib.OutputBuffer.{get_bytes}
use serverlib.OutputBuffer.Pending.{pending}
use serverlib.Tcp.Connection.Close.{closings, close-once}
use serverlib.Tcp.Connection.Stream
use serverlib.Tcp.Connection.Stream.{IsTraffic, IsAllowed, sends, wakes, run-IsTraffic}
use serverlib.Tcp.Connection.Timer.{timer_callback-idle}
use serverlib.Tcp.Server.{
  new_tcp_server, set_data_handle, tcp_virtual, on_disconnected, on_recv_error, on_send_error,
  on_timeout,
}
use mathlib.Core.Option
use serverlib.Tcp.Server.{TcpServer, async_callback}
use serverlib.Tcp.Server.Given.{HasRoom}
use serverlib.Tcp.Server.Delivery.{owned, queue_of, async_callback-queue}
use serverlib.Tcp.Server.Drop.{Drops, on_disconnected-Drops}
use serverlib.Tcp.Server.Invariant.{IsServer, ready-IsServer}
use serverlib.Tcp.Server.History
use serverlib.Tcp.Server.History.{
  Input, accepts, asyncs, closes, wakes_io, wakes_timer, AllProper, run-IsServer,
}
use serverlib.Tcp.Channels.Refines.{
  Operation, adds, removes, gets, operate, Refines, operate-Refines,
}
use serverlib.Tests.{alice, bob, greeting, busy, reading, fresh, fresh-IsConnection, one_known}

abbrev ready : TcpServer
ready = set_data_handle 1 new_tcp_server

abbrev inputs : List Input
inputs =
    accepts false alice (pos 100)
    ∷ accepts false bob (pos 100)
    ∷ History.sends alice (7 ∷ 8 ∷ []) (pos 2)
    ∷ asyncs
    ∷ wakes_io alice reading
    ∷ wakes_timer bob busy
    ∷ closes alice
    ∷ []

inputs-AllProper : AllProper ready inputs
inputs-AllProper = (
  tt,
  λ s₁ e₁. (
    tt,
    λ s₂ e₂. (
      ((5, refl), (2, refl, omega arith)),
      λ s₃ e₃. (
        tt,
        λ s₄ e₄. (
          (5, refl, λ conn found. tt),
          λ s₅ e₅. ((261, refl), λ s₆ e₆. ((5, refl), λ s₇ e₇. tt)),
        ),
      ),
    ),
  ),
)

run-IsServer_example : Returns (History.run ready inputs) IsServer
run-IsServer_example = run-IsServer 1 inputs inputs-AllProper

abbrev events : List Stream.Event
events = sends greeting ∷ wakes busy ∷ []

events-IsAllowed : IsAllowed (Stream.start fresh) events
unfolding Stream.step Connection.send get_data_pos
events-IsAllowed = (record { sized = refl; within = omega arith }, (omega arith, tt))

run-IsTraffic_example : IsTraffic (Stream.run (Stream.start fresh) events)
run-IsTraffic_example =
    run-IsTraffic (Stream.start fresh) events
      (record { sound = fresh-IsConnection; adds_up = refl }) events-IsAllowed

timer_callback-idle_example :
    timer_callback busy fresh ≡ (if leb 600 (700 - 100) then client_timeout ∷ [] else [])
timer_callback-idle_example =
    timer_callback-idle busy fresh 100 700 refl refl refl refl (omega arith) (omega arith)

close-once_example :
    (closings (new_connection (pos 600) (pos 100) alice).0
      ≡ shut_down (pos 5) ∷ closed (pos 5) ∷ [])
    × (Connection.destroy (new_connection (pos 600) (pos 100) alice).0
        ≡ shut_down (pos 5) ∷ closed (pos 5) ∷ [])
close-once_example = close-once (pos 600) (pos 100) alice

equiv-eq_example : equiv alice bob ≡ eq alice bob
equiv-eq_example = equiv-eq alice bob

-- Two clients in one channel.
abbrev channel_ops : List (Operation ℕ)
channel_ops = adds alice 7 ∷ adds bob 8 ∷ removes alice ∷ gets bob ∷ gets alice ∷ []

operate-Refines_example : Refines (λ client. none) channel_ops (operate new_manager channel_ops)
operate-Refines_example =
    operate-Refines channel_ops
      ((5, refl), ((261, refl), ((5, refl), ((261, refl), ((5, refl), tt)))))

on_disconnected-Drops_example :
    Returns (on_disconnected alice (pos 104) ready) (Drops alice 5 (pos 104) ready)
    × Returns (on_recv_error alice (pos 104) ready) (Drops alice 5 (pos 104) ready)
    × Returns (on_send_error alice (pos 104) ready) (Drops alice 5 (pos 104) ready)
    × Returns (on_timeout alice ready) (Drops alice 5 (pos 0) ready)
unfolding set_data_handle
on_disconnected-Drops_example =
    on_disconnected-Drops alice 5 (pos 104) ready (ready-IsServer 1).manager (1, refl) refl

abbrev posted : TcpServer
posted = record new_tcp_server {
  manager = one_known.0;
  functions = (alice, greeting) ∷ (bob, greeting) ∷ [];
}

posted-HasRoom : HasRoom 2 posted
posted-HasRoom client n c d found = elim (Bool-cases (same alice client)) [
  | inl one ↦
      let e : some fresh ≡ some c = sym (one_known.2.reads client n d ∙ rw one) ∙ found in
      let q : fresh ≡ c = cc in omega (arith, ap (λ (c : Connection). length c.write_queue) q)
  | inr two ↦ absurd (
      cc (
        sym (new_manager-lookup {V = Connection} client n).1
        ∙ sym (one_known.2.reads client n d ∙ rw two)
        ∙ found))
]

async_callback-queue_example : Returns (async_callback posted) (λ s'.
    (queue_of alice 5 s'
      ≡ Option.map
          (λ (q : List OutputBuffer). q ++ owned alice posted.functions)
          (queue_of alice 5 posted))
    × (s'.functions ≡ []))
async_callback-queue_example =
    async_callback-queue posted alice 5 one_known.2.valid ((5, refl), ((261, refl), tt))
      posted-HasRoom refl

io_callback-goes_last_example :
    (goes_last (io_callback busy fresh).1 ≡ true)
    × (goes_last (timer_callback busy fresh) ≡ true)
    × (goes_last (Connection.send greeting fresh).1 ≡ true)
io_callback-goes_last_example = io_callback-goes_last busy greeting fresh

-- The socket is writable, and takes this many bytes.
abbrev trickle : ℕ → Wakeup
trickle n = record {
  revents = record { error = false; read = false; write = true; timer = false };
  recv = received [];
  write = written n;
  errno = pos 0;
  now = pos 700;
}

abbrev trickles : List Wakeup
trickles = trickle 2 ∷ trickle 1 ∷ trickle 1 ∷ trickle 1 ∷ []

abbrev loaded : Connection
loaded = record fresh {
  io = record { fd = pos 5; read = true; write = true };
  write_queue = greeting ∷ [];
}

trickles-AllWritable : AllWritable trickles loaded
unfolding io_callback Connection.write_part Connection.write_front Connection.advance
    Connection.after_write get_bytes get_data_pos
trickles-AllWritable = (
  (refl, refl, refl, (omega arith, omega arith)),
  (
    (refl, refl, refl, (omega arith, omega arith)),
    ((refl, refl, refl, tt), ((refl, refl, refl, tt), tt)),
  ),
)

flush-empties_example :
    ((flush trickles loaded).0.write_queue ≡ [])
    × ((flush trickles loaded).1 ≡ pending loaded.write_queue)
    × ((flush trickles loaded).0.io.write ≡ false)
flush-empties_example =
    flush-empties trickles loaded
      (record {
        buffers = (record { sized = refl; within = omega arith }, tt);
        bounded = omega arith;
        watches = refl;
        reads = refl;
      })
      trickles-AllWritable (omega arith)
