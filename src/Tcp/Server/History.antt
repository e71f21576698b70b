-- ===== src/Tcp/Server/History.antt =====
-- Any history of a server: calls of its users, from whichever thread, and callbacks of the loop, in
-- any order.
use serverlib.Prelude.{ℕ, ◌≤◌, ◌≡◌, refl, inl, inr, Bool-cases, Bool, List, [], ◌∷◌, some, length}
use serverlib.Prelude.Int.{ℤ, pos, eqb_ℤ}
use serverlib.Prelude.Run.{Run, Fault, ok, Returns, ◌>>=◌}
use serverlib.Socket.{SocketClientData}
use serverlib.Socket.Order.{client_order}
use serverlib.Tcp.Channels.View.{Descriptor, lookup}
use serverlib.Tcp.Connection.{Connection, Wakeup}
use serverlib.Tcp.Connection.Queue.{Takes}
use serverlib.Tcp.Server.{
  TcpServer, Virtual, new_tcp_server, tcp_virtual, set_data_handle, set_connection_timeout, start,
  stop, post_send, close_client, accept, wake_io, wake_timer, async_callback,
}
use serverlib.Tcp.Server.Invariant.{
  IsServer, ready-IsServer, accept-IsServer, close_client-IsServer, post_send-IsServer,
}
use serverlib.Tcp.Server.Loop.{Ends, Keeps, wake_io-Ends, wake_timer-Ends, async_callback-Ends}
use serverlib.Tcp.Server.Plain.{Never, tcp_virtual-Keeps}

-- What can happen to a server.
pub data Input : Type 0 where
  sets_data_handle : ℕ → Input
  sets_timeout : ℤ → Input
  starts : ℕ → ℕ → ℤ → ℤ → Input
  stops : Input
  sends : SocketClientData → List ℕ → ℤ → Input
  closes : SocketClientData → Input
  accepts : Bool → SocketClientData → ℤ → Input
  wakes_io wakes_timer : SocketClientData → Wakeup → Input
  asyncs : Input

module _ {S : Type 0} ⦃v : Virtual S⦄ where
  -- A member of the base class, called on a server that is derived from it.
  abbrev pub on_base : (TcpServer → Run TcpServer) → S → Run S
  on_base member s = member (v.base s) >>= λ t. ok (v.with_base t s)

  unfoldable pub step : S → Input → Run S
  step s (sets_data_handle h) = on_base (λ t. ok (set_data_handle h t)) s
  step s (sets_timeout seconds) = on_base (λ t. ok (set_connection_timeout seconds t)) s
  step s (starts ip port fd bound) = on_base (λ t. ok (start ip port fd bound t).0) s
  step s stops = on_base (λ t. ok (stop t).0) s
  step s (sends client bytes len) = on_base (λ t. post_send client bytes len t >>= λ r. ok r.0) s
  step s (closes client) = on_base (λ t. close_client client t >>= λ r. ok r.0) s
  step s (accepts error client now) = on_base (accept error client now) s
  step s (wakes_io client w) = wake_io client w s
  step s (wakes_timer client w) = wake_timer client w s
  step s asyncs = async_callback s

  unfoldable pub run : S → List Input → Run S
  run s [] = ok s
  run s (i ∷ inputs) = step s i >>= λ t. run t inputs

abbrev pub HasDescriptor : SocketClientData → Type 0
HasDescriptor client = (n : ℕ) × Descriptor client n

-- The users name clients with descriptors and pass as many bytes as they say, and `write` takes no
-- more than it is offered.
abbrev pub IsProper : TcpServer → Input → Type 0
IsProper s (sends client bytes len) =
    HasDescriptor client × ((n : ℕ) × (len ≡ pos n) × (n ≤ length bytes))
IsProper s (closes client) = HasDescriptor client
IsProper s (wakes_io client w) =
    (n : ℕ) × Descriptor client n
    × ((conn : Connection) → lookup client n s.manager ≡ some conn → Takes w.write conn.write_queue)
IsProper s (wakes_timer client w) = HasDescriptor client
IsProper s (_) = Unit {0}

module _ {S : Type 0} ⦃v : Virtual S⦄ where
  abbrev pub AllProper : S → List Input → Type 0
  AllProper s [] = Unit {0}
  AllProper s (i ∷ inputs) =
      IsProper (v.base s) i × ((t : S) → step s i ≡ ok t → AllProper t inputs)

start-IsServer :
    (ip port : ℕ) (fd bound : ℤ) (s : TcpServer)
    → IsServer s
    → IsServer (start ip port fd bound s).0
unfolding start
start-IsServer ip port fd bound s v = elim (Bool-cases (eqb_ℤ bound (pos 0))) [
  | inl e ↦
      rw e
        (record { manager = v.manager; entries = v.entries; posted = v.posted; handle = v.handle })
  | inr e ↦
      rw e
        (record { manager = v.manager; entries = v.entries; posted = v.posted; handle = v.handle })
]

posts-IsServer :
    (client : SocketClientData) (bytes : List ℕ) (len : ℤ) (s : TcpServer)
    → HasDescriptor client
    → ((n : ℕ) × (len ≡ pos n) × (n ≤ length bytes))
    → IsServer s
    → Returns (post_send client bytes len s >>= λ r. ok r.0) IsServer
posts-IsServer client bytes len s d (n, e, h) w =
    let (r, ran, w') = post_send-IsServer client bytes n s d h w in (r.0, rw (e, ran), w')

closes-IsServer :
    (client : SocketClientData) (s : TcpServer)
    → HasDescriptor client
    → IsServer s
    → Returns (close_client client s >>= λ r. ok r.0) IsServer
closes-IsServer client s d w =
    let (r, ran, w') = close_client-IsServer client d.0 s d.1 w in (r.0, rw ran, w')

module _ {S : Type 0} (v : Virtual S) (Inv : S → Type 0) (Allowed : Fault → Type 0)
    (keeps : Keeps v Inv Allowed) where
  on_base-Ends :
      (member : TcpServer → Run TcpServer) (s : S)
      → Inv s
      → Returns (member (v.base s)) IsServer
      → Ends v Inv Allowed (on_base ⦃v = v⦄ member s)
  on_base-Ends member s w (t, ran, w') = inl (v.with_base t s, rw ran, keeps.rebased t s w' w)

  pub step-Ends :
      (s : S) (i : Input) → Inv s → IsProper (v.base s) i → Ends v Inv Allowed (step ⦃v = v⦄ s i)
  unfolding step set_data_handle set_connection_timeout stop
  step-Ends s (sets_data_handle h) w p =
      let k = keeps.sound s w in
      on_base-Ends (λ t. ok (set_data_handle h t)) s w
        (
          _,
          refl,
          record {
            manager = k.manager;
            entries = k.entries;
            posted = k.posted;
            handle = (h, refl);
          },
        )
  step-Ends s (sets_timeout seconds) w p =
      let k = keeps.sound s w in
      on_base-Ends (λ t. ok (set_connection_timeout seconds t)) s w
        (
          _,
          refl,
          record { manager = k.manager; entries = k.entries; posted = k.posted; handle = k.handle },
        )
  step-Ends s (starts ip port fd bound) w p =
      on_base-Ends (λ t. ok (start ip port fd bound t).0) s w
        (_, refl, start-IsServer ip port fd bound (v.base s) (keeps.sound s w))
  step-Ends s stops w p =
      let k = keeps.sound s w in
      on_base-Ends (λ t. ok (stop t).0) s w
        (
          _,
          refl,
          record { manager = k.manager; entries = k.entries; posted = k.posted; handle = k.handle },
        )
  step-Ends s (sends client bytes len) w p =
      on_base-Ends (λ t. post_send client bytes len t >>= λ r. ok r.0) s w
        (posts-IsServer client bytes len (v.base s) p.0 p.1 (keeps.sound s w))
  step-Ends s (closes client) w p =
      on_base-Ends (λ t. close_client client t >>= λ r. ok r.0) s w
        (closes-IsServer client (v.base s) p (keeps.sound s w))
  step-Ends s (accepts error client now) w p =
      on_base-Ends (accept error client now) s w
        (accept-IsServer error client now (v.base s) (keeps.sound s w))
  step-Ends s (wakes_io client wakeup) w p =
      wake_io-Ends v Inv Allowed keeps client p.0 wakeup s p.1 p.2 w
  step-Ends s (wakes_timer client wakeup) w p =
      wake_timer-Ends v Inv Allowed keeps client p.0 wakeup s p.1 w
  step-Ends s asyncs w p = async_callback-Ends v Inv Allowed keeps s w

  -- Any history ends with the invariant, or by a fault that the virtual members may have.
  pub run-Ends :
      (s : S) (inputs : List Input)
      → Inv s
      → AllProper ⦃v = v⦄ s inputs
      → Ends v Inv Allowed (run ⦃v = v⦄ s inputs)
  unfolding run
  run-Ends s [] w p = inl (s, refl, w)
  run-Ends s (i ∷ inputs) w p = elim (step-Ends s i w p.0) [
    | inl (t, ran, w') ↦ rw ran (run-Ends t inputs w' (p.1 t ran))
    | inr (f, threw, a) ↦ inr (f, rw threw, a)
  ]

-- No proper history of a new TCP server whose data handle is set leads to a fault, and after each the
-- server is sound.
pub run-IsServer :
    (handle : ℕ) (inputs : List Input)
    → AllProper (set_data_handle handle new_tcp_server) inputs
    → Returns (run (set_data_handle handle new_tcp_server) inputs) IsServer
run-IsServer handle inputs p =
    elim (run-Ends tcp_virtual IsServer Never tcp_virtual-Keeps
      (set_data_handle handle new_tcp_server) inputs (ready-IsServer handle) p) [
        | inl r ↦ r
        | inr (f, e, a) ↦ absurd a
      ]
