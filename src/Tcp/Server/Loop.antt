-- ===== src/Tcp/Server/Loop.antt =====
-- The callbacks of the event loop, for any server whose virtual members keep an invariant.
use serverlib.Prelude.{ℕ, ◌≡◌, refl, ◌∙◌, ◌⊎◌, inl, inr, List, [], ◌∷◌, some, Option-cases, arith}
use serverlib.Prelude.Int.{ℤ}
use serverlib.Prelude.Run.{Run, Fault, ok, fault, Returns, ◌>>=◌}
use serverlib.Socket.{SocketClientData}
use serverlib.Socket.Order.{client_order}
use serverlib.OutputBuffer.{OutputBuffer, IsOutputBuffer}
use serverlib.Tcp.Channels.View.{Descriptor, lookup, get-lookup}
use serverlib.Tcp.Connection
use serverlib.Tcp.Connection.{
  Connection, Call, client_disconnected, client_recv_error, client_send_error, client_data_received,
  client_timeout, set_nonblock, set_reuseaddr, set_nodelay, shut_down, closed, wrote, Wakeup,
  Written, io_callback, timer_callback,
}
use serverlib.Tcp.Connection.Queue.{
  io_callback-client, Takes, io_callback-IsConnection, send-IsConnection,
}
use serverlib.Tcp.Server.{
  TcpServer, Virtual, tell, socket_call, run_call, run_calls, settle, wake_io, wake_timer, deliver,
  deliver_all, async_callback, tcp_virtual,
}
use serverlib.Tcp.Server.Invariant.{AllPosted, IsServer, IsEntry, put_connection-IsServer}

send-client : (b : OutputBuffer) (c : Connection) → (Connection.send b c).0.client ≡ c.client
unfolding Connection.send
send-client b c = ground arith

module _ {S : Type 0} (v : Virtual S) (Inv : S → Type 0) (Allowed : Fault → Type 0) where
  -- A run ends with the invariant, or by a fault that is allowed.
  abbrev pub Ends : Run S → Type 0
  Ends r = Returns r Inv ⊎ ((f : Fault) × (r ≡ fault f) × Allowed f)

  -- What is asked of the virtual members.
  pub record Keeps : Type 0 where
    pub base_of : (t : TcpServer) (s : S) → v.base (v.with_base t s) ≡ t
    pub sound : (s : S) → Inv s → IsServer (v.base s)
    pub rebased : (t : TcpServer) (s : S) → IsServer t → Inv s → Inv (v.with_base t s)
    pub disconnected :
        (client : SocketClientData) (n : ℕ) (error : ℤ) (s : S)
        → Descriptor client n
        → Inv s
        → Ends (v.disconnected client error s)
    pub recv_error :
        (client : SocketClientData) (n : ℕ) (error : ℤ) (s : S)
        → Descriptor client n
        → Inv s
        → Ends (v.recv_error client error s)
    pub send_error :
        (client : SocketClientData) (n : ℕ) (error : ℤ) (s : S)
        → Descriptor client n
        → Inv s
        → Ends (v.send_error client error s)
    pub timed_out :
        (client : SocketClientData) (n : ℕ) (s : S)
        → Descriptor client n
        → Inv s
        → Ends (v.timed_out client s)
    pub data_received :
        (client : SocketClientData) (n : ℕ) (bytes : List ℕ) (s : S)
        → Descriptor client n
        → Inv s
        → Ends (v.data_received client bytes s)

  >>=-Ends : (r : Run S) (f : S → Run S) → Ends r → ((s : S) → Inv s → Ends (f s)) → Ends (r >>= f)
  >>=-Ends r f (inl (s, ran, w)) next = rw ran (next s w)
  >>=-Ends r f (inr (e, threw, a)) next = inr (e, rw threw, a)

  module _ (keeps : Keeps) where
    told :
        (call : Call) (s : S)
        → Inv s
        → Ends (ok (v.with_base (tell (socket_call call) (v.base s)) s))
    told call s w = inl (
      v.with_base (tell (socket_call call) (v.base s)) s,
      refl,
      keeps.rebased (tell (socket_call call) (v.base s)) s
          (let k = keeps.sound s w in
            record {
              manager = k.manager;
              entries = k.entries;
              posted = k.posted;
              handle = k.handle;
            })
          w,
    )

    run_call-Ends :
        (client : SocketClientData) (n : ℕ) (call : Call) (s : S)
        → Descriptor client n
        → Inv s
        → Ends (run_call ⦃v = v⦄ client call s)
    unfolding run_call
    run_call-Ends client n (client_disconnected e) s d w = keeps.disconnected client n e s d w
    run_call-Ends client n (client_recv_error e) s d w = keeps.recv_error client n e s d w
    run_call-Ends client n (client_send_error e) s d w = keeps.send_error client n e s d w
    run_call-Ends client n (client_data_received b) s d w = keeps.data_received client n b s d w
    run_call-Ends client n client_timeout s d w = keeps.timed_out client n s d w
    run_call-Ends client n (set_nonblock fd) s d w = told (set_nonblock fd) s w
    run_call-Ends client n (set_reuseaddr fd) s d w = told (set_reuseaddr fd) s w
    run_call-Ends client n (set_nodelay fd) s d w = told (set_nodelay fd) s w
    run_call-Ends client n (shut_down fd) s d w = told (shut_down fd) s w
    run_call-Ends client n (closed fd) s d w = told (closed fd) s w
    run_call-Ends client n (wrote fd b) s d w = told (wrote fd b) s w

    run_calls-Ends :
        (client : SocketClientData) (n : ℕ) (calls : List Call) (s : S)
        → Descriptor client n
        → Inv s
        → Ends (run_calls ⦃v = v⦄ client calls s)
    unfolding run_calls
    run_calls-Ends client n [] s d w = inl (s, refl, w)
    run_calls-Ends client n (c ∷ calls) s d w =
        >>=-Ends (run_call ⦃v = v⦄ client c s) (run_calls ⦃v = v⦄ client calls)
          (run_call-Ends client n c s d w) (λ t w'. run_calls-Ends client n calls t d w')

    settle-Ends :
        (client : SocketClientData) (n : ℕ) (conn : Connection) (calls : List Call) (s : S)
        → Descriptor client n
        → IsEntry client conn
        → Inv s
        → Ends (settle ⦃v = v⦄ client (conn, calls) s)
    unfolding settle
    settle-Ends client n conn calls s d e w =
        let (t, ran, w') =
          put_connection-IsServer client n conn [] (v.base s) d e (keeps.sound s w) in
        rw ran (run_calls-Ends client n calls (v.with_base t s) d (keeps.rebased t s w' w))

    -- `write` takes no more than the client's connection offers.
    pub wake_io-Ends :
        (client : SocketClientData) (n : ℕ) (w : Wakeup) (s : S)
        → Descriptor client n
        → ((conn : Connection)
            → lookup client n (v.base s).manager ≡ some conn
            → Takes w.write conn.write_queue)
        → Inv s
        → Ends (wake_io ⦃v = v⦄ client w s)
    unfolding wake_io
    wake_io-Ends client n w s d takes ok_s =
        elim (Option-cases (lookup client n (v.base s).manager)) [
          | inl unknown ↦
              rw (get-lookup client n (v.base s).manager (keeps.sound s ok_s).manager d, unknown)
                (inl (s, refl, ok_s))
          | inr (conn, found) ↦
              rw (get-lookup client n (v.base s).manager (keeps.sound s ok_s).manager d, found)
                (settle-Ends client n (io_callback w conn).0 (io_callback w conn).1 s d
                  (woken conn ((keeps.sound s ok_s).entries client n conn d found)
                    (takes conn found))
                  ok_s)
        ]
      where
        woken :
            (conn : Connection)
            → IsEntry client conn
            → Takes w.write conn.write_queue
            → IsEntry client (io_callback w conn).0
        woken conn e h = record {
          sound = io_callback-IsConnection w conn e.sound h;
          named = io_callback-client w conn ∙ e.named;
        }

    pub wake_timer-Ends :
        (client : SocketClientData) (n : ℕ) (w : Wakeup) (s : S)
        → Descriptor client n
        → Inv s
        → Ends (wake_timer ⦃v = v⦄ client w s)
    unfolding wake_timer
    wake_timer-Ends client n w s d ok_s = elim (Option-cases (lookup client n (v.base s).manager)) [
      | inl unknown ↦
          rw (get-lookup client n (v.base s).manager (keeps.sound s ok_s).manager d, unknown)
            (inl (s, refl, ok_s))
      | inr (conn, found) ↦
          rw (get-lookup client n (v.base s).manager (keeps.sound s ok_s).manager d, found)
            (run_calls-Ends client n (timer_callback w conn) s d ok_s)
    ]

    deliver-Ends :
        (client : SocketClientData) (n : ℕ) (buffer : OutputBuffer) (s : S)
        → Descriptor client n
        → IsOutputBuffer buffer
        → Inv s
        → Ends (deliver ⦃v = v⦄ client buffer s)
    unfolding deliver
    deliver-Ends client n buffer s d b ok_s =
        elim (Option-cases (lookup client n (v.base s).manager)) [
          | inl unknown ↦
              rw (get-lookup client n (v.base s).manager (keeps.sound s ok_s).manager d, unknown)
                (inl (s, refl, ok_s))
          | inr (conn, found) ↦
              rw (get-lookup client n (v.base s).manager (keeps.sound s ok_s).manager d, found)
                (settle-Ends client n (Connection.send buffer conn).0
                  (Connection.send buffer conn).1 s d
                  (sent conn ((keeps.sound s ok_s).entries client n conn d found)) ok_s)
        ]
      where
        sent :
            (conn : Connection)
            → IsEntry client conn
            → IsEntry client (Connection.send buffer conn).0
        sent conn e = record {
          sound = send-IsConnection buffer conn b e.sound;
          named = send-client buffer conn ∙ e.named;
        }

    deliver_all-Ends :
        (functions : List (SocketClientData × OutputBuffer)) (s : S)
        → AllPosted functions
        → Inv s
        → Ends (deliver_all ⦃v = v⦄ functions s)
    unfolding deliver_all
    deliver_all-Ends [] s posted w = inl (s, refl, w)
    deliver_all-Ends ((client, buffer) ∷ functions) s posted w =
        >>=-Ends (deliver ⦃v = v⦄ client buffer s) (deliver_all ⦃v = v⦄ functions)
          (deliver-Ends client posted.0.0 buffer s posted.0.1 posted.1 w)
          (λ t w'. deliver_all-Ends functions t posted.2 w')

    pub async_callback-Ends : (s : S) → Inv s → Ends (async_callback ⦃v = v⦄ s)
    unfolding async_callback
    async_callback-Ends s w =
        deliver_all-Ends (v.base s).functions (v.with_base (record (v.base s) { functions = [] }) s)
          (keeps.sound s w).posted
          (keeps.rebased (record (v.base s) { functions = [] }) s
            (let k = keeps.sound s w in
              record { manager = k.manager; entries = k.entries; posted = tt; handle = k.handle })
            w)
