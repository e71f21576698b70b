-- ===== src/Tcp/Server/Reuse.antt =====
-- What `CloseClient()` leaves behind, and what `__Accept` of another client finds.
use serverlib.Prelude.{ℕ, ◌≡◌, refl, sym, ap, ◌∙◌, true, false, ◌∷◌, some, arith}
use serverlib.Prelude.Int.{ℤ, pos, ltb_ℤ}
use serverlib.Prelude.Run.{Run, Returns, ◌>>=◌}
use serverlib.Prelude.Map.{same, same_refl}
use serverlib.Socket.{SocketClientData}
use serverlib.Socket.Order.{client_order}
use serverlib.Tcp.Channels.View.{Descriptor, IsManager, lookup, get-lookup, add-Writes}
use serverlib.Tcp.Connection
use serverlib.Tcp.Connection.{Connection, IoWatcher, new_connection}
use serverlib.Tcp.Server.Handled.{HasHandle, IsLive, call_handle_lem}
use serverlib.Tcp.Server.{
  TcpServer, put_connection, close_client, accept, on_client_connected, destroyed, push_calls,
}

-- `CloseClient(old)`, and then `__Accept` of another client.
abbrev pub closed_then : SocketClientData → SocketClientData → ℤ → TcpServer → Run TcpServer
closed_then old client now s = close_client old s >>= λ r. accept false client now r.0

-- Both clients are known, and the watchers of both are started on this descriptor.
abbrev pub BothRead : ℕ → SocketClientData → SocketClientData → TcpServer → Type 0
BothRead n old client t =
    (c d : Connection) × (lookup old n t.manager ≡ some c)
    × (lookup client n t.manager ≡ some d)
    × (c.io.fd ≡ d.io.fd)
    × (c.io.read ≡ true)
    × (d.io.read ≡ true)

close-io : (c : Connection) → (Connection.close c).0.io ≡ c.io
unfolding Connection.close
close-io c = ground arith

new_connection-io :
    (timeout now : ℤ) (client : SocketClientData)
    → (new_connection timeout now client).0.io
      ≡ record { fd = client.socket; read = true; write = false }
unfolding new_connection
new_connection-io timeout now client = refl

-- What `CloseClient()` does to a client that is known.
record Closes (old : SocketClientData) (n : ℕ) (c : Connection) (t : TcpServer) : Type 0 where
  valid : IsManager t.manager
  handle : HasHandle t
  known : lookup old n t.manager ≡ some (Connection.close c).0

close_client-Closes :
    (old : SocketClientData) (n : ℕ) (c : Connection) (s : TcpServer)
    → IsLive s
    → Descriptor old n
    → lookup old n s.manager ≡ some c
    → Returns (close_client old s) (λ r. Closes old n c r.0)
unfolding close_client put_connection
close_client-Closes old n c s v d known =
    let (m, ran, w) = add-Writes old n (Connection.close c).0 s.manager v.0 d in
    (
      (record s { manager = m; log = push_calls (Connection.close c).1 s.log }, true),
      rw (get-lookup old n s.manager v.0 d, known, ran),
      record { valid = w.valid; handle = v.1; known = w.reads old n d ∙ rw (same_refl old) },
    )

-- Once the data handle is set: a client that is known, and whose connection watches its own
-- descriptor, is still known after `CloseClient()`, with its watcher started. If the system then
-- gives its descriptor to another client, both connections read from the same socket.
pub close_client-BothRead :
    (old client : SocketClientData) (n : ℕ) (c : Connection) (now : ℤ) (s : TcpServer)
    → IsLive s
    → Descriptor old n
    → Descriptor client n
    → same client old ≡ false
    → lookup old n s.manager ≡ some c
    → c.io.fd ≡ pos n
    → c.io.read ≡ true
    → Returns (closed_then old client now s) (BothRead n old client)
unfolding accept
close_client-BothRead old client n c now s v d e apart known fd reads =
    let (r, ran, k) = close_client-Closes old n c s v d known in
    let t = r.0 in
    let (m, ran', w) =
      add-Writes client n (new_connection t.timeout now client).0 t.manager k.valid e in
    let above : ltb_ℤ client.socket (pos 0) ≡ false = rw e (ground arith) in
    (
      record t {
        manager = m;
        log =
            on_client_connected t.data_handle client
            ∷ destroyed (lookup client n t.manager)
                (push_calls (new_connection t.timeout now client).1 t.log);
      },
      rw (ran, above, get-lookup client n t.manager k.valid e, ran')
          (call_handle_lem (λ h. on_client_connected h client)
            (record t {
              manager = m;
              log =
                  destroyed (lookup client n t.manager)
                    (push_calls (new_connection t.timeout now client).1 t.log);
            })
            k.handle),
      (
        (Connection.close c).0,
        (new_connection t.timeout now client).0,
        w.reads old n d ∙ rw apart k.known,
        w.reads client n e ∙ rw (same_refl client),
        ap (λ (io : IoWatcher). io.fd) (close-io c)
            ∙ fd
            ∙ sym e
            ∙ sym (ap (λ (io : IoWatcher). io.fd) (new_connection-io t.timeout now client)),
        ap (λ (io : IoWatcher). io.read) (close-io c) ∙ reads,
        ap (λ (io : IoWatcher). io.read) (new_connection-io t.timeout now client),
      ),
    )
