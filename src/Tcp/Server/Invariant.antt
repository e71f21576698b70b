-- ===== src/Tcp/Server/Invariant.antt =====
-- The invariant of a `CTcpServer`, and its members.
use mathlib.Core.Path.{subst}
use serverlib.Prelude.{
  ℕ, ◌≡◌, ◌≤◌, ◌++◌, length, refl, sym, ◌∙◌, Bool, true, false, Bool-cases, inl, inr, ◌⊎◌, List, [],
  ◌∷◌, Option, none, some, Option-cases, arith,
}
use serverlib.Prelude.Int.{ℤ, pos, negsuc, ltb_ℤ}
use serverlib.Prelude.Run.{Returns}
use serverlib.Prelude.Map.{same, same_iff}
use serverlib.Socket.{SocketClientData}
use serverlib.Socket.Order.{client_order}
use serverlib.OutputBuffer.{OutputBuffer, IsOutputBuffer, new_output_buffer}
use serverlib.OutputBuffer.Pending.{new_output_buffer_lem}
use serverlib.Tcp.Channels.{SocketInfoManager}
use serverlib.Tcp.Channels.View.{
  Descriptor, IsManager, lookup, Writes, get-lookup, add-Writes, remove-Writes, new_manager-lookup,
}
use serverlib.Tcp.Connection
use serverlib.Tcp.Connection.{
  Connection, Call, Wakeup, Written, new_connection, io_callback, timer_callback,
}
use serverlib.Tcp.Connection.Queue.{IsConnection, new_connection-IsConnection}
use serverlib.Tcp.Server.Handled.{HasHandle, call_handle_lem}
use serverlib.Tcp.Server.{
  set_data_handle, TcpServer, on_client_connected, push_calls, destroyed, remove_client,
  put_connection, close_client, accept, new_tcp_server, post_send,
}

-- A sound connection that stands under its client's key.
pub record IsEntry (client : SocketClientData) (conn : Connection) : Type 0 where
  pub sound : IsConnection conn
  pub named : conn.client ≡ client

-- The clients of these calls have descriptors, and their buffers are sound.
abbrev pub AllPosted : List (SocketClientData × OutputBuffer) → Type 0
AllPosted [] = Unit {0}
AllPosted ((client, buffer) ∷ functions) =
    ((n : ℕ) × Descriptor client n) × IsOutputBuffer buffer × AllPosted functions

abbrev pub Entries : SocketInfoManager Connection → Type 0
Entries m =
    (client : SocketClientData) (n : ℕ) (conn : Connection)
    → Descriptor client n
    → lookup client n m ≡ some conn
    → IsEntry client conn

pub record IsServer (s : TcpServer) : Type 0 where
  pub manager : IsManager s.manager
  pub entries : Entries s.manager
  pub posted : AllPosted s.functions
  pub handle : HasHandle s

-- A new server, once its data handle is set.
pub ready-IsServer : (handle : ℕ) → IsServer (set_data_handle handle new_tcp_server)
unfolding new_tcp_server set_data_handle
ready-IsServer handle = record {
  manager = (new_manager-lookup (record { ip = 0; port = 0; socket = pos 0 }) 0).0;
  entries = λ client n conn e f. cc (new_manager-lookup {V = Connection} client n).1;
  posted = tt;
  handle = (handle, refl);
}

new_connection-IsEntry :
    (timeout now : ℤ) (client : SocketClientData)
    → IsEntry client (new_connection timeout now client).0
unfolding new_connection
new_connection-IsEntry timeout now client = record {
  sound = new_connection-IsConnection timeout now client;
  named = refl;
}

close-IsEntry :
    (client : SocketClientData) (conn : Connection)
    → IsEntry client conn
    → IsEntry client (Connection.close conn).0
unfolding Connection.close
close-IsEntry client conn v = ground arith

pub ℤ-cases :
    (z : ℤ) → (ltb_ℤ z (pos 0) ≡ true) ⊎ ((n : ℕ) × (z ≡ pos n) × (ltb_ℤ z (pos 0) ≡ false))
ℤ-cases (pos n) = inr (n, refl, ground arith)
ℤ-cases (negsuc n) = inl (ground arith)

-- A write of a sound entry, or of none, keeps the table sound.
pub Writes-Entries :
    (client : SocketClientData) (entry : Option Connection) (m m' : SocketInfoManager Connection)
    → Writes client entry m m'
    → ((conn : Connection) → entry ≡ some conn → IsEntry client conn)
    → Entries m
    → Entries m'
Writes-Entries client entry m m' w sound v other k conn o f =
    elim (Bool-cases (same client other)) [
      | inl one ↦
          subst (λ (c : SocketClientData). IsEntry c conn) ((same_iff client other).0 one)
            (sound conn (sym (w.reads other k o ∙ rw one) ∙ f))
      | inr two ↦ v other k conn o (sym (w.reads other k o ∙ rw two) ∙ f)
    ]

pub put_connection-IsServer :
    (client : SocketClientData) (n : ℕ) (conn : Connection) (calls : List Call) (s : TcpServer)
    → Descriptor client n
    → IsEntry client conn
    → IsServer s
    → Returns (put_connection client conn calls s) IsServer
unfolding put_connection
put_connection-IsServer client n conn calls s e w v =
    let (m, ran, writes) = add-Writes client n conn s.manager v.manager e in
    (
      record s { manager = m; log = push_calls calls s.log },
      rw ran,
      record {
        manager = writes.valid;
        entries =
            Writes-Entries client (some conn) s.manager m writes
              (λ c f. subst (IsEntry client) (cc) w) v.entries;
        posted = v.posted;
        handle = v.handle;
      },
    )

pub remove_client-IsServer :
    (client : SocketClientData) (n : ℕ) (s : TcpServer)
    → Descriptor client n
    → IsServer s
    → Returns (remove_client client s) IsServer
unfolding remove_client
remove_client-IsServer client n s e v =
    let (m, ran, writes) = remove-Writes client n s.manager v.manager e in
    (
      record s { manager = m; log = destroyed (lookup client n s.manager) s.log },
      rw (get-lookup client n s.manager v.manager e, ran),
      record {
        manager = writes.valid;
        entries = Writes-Entries client none s.manager m writes (λ c f. cc) v.entries;
        posted = v.posted;
        handle = v.handle;
      },
    )

pub accept-IsServer :
    (error : Bool) (client : SocketClientData) (now : ℤ) (s : TcpServer)
    → IsServer s
    → Returns (accept error client now s) IsServer
unfolding accept
accept-IsServer true client now s v = (s, refl, v)
accept-IsServer false client now s v = elim (ℤ-cases client.socket) [
  | inl below ↦ (s, rw below, v)
  | inr (n, e, above) ↦
      let (m, ran, writes) =
        add-Writes client n (new_connection s.timeout now client).0 s.manager v.manager e in
      (
        record s {
          manager = m;
          log =
              on_client_connected s.data_handle client
              ∷ destroyed (lookup client n s.manager)
                  (push_calls (new_connection s.timeout now client).1 s.log);
        },
        rw (above, get-lookup client n s.manager v.manager e, ran)
            (call_handle_lem (λ h. on_client_connected h client)
              (record s {
                manager = m;
                log =
                    destroyed (lookup client n s.manager)
                      (push_calls (new_connection s.timeout now client).1 s.log);
              })
              v.handle),
        record {
          manager = writes.valid;
          entries =
              Writes-Entries client (some (new_connection s.timeout now client).0) s.manager m
                writes
                (λ c f. subst (IsEntry client) (cc) (new_connection-IsEntry s.timeout now client))
                v.entries;
          posted = v.posted;
          handle = v.handle;
        },
      )
]

pub close_client-IsServer :
    (client : SocketClientData) (n : ℕ) (s : TcpServer)
    → Descriptor client n
    → IsServer s
    → Returns (close_client client s) (λ r. IsServer r.0)
unfolding close_client
close_client-IsServer client n s e v = elim (Option-cases (lookup client n s.manager)) [
  | inl unknown ↦ ((s, true), rw (get-lookup client n s.manager v.manager e, unknown), v)
  | inr (conn, found) ↦
      let entry = v.entries client n conn e found in
      let (s', ran, v') =
        put_connection-IsServer client n (Connection.close conn).0 (Connection.close conn).1 s e
          (close-IsEntry client conn entry) v in
      ((s', true), rw (get-lookup client n s.manager v.manager e, found, ran), v')
]

pub AllPosted-append :
    (xs ys : List (SocketClientData × OutputBuffer))
    → AllPosted xs
    → AllPosted ys
    → AllPosted (xs ++ ys)
AllPosted-append [] ys h k = k
AllPosted-append ((client, buffer) ∷ xs) ys h k = (h.0, h.1, AllPosted-append xs ys h.2 k)

-- `nLen` is no more than there is.
pub post_send-IsServer :
    (client : SocketClientData) (bytes : List ℕ) (n : ℕ) (s : TcpServer)
    → ((k : ℕ) × Descriptor client k)
    → n ≤ length bytes
    → IsServer s
    → Returns (post_send client bytes (pos n) s) (λ r. IsServer r.0)
unfolding post_send new_output_buffer
post_send-IsServer client bytes n s d h v = (
  (_, _),
  refl,
  record {
    manager = v.manager;
    entries = v.entries;
    posted =
        AllPosted-append s.functions _ v.posted (d, (new_output_buffer_lem bytes n _ h refl).0, tt);
    handle = v.handle;
  },
)
