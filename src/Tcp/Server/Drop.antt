-- ===== src/Tcp/Server/Drop.antt =====
-- The members of `CTcpServer` that let a client go.
use serverlib.Prelude.{ℕ, ◌≡◌, refl, ◌∙◌, false, ◌∷◌, none}
use serverlib.Prelude.Int.{ℤ, pos}
use serverlib.Prelude.Run.{Returns}
use serverlib.Prelude.Map.{same, same_refl}
use serverlib.Socket.{SocketClientData}
use serverlib.Socket.Order.{client_order}
use serverlib.Tcp.Channels.View.{Descriptor, IsManager, lookup, get-lookup, remove-Writes}
use serverlib.Tcp.Server.Handled.{
  HasHandle, on_disconnected_lem, on_recv_error_lem, on_send_error_lem, on_timeout_lem,
}
use serverlib.Tcp.Server.{
  TcpServer, on_client_disconnected, destroyed, remove_client, on_disconnected, on_recv_error,
  on_send_error, on_timeout,
}

-- The handler was told of the error, then the client's connection was destroyed, and nothing else
-- is different.
pub record Drops (client : SocketClientData) (n : ℕ) (error : ℤ) (s s' : TcpServer) : Type 0 where
  pub told :
      s'.log
      ≡ destroyed
          (lookup client n s.manager)
          (on_client_disconnected s.data_handle client error ∷ s.log)
  pub gone : lookup client n s'.manager ≡ none
  pub others :
      (other : SocketClientData) (k : ℕ)
      → Descriptor other k
      → same client other ≡ false
      → lookup other k s'.manager ≡ lookup other k s.manager
  pub valid : IsManager s'.manager
  pub functions : s'.functions ≡ s.functions
  pub data_handle : s'.data_handle ≡ s.data_handle

remove_client-Drops :
    (client : SocketClientData) (n : ℕ) (error : ℤ) (s : TcpServer)
    → IsManager s.manager
    → Descriptor client n
    → Returns
        (remove_client client
          (record s { log = on_client_disconnected s.data_handle client error ∷ s.log }))
        (Drops client n error s)
unfolding remove_client
remove_client-Drops client n error s v e =
    let (m, ran, w) = remove-Writes client n s.manager v e in
    (
      record s {
        manager = m;
        log =
            destroyed (lookup client n s.manager)
              (on_client_disconnected s.data_handle client error ∷ s.log);
      },
      rw (get-lookup client n s.manager v e, ran),
      record {
        told = refl;
        gone = w.reads client n e ∙ rw (same_refl client);
        others = λ other k o apart. w.reads other k o ∙ rw apart;
        valid = w.valid;
        functions = refl;
        data_handle = refl;
      },
    )

-- Of a client with a descriptor, in a manager of 256 channels, once the data handle is set:
-- whichever way the client goes, the data handle is told once, with the error, and before the socket
-- is closed; the client is then unknown, and all others stay.
pub on_disconnected-Drops :
    (client : SocketClientData) (n : ℕ) (error : ℤ) (s : TcpServer)
    → IsManager s.manager
    → HasHandle s
    → Descriptor client n
    → Returns (on_disconnected client error s) (Drops client n error s)
      × Returns (on_recv_error client error s) (Drops client n error s)
      × Returns (on_send_error client error s) (Drops client n error s)
      × Returns (on_timeout client s) (Drops client n (pos 0) s)
on_disconnected-Drops client n error s v set e = (
  rw (on_disconnected_lem client error s set) (remove_client-Drops client n error s v e),
  rw (on_recv_error_lem client error s set) (remove_client-Drops client n error s v e),
  rw (on_send_error_lem client error s set) (remove_client-Drops client n error s v e),
  rw (on_timeout_lem client s set) (remove_client-Drops client n (pos 0) s v e),
)
