-- ===== src/Tcp/Server/Plain.antt =====
-- The virtual members of `CTcpServer` itself.
use serverlib.Prelude.{ℕ, refl, inl}
use serverlib.Prelude.Run.{Fault}
use serverlib.Socket.{SocketClientData}
use serverlib.Socket.Order.{client_order}
use serverlib.Tcp.Channels.View.{Descriptor}
use serverlib.Tcp.Server.{
  TcpServer, Event, on_client_data_received, tell, remove_client, tcp_virtual,
}
use serverlib.Tcp.Server.Handled.{
  on_disconnected_lem, on_recv_error_lem, on_send_error_lem, on_timeout_lem, on_data_received_lem,
}
use serverlib.Tcp.Server.Invariant.{IsServer, remove_client-IsServer}
use serverlib.Tcp.Server.Loop.{Ends, Keeps}

-- The plain server has no fault.
abbrev pub Never : Fault → Type 0
Never f = ⊥

dropped :
    (client : SocketClientData) (n : ℕ) (e : Event) (s : TcpServer)
    → Descriptor client n
    → IsServer s
    → Ends tcp_virtual IsServer Never (remove_client client (tell e s))
dropped client n e s d w = inl (
    remove_client-IsServer client n (tell e s) d
      (record { manager = w.manager; entries = w.entries; posted = w.posted; handle = w.handle }))

pub tcp_virtual-Keeps : Keeps tcp_virtual IsServer Never
tcp_virtual-Keeps = record {
  base_of = λ t s. refl;
  sound = λ s w. w;
  rebased = λ t s w w'. w;
  disconnected =
      λ client n e s d w. rw (on_disconnected_lem client e s w.handle) (dropped client n _ s d w);
  recv_error =
      λ client n e s d w. rw (on_recv_error_lem client e s w.handle) (dropped client n _ s d w);
  send_error =
      λ client n e s d w. rw (on_send_error_lem client e s w.handle) (dropped client n _ s d w);
  timed_out = λ client n s d w. rw (on_timeout_lem client s w.handle) (dropped client n _ s d w);
  data_received = λ client n b s d w. inl (
    tell (on_client_data_received s.data_handle client b) s,
    on_data_received_lem client b s w.handle,
    record { manager = w.manager; entries = w.entries; posted = w.posted; handle = w.handle },
  );
}
