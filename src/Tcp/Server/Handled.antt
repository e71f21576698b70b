-- ===== src/Tcp/Server/Handled.antt =====
-- The members of `CTcpServer` that call its data handle, once one is set.
use serverlib.Prelude.{ℕ, ◌≡◌, refl, List, Option, none, some}
use serverlib.Prelude.Int.{ℤ, pos}
use serverlib.Prelude.Run.{Run, ok, fault, unset_pointer}
use serverlib.Socket.{SocketClientData}
use serverlib.Tcp.Channels.View.{IsManager}
use serverlib.Tcp.Server.{
  TcpServer, Event, tell, call_handle, on_client_disconnected, on_client_data_received,
  remove_client, on_disconnected, on_recv_error, on_send_error, on_timeout, on_data_received,
}

abbrev pub HasHandle : TcpServer → Type 0
HasHandle s = (handle : ℕ) × (s.data_handle ≡ some handle)

-- Its channels are there, and its data handle.
abbrev pub IsLive : TcpServer → Type 0
IsLive s = IsManager s.manager × HasHandle s

call_at :
    (event : Option ℕ → Event) (s : TcpServer) (d : Option ℕ) (handle : ℕ)
    → d ≡ some handle
    → (elim d as (λ x. Run TcpServer) [
      | none ↦ fault unset_pointer
      | some h ↦ ok (tell (event (some h)) s)
    ])
      ≡ ok (tell (event d) s)
call_at event s none handle e = absurd (cc e)
call_at event s (some h) handle e = refl

pub call_handle_lem :
    (event : Option ℕ → Event) (s : TcpServer)
    → HasHandle s
    → call_handle event s ≡ ok (tell (event s.data_handle) s)
unfolding call_handle
call_handle_lem event s (handle, e) = call_at event s s.data_handle handle e

module _ (client : SocketClientData) (error : ℤ) (s : TcpServer) (set : HasHandle s) where
  pub on_disconnected_lem :
      on_disconnected client error s
      ≡ remove_client client (tell (on_client_disconnected s.data_handle client error) s)
  unfolding on_disconnected
  on_disconnected_lem = rw (call_handle_lem (λ h. on_client_disconnected h client error) s set) refl

  pub on_recv_error_lem :
      on_recv_error client error s
      ≡ remove_client client (tell (on_client_disconnected s.data_handle client error) s)
  unfolding on_recv_error
  on_recv_error_lem = rw (call_handle_lem (λ h. on_client_disconnected h client error) s set) refl

  pub on_send_error_lem :
      on_send_error client error s
      ≡ remove_client client (tell (on_client_disconnected s.data_handle client error) s)
  unfolding on_send_error
  on_send_error_lem = rw (call_handle_lem (λ h. on_client_disconnected h client error) s set) refl

pub on_timeout_lem :
    (client : SocketClientData) (s : TcpServer)
    → HasHandle s
    → on_timeout client s
      ≡ remove_client client (tell (on_client_disconnected s.data_handle client (pos 0)) s)
unfolding on_timeout
on_timeout_lem client s set =
    rw (call_handle_lem (λ h. on_client_disconnected h client (pos 0)) s set) refl

pub on_data_received_lem :
    (client : SocketClientData) (bytes : List ℕ) (s : TcpServer)
    → HasHandle s
    → on_data_received client bytes s
      ≡ ok (tell (on_client_data_received s.data_handle client bytes) s)
unfolding on_data_received
on_data_received_lem client bytes s set =
    call_handle_lem (λ h. on_client_data_received h client bytes) s set
