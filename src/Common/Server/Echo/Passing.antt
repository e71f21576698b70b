-- ===== src/Common/Server/Echo/Passing.antt =====
-- What a common server with threads does to the bytes that wait for one client.
use serverlib.Prelude.{ℕ, ◌≡◌, refl, ap, false, inl, inr, List, [], take, ◌==◌, if◌then◌else◌}
use serverlib.Prelude.Int.{pos}
use serverlib.Prelude.Run.{Run, Returns, bad_alloc}
use serverlib.Prelude.Map.{same}
use serverlib.Socket.{SocketClientData}
use serverlib.Socket.Order.{client_order}
use serverlib.OutputBuffer.{new_output_buffer}
use serverlib.Tcp.Server.Handled.{
  IsLive, on_disconnected_lem, on_recv_error_lem, on_send_error_lem, on_timeout_lem,
}
use serverlib.Tcp.Server.{TcpServer, on_disconnected, on_recv_error, on_send_error, on_timeout}
use serverlib.Tcp.Server.Passing.Passes.{quiet, let_go, Passes}
use serverlib.Tcp.Server.Passing.Kept.{Answers, PassesOn, IsPassing}
use serverlib.Common.Server
use serverlib.Common.Server.{
  Dispatcher, CommonServer, common_virtual, add_content, forgetting, remove_content,
}
use serverlib.Common.Server.Receive.{HasThreads, dispatch, dispatch-HasThreads, handle_pkt-dispatch}
use serverlib.Common.Server.Keeps.{BadLength, add_content-Ends}

-- The packets go to threads, so that the base class's state stays.
abbrev KeepsBase : TcpServer → Dispatcher → Type 0
KeepsBase t d = HasThreads d × ((d.thread_num == 0) ≡ false) × (d.tcp ≡ t)

-- The server has threads, as many as it believes, and a data handle.
abbrev pub IsThreaded : CommonServer → Type 0
IsThreaded s =
    HasThreads s.dispatcher × ((s.dispatcher.thread_num == 0) ≡ false) × IsLive s.dispatcher.tcp

-- No call of `Send()` is made where bytes arrive.
abbrev pub no_answers : Answers
no_answers owner bytes = []

dispatch-KeepsBase :
    (client : SocketClientData) (t : TcpServer) (d : Dispatcher) (bytes : List ℕ)
    → KeepsBase t d
    → KeepsBase t (dispatch client d bytes)
dispatch-KeepsBase client t d bytes (h, more, same_tcp) =
    (dispatch-HasThreads client d bytes h, rw more more, rw more same_tcp)

forgetting-PassesOn :
    (client owner : SocketClientData) (n : ℕ) (added : List ℕ) (member : TcpServer → Run TcpServer)
    (s : CommonServer)
    → Returns
        (member s.dispatcher.tcp)
        (Passes client n [] (if same owner client then added else []) [] s.dispatcher.tcp)
    → IsThreaded s
    → PassesOn common_virtual IsThreaded BadLength client n []
        (if same owner client then added else [])
        []
        s
        (forgetting member owner s)
unfolding forgetting remove_content
forgetting-PassesOn client owner n added member s (t, ran, p) (h, more, v) =
    rw ran (inl (_, refl, ((h, more, p.valid), p)))

pub common_virtual-IsPassing : IsPassing common_virtual IsThreaded BadLength no_answers
unfolding Server.handle_pkt new_output_buffer
common_virtual-IsPassing = record {
  base_of = λ t s. refl;
  sound = λ s w. w.2;
  rebased = λ t s v w. (w.0, w.1, v);
  disconnected = λ error client owner n k added s d e w.
      forgetting-PassesOn client owner n added (on_disconnected owner error) s
        (rw (on_disconnected_lem owner error s.dispatcher.tcp w.2.1)
          (let_go client owner n k added error s.dispatcher.tcp w.2 d e))
        w;
  recv_error = λ error client owner n k added s d e w.
      forgetting-PassesOn client owner n added (on_recv_error owner error) s
        (rw (on_recv_error_lem owner error s.dispatcher.tcp w.2.1)
          (let_go client owner n k added error s.dispatcher.tcp w.2 d e))
        w;
  send_error = λ error client owner n k added s d e w.
      forgetting-PassesOn client owner n added (on_send_error owner error) s
        (rw (on_send_error_lem owner error s.dispatcher.tcp w.2.1)
          (let_go client owner n k added error s.dispatcher.tcp w.2 d e))
        w;
  timed_out = λ client owner n k added s d e w.
      forgetting-PassesOn client owner n added (on_timeout owner) s
        (rw (on_timeout_lem owner s.dispatcher.tcp w.2.1)
          (let_go client owner n k added (pos 0) s.dispatcher.tcp w.2 d e))
        w;
  data_received = λ client owner n bytes s w.
      elim (add_content-Ends (KeepsBase s.dispatcher.tcp) owner
        (λ d buf k g fits. inl (
          dispatch owner d (take k buf),
          handle_pkt-dispatch owner d buf k g.0 fits,
          dispatch-KeepsBase owner s.dispatcher.tcp d (take k buf) g,
        ))
        (λ d buf k g. inr (bad_alloc, rw g.1 refl, inr refl)) bytes s (w.0, w.1, refl)) [
          | inl (s', ran, (h, more, kept)) ↦ inl (
            s',
            ran,
            (
              (h, more, rw kept w.2),
              quiet client n s.dispatcher.tcp s'.dispatcher.tcp (rw kept w.2)
                  (ap (λ (t : TcpServer). t.manager) kept)
                  (ap (λ (t : TcpServer). t.functions) kept),
            ),
          )
          | inr threw ↦ inr threw
        ];
}
