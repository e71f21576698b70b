-- ===== src/Tcp/Server/Answer.antt =====
-- A `CTcpServer` whose data handle answers by calls of the server's `Send()`, as that of
-- test/tcpechoserver.cpp does.
pub mod Sent
pub mod Echo
use serverlib.Prelude.{
  ℕ, ◌≡◌, refl, sym, inl, inr, List, [], ◌∷◌, ◌++◌, append-nil, length, take, if◌then◌else◌, arith,
}
use serverlib.Prelude.Int.{ℤ, pos}
use serverlib.Prelude.Run.{Run, ok, ◌>>=◌, Returns}
use serverlib.Prelude.Map.{same}
use serverlib.Socket.{SocketClientData}
use serverlib.Socket.Order.{client_order}
use serverlib.OutputBuffer.{OutputBuffer, new_output_buffer}
use serverlib.OutputBuffer.Pending.{pending}
use serverlib.Tcp.Channels.View.{Descriptor}
use serverlib.Tcp.Server.Handled.{
  IsLive, on_disconnected_lem, on_recv_error_lem, on_send_error_lem, on_timeout_lem,
  on_data_received_lem,
}
use serverlib.Tcp.Server.{
  TcpServer, Virtual, on_client_data_received, on_client_disconnected, tell, remove_client,
  on_disconnected, on_recv_error, on_send_error, on_timeout, on_data_received, post_send,
}
use serverlib.Tcp.Server.Invariant.{IsServer, post_send-IsServer}
use serverlib.Tcp.Server.Loop.{Ends, Keeps}
use serverlib.Tcp.Server.Plain.{Never, tcp_virtual-Keeps}
use serverlib.Tcp.Server.Passing.Passes.{quiet, and_then, told, let_go, Passes}
use serverlib.Tcp.Server.Passing.Kept.{Functions, Answers, PassesOn, IsPassing}

-- What a data handle sends in answer to bytes of a client, in order.
abbrev pub Reply : Type 0
Reply = SocketClientData → List ℕ → List (SocketClientData × List ℕ)

-- `OnClientDataReceived` of the echo servers: `g_pTcpServer->Send(sClient, pData, nLen)`.
abbrev pub echo : Reply
echo client bytes = (client, bytes) ∷ []

-- The calls of `Send()` that an answer is.
unfoldable pub post_all : List (SocketClientData × List ℕ) → TcpServer → Run TcpServer
post_all [] s = ok s
post_all ((client, bytes) ∷ answers) s = do
  r ← post_send client bytes (pos (length bytes)) s
  post_all answers r.0

unfoldable pub answer : Reply → SocketClientData → List ℕ → TcpServer → Run TcpServer
answer reply client bytes s = on_data_received client bytes s >>= post_all (reply client bytes)

-- `CTcpServer` with this data handle.
abbrev pub answering : Reply → Virtual TcpServer
answering reply = record {
  base = λ s. s;
  with_base = λ t s. t;
  disconnected = on_disconnected;
  data_received = answer reply;
  recv_error = on_recv_error;
  send_error = on_send_error;
  timed_out = on_timeout;
}

-- The clients that are sent to have descriptors.
abbrev pub AllAddressed : List (SocketClientData × List ℕ) → Type 0
AllAddressed [] = Unit {0}
AllAddressed ((client, bytes) ∷ answers) = ((n : ℕ) × Descriptor client n) × AllAddressed answers

-- A handle that answers such clients only.
abbrev pub IsReply : Reply → Type 0
IsReply reply =
    (client : SocketClientData) (n : ℕ) (bytes : List ℕ)
    → Descriptor client n
    → AllAddressed (reply client bytes)

pub echo-IsReply : IsReply echo
echo-IsReply client n bytes d = ((n, d), tt)

post_all-IsServer :
    (answers : List (SocketClientData × List ℕ)) (s : TcpServer)
    → AllAddressed answers
    → IsServer s
    → Returns (post_all answers s) IsServer
unfolding post_all
post_all-IsServer [] s h w = (s, refl, w)
post_all-IsServer ((client, bytes) ∷ answers) s h w =
    let (r, ran, w') = post_send-IsServer client bytes (length bytes) s h.0 (omega arith) w in
    rw ran (post_all-IsServer answers r.0 h.1 w')

pub answering-Keeps : (reply : Reply) → IsReply reply → Keeps (answering reply) IsServer Never
unfolding answer
answering-Keeps reply h = record {
  base_of = λ t s. refl;
  sound = λ s w. w;
  rebased = λ t s w w'. w;
  disconnected = λ client n e s d w. tcp_virtual-Keeps.disconnected client n e s d w;
  recv_error = λ client n e s d w. tcp_virtual-Keeps.recv_error client n e s d w;
  send_error = λ client n e s d w. tcp_virtual-Keeps.send_error client n e s d w;
  timed_out = λ client n s d w. tcp_virtual-Keeps.timed_out client n s d w;
  data_received = λ client n bytes s d w. rw (on_data_received_lem client bytes s w.handle) (
      inl (
        post_all-IsServer (reply client bytes)
          (tell (on_client_data_received s.data_handle client bytes) s) (h client n bytes d)
          (record {
            manager = w.manager;
            entries = w.entries;
            posted = w.posted;
            handle = w.handle;
          })));
}

-- The calls that an answer puts off.
abbrev pub made : List (SocketClientData × List ℕ) → Functions
made [] = []
made ((client, bytes) ∷ answers) =
    (client, record { data_bytes = take (length bytes) bytes; len = length bytes; position = 0 })
    ∷ made answers

post_all-Passes :
    (client : SocketClientData) (n : ℕ) (answers : List (SocketClientData × List ℕ)) (s : TcpServer)
    → IsLive s
    → Returns (post_all answers s) (Passes client n [] [] (made answers) s)
unfolding post_all post_send new_output_buffer
post_all-Passes client n [] s v = (s, refl, quiet client n s s v refl refl)
post_all-Passes client n ((owner, bytes) ∷ answers) s v =
    let b : OutputBuffer = record {
      data_bytes = take (length bytes) bytes;
      len = length bytes;
      position = 0;
    } in
    and_then client n [] [] [] [] ((owner, b) ∷ []) (made answers) s
      (post_send owner bytes (pos (length bytes)) s >>= λ r. ok r.0) (post_all answers)
      (
        _,
        refl,
        record {
          valid = v;
          functions = refl;
          queue = λ c' found. (c', found, sym (append-nil (pending c'.write_queue)));
        },
      )
      (λ t v'. post_all-Passes client n answers t v')

-- What an answer puts off.
abbrev pub answers_by : Reply → Answers
answers_by reply owner bytes = made (reply owner bytes)

leaves :
    (reply : Reply) (client owner : SocketClientData) (n k : ℕ) (added : List ℕ) (error : ℤ)
    (s : TcpServer)
    → Descriptor client n
    → Descriptor owner k
    → IsLive s
    → PassesOn
        (answering reply)
        IsLive
        Never
        client
        n
        []
        (if same owner client then added else [])
        []
        s
        (remove_client owner (tell (on_client_disconnected s.data_handle owner error) s))
leaves reply client owner n k added error s d e w =
    let (t, ran, p) = let_go client owner n k added error s w d e in inl (t, ran, (p.valid, p))

pub answering-IsPassing :
    (reply : Reply) → IsPassing (answering reply) IsLive Never (answers_by reply)
unfolding answer
answering-IsPassing reply = record {
  base_of = λ t s. refl;
  sound = λ s w. w;
  rebased = λ t s v w. v;
  disconnected = λ error client owner n k added s d e w.
      rw (on_disconnected_lem owner error s w.1)
        (leaves reply client owner n k added error s d e w);
  recv_error = λ error client owner n k added s d e w.
      rw (on_recv_error_lem owner error s w.1) (leaves reply client owner n k added error s d e w);
  send_error = λ error client owner n k added s d e w.
      rw (on_send_error_lem owner error s w.1) (leaves reply client owner n k added error s d e w);
  timed_out = λ client owner n k added s d e w.
      rw (on_timeout_lem owner s w.1) (leaves reply client owner n k added (pos 0) s d e w);
  data_received = λ client owner n bytes s w. rw (on_data_received_lem owner bytes s w.1) (
      let (t, ran, p) =
        told client n [] [] (made (reply owner bytes))
          (on_client_data_received s.data_handle owner bytes) s
          (post_all-Passes client n (reply owner bytes) _ w) in
      inl (t, ran, (p.valid, p)));
}
