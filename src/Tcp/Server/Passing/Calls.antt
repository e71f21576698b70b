-- ===== src/Tcp/Server/Passing/Calls.antt =====
-- What the calls of a connection do to the bytes that wait for a client.
use serverlib.Prelude.{ℕ, ◌≡◌, refl, inl, List, [], ◌∷◌, ◌++◌, append-nil, some, if◌then◌else◌}
use serverlib.Prelude.Run.{Run, Fault, ok}
use serverlib.Prelude.Map.{same}
use serverlib.Socket.{SocketClientData}
use serverlib.Socket.Order.{client_order}
use serverlib.OutputBuffer.Pending.{pending}
use serverlib.Tcp.Channels.View.{Descriptor, lookup}
use serverlib.Tcp.Connection.{
  Connection, Call, client_disconnected, client_recv_error, client_send_error, client_data_received,
  client_timeout, set_nonblock, set_reuseaddr, set_nodelay, shut_down, closed, wrote,
}
use serverlib.Tcp.Server.{Virtual, tell, socket_call, run_call, run_calls, settle}
use serverlib.Tcp.Server.Passing.Passes.{quiet, put_connection-Passes}
use serverlib.Tcp.Server.Passing.Kept.{
  Functions, Answers, PassesOn, LetsGo, IsPassing, then_on, rebased_on, nothing_added,
}

-- The calls that a connection's calls put off.
abbrev pub answers_to : Answers → SocketClientData → List Call → Functions
answers_to answers owner [] = []
answers_to answers owner (client_data_received bytes ∷ calls) =
    answers owner bytes ++ answers_to answers owner calls
answers_to answers owner (_ ∷ calls) = answers_to answers owner calls

answers-cons :
    (answers : Answers) (owner : SocketClientData) (call : Call) (calls : List Call)
    → answers_to answers owner (call ∷ calls)
      ≡ answers_to answers owner (call ∷ []) ++ answers_to answers owner calls
answers-cons answers owner (client_data_received bytes) calls =
    rw (append-nil (answers owner bytes)) refl
answers-cons answers owner (_) calls = refl

module _ {S : Type 0} (v : Virtual S) (Inv : S → Type 0) (Allowed : Fault → Type 0)
    (answers : Answers) (passing : IsPassing v Inv Allowed answers)
    (client owner : SocketClientData) (n k : ℕ) where
  -- The destroyed connection had nothing more to be written.
  leaves :
      (member : SocketClientData → S → Run S) (s : S)
      → LetsGo v Inv Allowed member
      → Descriptor client n
      → Descriptor owner k
      → Inv s
      → PassesOn v Inv Allowed client n [] [] [] s (member owner s)
  leaves member s goes d e w =
      nothing_added v Inv Allowed client n (same owner client) s (goes client owner n k [] s d e w)

  told :
      (call : Call) (s : S)
      → Inv s
      → PassesOn v Inv Allowed client n [] [] [] s
          (ok (v.with_base (tell (socket_call call) (v.base s)) s))
  told call s w =
      rebased_on v Inv Allowed answers passing client n [] [] []
        (tell (socket_call call) (v.base s)) s w
        (quiet client n (v.base s) (tell (socket_call call) (v.base s)) (passing.sound s w) refl
          refl)

  run_call-PassesOn :
      (call : Call) (s : S)
      → Descriptor client n
      → Descriptor owner k
      → Inv s
      → PassesOn v Inv Allowed client n [] []
          (answers_to answers owner (call ∷ []))
          s
          (run_call ⦃v = v⦄ owner call s)
  unfolding run_call
  run_call-PassesOn (client_disconnected error) s d e w =
      leaves (λ owner. v.disconnected owner error) s (passing.disconnected error) d e w
  run_call-PassesOn (client_recv_error error) s d e w =
      leaves (λ owner. v.recv_error owner error) s (passing.recv_error error) d e w
  run_call-PassesOn (client_send_error error) s d e w =
      leaves (λ owner. v.send_error owner error) s (passing.send_error error) d e w
  run_call-PassesOn client_timeout s d e w = leaves v.timed_out s passing.timed_out d e w
  run_call-PassesOn (client_data_received bytes) s d e w =
      rw (append-nil (answers owner bytes)) (passing.data_received client owner n bytes s w)
  run_call-PassesOn (set_nonblock fd) s d e w = told (set_nonblock fd) s w
  run_call-PassesOn (set_reuseaddr fd) s d e w = told (set_reuseaddr fd) s w
  run_call-PassesOn (set_nodelay fd) s d e w = told (set_nodelay fd) s w
  run_call-PassesOn (shut_down fd) s d e w = told (shut_down fd) s w
  run_call-PassesOn (closed fd) s d e w = told (closed fd) s w
  run_call-PassesOn (wrote fd bytes) s d e w = told (wrote fd bytes) s w

  pub run_calls-PassesOn :
      (calls : List Call) (s : S)
      → Descriptor client n
      → Descriptor owner k
      → Inv s
      → PassesOn v Inv Allowed client n [] []
          (answers_to answers owner calls)
          s
          (run_calls ⦃v = v⦄ owner calls s)
  unfolding run_calls
  run_calls-PassesOn [] s d e w =
      inl (s, refl, (w, quiet client n (v.base s) (v.base s) (passing.sound s w) refl refl))
  run_calls-PassesOn (call ∷ calls) s d e w = rw (answers-cons answers owner call calls) (
      then_on v Inv Allowed client n [] [] [] [] (answers_to answers owner (call ∷ []))
        (answers_to answers owner calls) s (run_call ⦃v = v⦄ owner call s)
        (run_calls ⦃v = v⦄ owner calls) (run_call-PassesOn call s d e w)
        (λ t w'. run_calls-PassesOn calls t d e w'))

  pub settle-PassesOn :
      (c c' : Connection) (calls : List Call) (gone added : List ℕ) (s : S)
      → Descriptor client n
      → Descriptor owner k
      → lookup owner k (v.base s).manager ≡ some c
      → gone ++ pending c'.write_queue ≡ pending c.write_queue ++ added
      → Inv s
      → PassesOn v Inv Allowed client n
          (if same owner client then gone else [])
          (if same owner client then added else [])
          (answers_to answers owner calls)
          s
          (settle ⦃v = v⦄ owner (c', calls) s)
  unfolding settle
  settle-PassesOn c c' calls gone added s d e known h w =
      let (t, ran, p) =
        put_connection-Passes client owner n k c c' [] gone added (v.base s) (passing.sound s w) d e
          known h in
      rw
        (
          ran,
          ← append-nil (if same owner client then gone else []),
          ← append-nil (if same owner client then added else []),
        )
        (then_on v Inv Allowed client n (if same owner client then gone else []) []
          (if same owner client then added else []) [] [] (answers_to answers owner calls) s
          (ok (v.with_base t s)) (run_calls ⦃v = v⦄ owner calls)
          (rebased_on v Inv Allowed answers passing client n
            (if same owner client then gone else []) (if same owner client then added else []) [] t
            s w p)
          (λ u w'. run_calls-PassesOn calls u d e w'))
