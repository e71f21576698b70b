-- ===== src/Tcp/Server/Answer/Echo.antt =====
-- The echo servers of test/: what is read from a client, and what is written to it.
use serverlib.Prelude.{
  ◌⊎◌, none, ℕ, ◌≡◌, refl, ap, ◌∙◌, Bool, true, false, Bool-cases, inl, inr, List, [], ◌∷◌, ◌++◌,
  some, length, if◌then◌else◌, ◌&&◌, not, arith,
}
use serverlib.Prelude.Int.{pos, negsuc}
use serverlib.Tcp.Channels.{get}
use serverlib.Tcp.Connection.Stream.{take_all}
use serverlib.Prelude.Run.{Run, Returns, ok, fault}
use serverlib.Prelude.Map.{same}
use serverlib.Socket.{SocketClientData}
use serverlib.Socket.Order.{client_order}
use serverlib.Tcp.Channels.View.{Descriptor}
use serverlib.Tcp.Connection.{Call, client_data_received}
use serverlib.Tcp.Server.{TcpServer}
use serverlib.Tcp.Server.Invariant.{IsServer}
use serverlib.Tcp.Server.History.{sends, wakes_io, Input, step, run, AllProper}
use serverlib.Tcp.Server.Answer.{answering, echo, echo-IsReply, answers_by}
use serverlib.Tcp.Server.Passing.Calls.{answers_to}
use serverlib.Tcp.Server.Passing.Account.{given_at, to_write}
use serverlib.Tcp.Server.Passing.Account.{calls_at}
use serverlib.Tcp.Server.Passing.Balances.{after, gone_in, given_in, stays}
use serverlib.Tcp.Server.Answer.Sent.{run-Balances}
use serverlib.Tcp.Server.Passing.Passes.{posted}

-- The bytes that a connection's calls hand to the server.
abbrev pub read_bytes : List Call → List ℕ
read_bytes [] = []
read_bytes (client_data_received bytes ∷ calls) = bytes ++ read_bytes calls
read_bytes (_ ∷ calls) = read_bytes calls

abbrev pub read_at : SocketClientData → TcpServer → Input → List ℕ
read_at client s (wakes_io owner w) =
    if same owner client then read_bytes (calls_at w (get owner s.manager)) else []
read_at client s (_) = []

-- What an echo server receives from the client in a history, in order.
abbrev pub read_in : SocketClientData → TcpServer → List Input → List ℕ
read_in client s [] = []
read_in client s (i ∷ inputs) =
    read_at client s i ++ after (step ⦃v = answering echo⦄ s i) (λ t. read_in client t inputs)

-- The server's users send nothing to this client.
abbrev pub unprompted : SocketClientData → List Input → Bool
unprompted client [] = true
unprompted client (sends owner bytes len ∷ inputs) =
    not (same owner client) && unprompted client inputs
unprompted client (_ ∷ inputs) = unprompted client inputs

echoed_one :
    (client owner : SocketClientData) (calls : List Call)
    → same owner client ≡ true
    → posted client (answers_to (answers_by echo) owner calls) ≡ read_bytes calls
echoed_one client owner [] h = refl
echoed_one client owner (client_data_received bytes ∷ calls) h = rw h (
    rw (take_all (length bytes) bytes (omega arith))
      (ap (◌++◌ bytes) (echoed_one client owner calls h)))
echoed_one client owner (_ ∷ calls) h = echoed_one client owner calls h

echoed_two :
    (client owner : SocketClientData) (calls : List Call)
    → same owner client ≡ false
    → posted client (answers_to (answers_by echo) owner calls) ≡ []
echoed_two client owner [] h = refl
echoed_two client owner (client_data_received bytes ∷ calls) h =
    rw h (echoed_two client owner calls h)
echoed_two client owner (_ ∷ calls) h = echoed_two client owner calls h

-- An echo server's handle sends a client what the client's connection read.
given_at-read_bytes :
    (client : SocketClientData) (s : TcpServer) (i : Input)
    → unprompted client (i ∷ []) ≡ true
    → given_at (answers_by echo) client s i ≡ read_at client s i
given_at-read_bytes client s (wakes_io owner w) u = elim (Bool-cases (same owner client)) [
  | inl one ↦ rw one (echoed_one client owner (calls_at w (get owner s.manager)) one)
  | inr two ↦ rw two (echoed_two client owner (calls_at w (get owner s.manager)) two)
]
given_at-read_bytes client s (sends owner bytes (pos k)) u = ground arith
given_at-read_bytes client s (sends owner bytes (negsuc k)) u = refl
given_at-read_bytes client s (_) u = refl

after_cong :
    (r : Run TcpServer) (f g : TcpServer → List ℕ)
    → ((s : TcpServer) → f s ≡ g s)
    → after r f ≡ after r g
after_cong (ok s) f g h = h s
after_cong (fault why) f g h = refl

unprompted-first :
    (client : SocketClientData) (i : Input) (inputs : List Input)
    → unprompted client (i ∷ inputs) ≡ true
    → (unprompted client (i ∷ []) ≡ true) × (unprompted client inputs ≡ true)
unprompted-first client (sends owner bytes len) inputs u = ground arith
unprompted-first client (_) inputs u = (refl, u)

given_in-read_bytes :
    (client : SocketClientData) (s : TcpServer) (inputs : List Input)
    → unprompted client inputs ≡ true
    → given_in (answering echo) (answers_by echo) client s inputs ≡ read_in client s inputs
given_in-read_bytes client s [] u = refl
given_in-read_bytes client s (i ∷ inputs) u =
    let (first, rest) = unprompted-first client i inputs u in
    ap
      (λ (xs : List ℕ).
        xs
        ++ after (step ⦃v = answering echo⦄ s i)
            (λ t. given_in (answering echo) (answers_by echo) client t inputs))
      (given_at-read_bytes client s i first)
    ∙ ap (◌++◌ (read_at client s i)) (
        after_cong (step ⦃v = answering echo⦄ s i) _ _
          (λ t. given_in-read_bytes client t inputs rest))

-- From a sound state in which a known client has nothing to be written, as when it has just been
-- accepted, in a proper history of an echo server in which it is not accepted again and nothing
-- else is sent to it: there is no fault, and in the end the client is unknown, or the bytes written
-- to it, and then those still queued or put off for it, are those received from it, in order.
pub run-echoes :
    (client : SocketClientData) (n : ℕ) (s : TcpServer) (inputs : List Input)
    → IsServer s
    → Descriptor client n
    → AllProper ⦃v = answering echo⦄ s inputs
    → stays client inputs ≡ true
    → unprompted client inputs ≡ true
    → to_write client n s ≡ some []
    → Returns (run ⦃v = answering echo⦄ s inputs) (λ t.
      (to_write client n t ≡ none)
      ⊎ ((left : List ℕ) × (to_write client n t ≡ some left)
          × (gone_in (answering echo) (answers_by echo) client s inputs ++ left
              ≡ read_in client s inputs)))
run-echoes client n s inputs v d p r u fresh =
    let (t, ran, b) = run-Balances echo client n s inputs echo-IsReply v d p r in
    (
      t,
      ran,
      elim b [
        | inl unknown ↦ inl unknown
        | inr (had, left, before, known, e) ↦
            let q : had ≡ [] = cc in
            inr (
              left,
              known,
              e
                  ∙ ap
                      (λ (xs : List ℕ).
                        xs ++ given_in (answering echo) (answers_by echo) client s inputs)
                      q
                  ∙ given_in-read_bytes client s inputs u,
            )
      ],
    )
