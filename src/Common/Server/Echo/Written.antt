-- ===== src/Common/Server/Echo/Written.antt =====
-- The echo server: what its threads handled of a client, and what is written to the client.
use serverlib.Prelude.{
  ℕ, ◌≡◌, refl, ap, sym, ◌∙◌, Bool, true, false, Bool-cases, inl, inr, List, [], ◌∷◌, ◌++◌,
  append-nil, ◌&&◌, not, if◌then◌else◌, arith,
}
use mathlib.Core.Path.{subst}
use serverlib.Prelude.Map.{same}
use serverlib.Socket.{SocketClientData}
use serverlib.Socket.Order.{client_order}
use serverlib.OutputBuffer.{get_data_pos}
use serverlib.OutputBuffer.Pending.{pending}
use serverlib.Tcp.Channels.View.{Descriptor, lookup}
use serverlib.Tcp.Server.Loop.{Ends}
use serverlib.Tcp.Server.History.{Input, IsProper}
use serverlib.Tcp.Server.Passing.Passes.{posted}
use serverlib.Tcp.Server.Passing.Account.{Account, Passes-Account, gone_at, given_at, renews}
use serverlib.Tcp.Server.Passing.Step.{step-Accounts}
use serverlib.Tcp.Server.Passing.Balances.{
  after, Balances, Account-refl, Account-trans, Account-Balances, both,
}
use serverlib.Common.Threads.{PktData}
use serverlib.Common.Server.{Dispatcher, CommonServer, common_virtual, with_tcp}
use serverlib.Common.Server.Held.{works_at}
use serverlib.Common.Server.Keeps.{BadLength}
use serverlib.Common.Server.Turns.{Turn, server_takes, thread_takes, IsProperTurn}
use serverlib.Common.Server.Echo.{
  copies, hand_at, echo_turn, echo_turns, AllEchoTurns, answers_at, IsEchoServer,
}
use serverlib.Common.Server.Echo.Keeps.{send_back-copies, hand_at-AllPosted}
use serverlib.Common.Server.Echo.Turns.{echo_turn-Ends}
use serverlib.Common.Server.Echo.Passing.{IsThreaded, no_answers, common_virtual-IsPassing}

-- The bytes of the packets that are this client's.
abbrev pub bytes_of : SocketClientData → List PktData → List ℕ
bytes_of client [] = []
bytes_of client ((owner, buffer) ∷ packets) =
    (if same owner client then get_data_pos buffer else []) ++ bytes_of client packets

-- What is written to the client at a turn, and what is sent to it: by the server's users, or by a
-- thread that comes back from a packet of the client.
abbrev pub gone_turn : SocketClientData → CommonServer → Turn → List ℕ
gone_turn client s (server_takes i) = gone_at client s.dispatcher.tcp i
gone_turn client s (thread_takes j) = []

abbrev pub given_turn : SocketClientData → CommonServer → Turn → List ℕ
given_turn client s (server_takes i) = given_at no_answers client s.dispatcher.tcp i
given_turn client s (thread_takes j) = bytes_of client (hand_at j s.dispatcher)

abbrev pub gone_turns : SocketClientData → CommonServer → List Turn → List ℕ
gone_turns client s [] = []
gone_turns client s (t ∷ ts) =
    gone_turn client s t ++ after (echo_turn s t) (λ s'. gone_turns client s' ts)

abbrev pub given_turns : SocketClientData → CommonServer → List Turn → List ℕ
given_turns client s [] = []
given_turns client s (t ∷ ts) =
    given_turn client s t ++ after (echo_turn s t) (λ s'. given_turns client s' ts)

-- No connection of this client is accepted.
abbrev pub stays_turn : SocketClientData → Turn → Bool
stays_turn client (server_takes i) = not (renews client i)
stays_turn client (thread_takes j) = true

abbrev pub stays_turns : SocketClientData → List Turn → Bool
stays_turns client [] = true
stays_turns client (t ∷ ts) = stays_turn client t && stays_turns client ts

posted-copies :
    (client : SocketClientData) (packets : List PktData)
    → posted client (copies packets) ≡ bytes_of client packets
posted-copies client [] = refl
posted-copies client ((owner, buffer) ∷ packets) = elim (Bool-cases (same owner client)) [
  | inl one ↦ rw one (ap (◌++◌ (get_data_pos buffer)) (posted-copies client packets))
  | inr two ↦ rw two (posted-copies client packets)
]

module _ (client : SocketClientData) (n : ℕ) (d : Descriptor client n) (d₀ : Dispatcher)
    (past : ℕ → List PktData) where
  abbrev Accounted : List ℕ → List ℕ → CommonServer → CommonServer → Type 0
  Accounted gone given s s' = Account client n gone given s.dispatcher.tcp s'.dispatcher.tcp

  server-Accounted :
      (s : CommonServer) (i : Input)
      → IsEchoServer d₀ past s
      → IsProper s.dispatcher.tcp i
      → renews client i ≡ false
      → Ends common_virtual
          (Accounted
            (gone_at client s.dispatcher.tcp i)
            (given_at no_answers client s.dispatcher.tcp i)
            s)
          BadLength
          (echo_turn s (server_takes i))
  unfolding echo_turn
  server-Accounted s i w p r =
      elim (step-Accounts common_virtual IsThreaded BadLength no_answers common_virtual-IsPassing
        client n s (w.0.1, w.2, (w.0.0.manager, w.0.0.handle)) i w.0.0 d p r) [
          | inl (s', ran, (_, a)) ↦ inl (s', ran, a)
          | inr threw ↦ inr threw
        ]

  -- A thread sends back what it has in hand.
  thread-Accounted :
      (s : CommonServer) (j : ℕ)
      → IsEchoServer d₀ past s
      → Ends common_virtual
          (Accounted [] (bytes_of client (hand_at j s.dispatcher)) s)
          BadLength
          (echo_turn s (thread_takes j))
  unfolding echo_turn
  thread-Accounted s j w =
      let (t, ran, (w', e, m)) =
        send_back-copies (hand_at j s.dispatcher) s.dispatcher.tcp
          (hand_at-AllPosted j s.dispatcher w.1) w.0.0 in
      inl (
        with_tcp t (record s { dispatcher = works_at j s.dispatcher }),
        rw ran refl,
        subst (λ (xs : List ℕ). Account client n [] xs s.dispatcher.tcp t)
            (posted-copies client (hand_at j s.dispatcher))
            (Passes-Account client n [] (copies (hand_at j s.dispatcher)) s.dispatcher.tcp t
              (record {
                valid = (w'.manager, w'.handle);
                functions = e;
                queue = λ c' found. (
                  c',
                  ap (lookup client n) (sym m) ∙ found,
                  sym (append-nil (pending c'.write_queue)),
                );
              })),
      )

  turn-both :
      (s : CommonServer) (t : Turn)
      → IsEchoServer d₀ past s
      → IsProperTurn s t
      → stays_turn client t ≡ true
      → Ends common_virtual
          (λ s'.
            IsEchoServer d₀ (λ i. past i ++ answers_at i s t) s'
            × Accounted (gone_turn client s t) (given_turn client s t) s s')
          BadLength
          (echo_turn s t)
  turn-both s t w p r =
      both common_virtual BadLength (echo_turn s t)
        (IsEchoServer d₀ (λ i. past i ++ answers_at i s t))
        (Accounted (gone_turn client s t) (given_turn client s t) s)
        (echo_turn-Ends d₀ past s t w p) (accounted t p r)
    where
      accounted :
          (t : Turn)
          → IsProperTurn s t
          → stays_turn client t ≡ true
          → Ends common_virtual
              (Accounted (gone_turn client s t) (given_turn client s t) s)
              BadLength
              (echo_turn s t)
      accounted (server_takes i) p r = server-Accounted s i w p (ground arith)
      accounted (thread_takes j) p r = thread-Accounted s j w

module _ (client : SocketClientData) (n : ℕ) (d : Descriptor client n) (d₀ : Dispatcher) where
  turns-Account :
      (past : ℕ → List PktData) (s : CommonServer) (ts : List Turn)
      → IsEchoServer d₀ past s
      → AllEchoTurns s ts
      → stays_turns client ts ≡ true
      → Ends common_virtual
          (λ s'.
            Account client n
              (gone_turns client s ts)
              (given_turns client s ts)
              s.dispatcher.tcp
              s'.dispatcher.tcp)
          BadLength
          (echo_turns s ts)
  unfolding echo_turns
  turns-Account past s [] w p r = inl (s, refl, Account-refl client n s.dispatcher.tcp)
  turns-Account past s (t ∷ ts) w p r =
      elim (turn-both client n d d₀ past s t w p.0 (ground arith)) [
        | inl (s', ran, (w', a)) ↦
            rw ran
              (elim (turns-Account (λ i. past i ++ answers_at i s t) s' ts w' (p.1 s' ran)
                (ground arith)) [
                  | inl (u, ran', a') ↦ inl (
                    u,
                    ran',
                    Account-trans client n (gone_turn client s t) (gone_turns client s' ts)
                        (given_turn client s t) (given_turns client s' ts) s.dispatcher.tcp
                        s'.dispatcher.tcp u.dispatcher.tcp a a',
                  )
                  | inr threw ↦ inr threw
                ])
        | inr (why, threw, bad) ↦ inr (why, rw threw refl, bad)
      ]

-- From a sound common server with threads, whose packets can be sent back, and in any interleaving
-- of proper inputs, none of which accepts a connection of the client, with the steps of its threads,
-- each of which answers by `Send`: the history ends in one of the two exceptions that a bad length
-- causes, or the client is unknown in the end, or it was known before, and what was written to it,
-- and then what is queued and put off for it, is what was so before, and then what the server's
-- users sent to it and the packets of the client that its threads handled, in the order of these
-- calls: no answer is lost, doubled or overtaken.
pub echo_turns-Balances :
    (client : SocketClientData) (n : ℕ) (d₀ : Dispatcher) (past : ℕ → List PktData)
    (s : CommonServer) (ts : List Turn)
    → Descriptor client n
    → IsEchoServer d₀ past s
    → AllEchoTurns s ts
    → stays_turns client ts ≡ true
    → Ends common_virtual
        (λ s'.
          Balances client n
            (gone_turns client s ts)
            (given_turns client s ts)
            s.dispatcher.tcp
            s'.dispatcher.tcp)
        BadLength
        (echo_turns s ts)
echo_turns-Balances client n d₀ past s ts d w p r =
    elim (turns-Account client n d d₀ past s ts w p r) [
      | inl (s', ran, a) ↦ inl (
        s',
        ran,
        Account-Balances client n (gone_turns client s ts) (given_turns client s ts)
            s.dispatcher.tcp s'.dispatcher.tcp a,
      )
      | inr threw ↦ inr threw
    ]
