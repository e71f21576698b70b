-- ===== src/Echo/Tcp.antt =====
-- test/tcpechoserver.cpp: its two servers, in any interleaving of what happens to them.
use serverlib.Prelude.{ℕ, ◌≡◌, refl, ap, ◌∙◌, ◌⊎◌, inl, inr, true, List, [], ◌∷◌, ◌++◌, none, some}
use serverlib.Prelude.Run.{Run, Returns, ◌>>=◌}
use serverlib.Socket.{SocketClientData}
use serverlib.Tcp.Channels.View.{Descriptor}
use serverlib.Tcp.Server.{TcpServer, new_tcp_server, set_data_handle}
use serverlib.Tcp.Server.Invariant.{IsServer, ready-IsServer}
use serverlib.Tcp.Server.Plain.{Never}
use serverlib.Tcp.Server.History.{Input, step, run, AllProper, run-Ends}
use serverlib.Tcp.Server.Passing.Account.{to_write}
use serverlib.Tcp.Server.Passing.Balances.{gone_in, stays}
use serverlib.Tcp.Server.Answer.{answering, answering-Keeps, echo, echo-IsReply, answers_by}
use serverlib.Tcp.Server.Answer.Echo.{read_in, unprompted, run-echoes}
use serverlib.Echo.Two.{Side, firsts, seconds, alone, both, both-alone}

-- What happens to one of the servers, which answers with what it receives.
unfoldable pub echo_step : TcpServer → Input → Run TcpServer
echo_step s i = step ⦃v = answering echo⦄ s i

-- The two servers before their threads run.
abbrev pub set_up : TcpServer × TcpServer
set_up = (set_data_handle 0 new_tcp_server, set_data_handle 1 new_tcp_server)

alone-run :
    (s : TcpServer) (inputs : List Input)
    → alone echo_step s inputs ≡ run ⦃v = answering echo⦄ s inputs
unfolding alone run echo_step
alone-run s [] = refl
alone-run s (i ∷ inputs) =
    ap (λ k. step ⦃v = answering echo⦄ s i >>= k) (λ j t. alone-run t inputs j)

runs :
    (s : TcpServer) (inputs : List Input)
    → IsServer s
    → AllProper ⦃v = answering echo⦄ s inputs
    → Returns (run ⦃v = answering echo⦄ s inputs) IsServer
runs s inputs w p =
    elim (run-Ends (answering echo) IsServer Never (answering-Keeps echo echo-IsReply) s inputs w
      p) [ inl r ↦ r | inr (f, e, a) ↦ absurd a ]

-- They are sound.
pub set_up-IsServer : IsServer set_up.0 × IsServer set_up.1
set_up-IsServer = (ready-IsServer 0, ready-IsServer 1)

-- Two echo servers in sound states, whose proper histories are interleaved in any way, of which the
-- first has nothing to write to a client that it knows, does not accept it again, and sends it nothing
-- else: neither faults, the second is sound in the end, and the client is unknown to the first, or the
-- bytes written to it, and then those still waiting, are those that the first received from it, in
-- order.
pub both-echoes :
    (client : SocketClientData) (n : ℕ) (s t : TcpServer) (sides : List (Side Input))
    → IsServer s
    → IsServer t
    → Descriptor client n
    → AllProper ⦃v = answering echo⦄ s (firsts sides)
    → AllProper ⦃v = answering echo⦄ t (seconds sides)
    → stays client (firsts sides) ≡ true
    → unprompted client (firsts sides) ≡ true
    → to_write client n s ≡ some []
    → Returns (both echo_step (s, t) sides) (λ p.
      IsServer p.1
      × ((to_write client n p.0 ≡ none)
          ⊎ ((left : List ℕ) × (to_write client n p.0 ≡ some left)
              × (gone_in (answering echo) (answers_by echo) client s (firsts sides) ++ left
                  ≡ read_in client s (firsts sides)))))
both-echoes client n s t sides v v' d p p' r u fresh =
    let (s', ran, told) = run-echoes client n s (firsts sides) v d p r u fresh in
    let (t', ran', w) = runs t (seconds sides) v' p' in
    (
      (s', t'),
      both-alone echo_step (s, t) (s', t') sides (alone-run s (firsts sides) ∙ ran)
          (alone-run t (seconds sides) ∙ ran'),
      (w, told),
    )
