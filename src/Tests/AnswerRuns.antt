-- ===== src/Tests/AnswerRuns.antt =====
-- The theorems on answering servers at concrete inputs: an echo server to which `alice` is
-- connected.
use mathlib.Core.Option
use mathlib.Core.Path.{subst}
use serverlib.Prelude.{ℕ, ◌≡◌, refl, ap, ◌⊎◌, false, List, [], ◌∷◌, ◌++◌, none, some, arith}
use serverlib.Prelude.Int.{pos}
use serverlib.Prelude.Run.{Returns}
use serverlib.Prelude.Map.{same}
use serverlib.Socket.{lt}
use serverlib.Socket.Order.{client_order}
use serverlib.OutputBuffer.Pending.{pending}
use serverlib.Tcp.Channels.{new_manager}
use serverlib.Tcp.Connection.{Connection}
use serverlib.Tcp.Server.{TcpServer, new_tcp_server, set_data_handle}
use serverlib.Tcp.Server.Invariant.{IsEntry, IsServer, Writes-Entries, ready-IsServer}
use serverlib.Tcp.Server.History.{
  Input, starts, accepts, asyncs, sends, wakes_io, wakes_timer, AllProper, run,
}
use serverlib.Tcp.Server.Answer.{answering, echo, echo-IsReply, answers_by}
use serverlib.Tcp.Server.Passing.Account.{to_write}
use serverlib.Tcp.Server.Passing.Passes.{posted}
use serverlib.Tcp.Server.Passing.Balances.{Balances, gone_in, given_in}
use serverlib.Tcp.Server.Answer.Sent.{run-Balances}
use serverlib.Tcp.Server.Answer.Echo.{read_in}
use serverlib.Echo.Two.{Side, at_first, at_second, firsts, both}
use serverlib.Echo.Tcp.{echo_step, set_up, set_up-IsServer, both-echoes}
use serverlib.Tests.{alice, bob, busy, reading, fresh, fresh-IsConnection, one_known, alice-known}

abbrev pub connected : TcpServer
connected = record new_tcp_server { manager = one_known.0; functions = []; data_handle = some 1 }

pub connected-IsServer : IsServer connected
unfolding new_manager new_tcp_server set_data_handle
connected-IsServer = record {
  manager = one_known.2.valid;
  entries =
      Writes-Entries alice (some fresh) new_manager one_known.0 one_known.2
        (λ c found.
          subst (IsEntry alice) (cc) (record { sound = fresh-IsConnection; named = refl }))
        (ready-IsServer 1).entries;
  posted = tt;
  handle = (1, refl);
}

connected-to_write : to_write alice 5 connected ≡ some []
connected-to_write =
    ap (Option.map (λ (c : Connection). pending c.write_queue ++ posted alice [])) alice-known

abbrev inputs : List Input
inputs =
    wakes_io alice reading
    ∷ accepts false bob (pos 100)
    ∷ sends bob (7 ∷ 8 ∷ []) (pos 2)
    ∷ asyncs
    ∷ wakes_timer bob busy
    ∷ []

inputs-AllProper : AllProper ⦃v = answering echo⦄ connected inputs
inputs-AllProper = (
  (5, refl, λ conn found. tt),
  λ s₁ e₁. (
    tt,
    λ s₂ e₂.
        (((261, refl), (2, refl, omega arith)), λ s₃ e₃. (tt, λ s₄ e₄. ((261, refl), λ s₅ e₅. tt))),
  ),
)

run-Balances_example : Returns (run ⦃v = answering echo⦄ connected inputs) (
    Balances alice 5
      (gone_in (answering echo) (answers_by echo) alice connected inputs)
      (given_in (answering echo) (answers_by echo) alice connected inputs)
      connected)
unfolding same lt
run-Balances_example =
    run-Balances echo alice 5 connected inputs echo-IsReply connected-IsServer refl inputs-AllProper
      refl

-- The second server starts, accepts `alice` too, and has a late wake-up.
abbrev sides : List (Side Input)
sides =
    at_first (wakes_io alice reading)
    ∷ at_second (starts 0 8888 (pos 9) (pos 0))
    ∷ at_first (accepts false bob (pos 100))
    ∷ at_first (sends bob (7 ∷ 8 ∷ []) (pos 2))
    ∷ at_second (accepts false alice (pos 101))
    ∷ at_first asyncs
    ∷ at_second asyncs
    ∷ at_first (wakes_timer bob busy)
    ∷ []

both-echoes_example : Returns (both echo_step (connected, set_up.1) sides) (λ p.
    IsServer p.1
    × ((to_write alice 5 p.0 ≡ none)
        ⊎ ((left : List ℕ) × (to_write alice 5 p.0 ≡ some left)
            × (gone_in (answering echo) (answers_by echo) alice connected (firsts sides) ++ left
                ≡ read_in alice connected (firsts sides)))))
unfolding same lt
both-echoes_example =
    both-echoes alice 5 connected set_up.1 sides connected-IsServer set_up-IsServer.1 refl
      inputs-AllProper (tt, λ s₁ e₁. (tt, λ s₂ e₂. (tt, λ s₃ e₃. tt))) refl refl connected-to_write
