-- ===== src/Tests/EchoRuns.antt =====
-- The theorems on the common echo server at concrete inputs.
use serverlib.Prelude.{some, refl, false, List, [], ◌∷◌, ◌++◌, arith}
use serverlib.Prelude.Int.{pos}
use serverlib.Tcp.Connection.{Wakeup, received}
use serverlib.Tcp.Server.Loop.{Ends}
use serverlib.Tcp.Server.History.{accepts, asyncs, wakes_io}
use serverlib.Common.Server.{Dispatcher, CommonServer, common_virtual, with_tcp}
use serverlib.Common.Server.Keeps.{BadLength, rebased_dispatcher}
use serverlib.Common.Server.Prepared.{prepared}
use serverlib.Common.Server.Turns.{Turn, server_takes, thread_takes}
use serverlib.Common.Server.Echo.{AllEchoTurns, IsEchoServer, answered, echo_turns}
use serverlib.Common.Server.Echo.Turns.{echo_turns-IsEchoServer, prepared-IsEchoServer}
use serverlib.Tcp.Server.Passing.Balances.{Balances}
use serverlib.Common.Server.Echo.Written.{gone_turns, given_turns, echo_turns-Balances}
use serverlib.Tests.AnswerRuns.{connected, connected-IsServer}
use serverlib.Tests.{alice, reading}

abbrev echo_four : Dispatcher
echo_four = (prepared 1 (pos 4)).dispatcher

-- A packet of two bytes comes in.
abbrev packet_in : Wakeup
packet_in = record reading { recv = received (2 ∷ 0 ∷ 0 ∷ 0 ∷ 7 ∷ 8 ∷ []) }

abbrev echo_ts : List Turn
echo_ts =
    server_takes (accepts false alice (pos 100))
    ∷ server_takes (wakes_io alice packet_in)
    ∷ thread_takes 0
    ∷ thread_takes 0
    ∷ thread_takes 0
    ∷ thread_takes 0
    ∷ server_takes asyncs
    ∷ []

echo_ts-AllEchoTurns : AllEchoTurns (prepared 1 (pos 4)) echo_ts
echo_ts-AllEchoTurns = (
  tt,
  λ s₁ e₁. (
    (5, refl, λ conn found. tt),
    λ s₂ e₂. (tt, λ s₃ e₃. (tt, λ s₄ e₄. (tt, λ s₅ e₅. (tt, λ s₆ e₆. (tt, λ s₇ e₇. tt))))),
  ),
)

echo_turns-IsEchoServer_example :
    Ends common_virtual
      (IsEchoServer echo_four (λ i. [] ++ answered i (prepared 1 (pos 4)) echo_ts))
      BadLength
      (echo_turns (prepared 1 (pos 4)) echo_ts)
echo_turns-IsEchoServer_example =
    echo_turns-IsEchoServer echo_four (λ i. []) (prepared 1 (pos 4)) echo_ts
      (prepared-IsEchoServer 1 4 (omega arith) (omega arith)) echo_ts-AllEchoTurns

-- A server that knows `alice`.
abbrev knowing : CommonServer
knowing = with_tcp (record connected { data_handle = some 1 }) (prepared 1 (pos 4))

knowing-IsEchoServer : IsEchoServer echo_four (λ i. []) knowing
knowing-IsEchoServer =
    let g = prepared-IsEchoServer 1 4 (omega arith) (omega arith) in
    let w = connected-IsServer in
    (
      rebased_dispatcher echo_four (record connected { data_handle = some 1 }) echo_four
          (record {
            manager = w.manager;
            entries = w.entries;
            posted = w.posted;
            handle = (1, refl);
          })
          g.0,
      g.1,
      g.2,
      g.3,
    )

abbrev answer_ts : List Turn
answer_ts =
    server_takes (wakes_io alice packet_in)
    ∷ thread_takes 0
    ∷ thread_takes 0
    ∷ thread_takes 0
    ∷ thread_takes 0
    ∷ server_takes asyncs
    ∷ []

answer_ts-AllEchoTurns : AllEchoTurns knowing answer_ts
answer_ts-AllEchoTurns = (
  (5, refl, λ conn found. tt),
  λ s₂ e₂. (tt, λ s₃ e₃. (tt, λ s₄ e₄. (tt, λ s₅ e₅. (tt, λ s₆ e₆. (tt, λ s₇ e₇. tt))))),
)

echo_turns-Balances_example :
    Ends common_virtual
      (λ s'.
        Balances alice 5
          (gone_turns alice knowing answer_ts)
          (given_turns alice knowing answer_ts)
          knowing.dispatcher.tcp
          s'.dispatcher.tcp)
      BadLength
      (echo_turns knowing answer_ts)
echo_turns-Balances_example =
    echo_turns-Balances alice 5 echo_four (λ i. []) knowing answer_ts refl knowing-IsEchoServer
      answer_ts-AllEchoTurns refl
