-- ===== src/Tcp/Server/Answer/Sent.antt =====
-- A history of an answering server: what is sent to a client, and what is written to it.
use serverlib.Prelude.{ℕ, ◌≡◌, true, inl, inr, List}
use serverlib.Prelude.Run.{Returns}
use serverlib.Socket.{SocketClientData}
use serverlib.Tcp.Channels.View.{Descriptor}
use serverlib.Tcp.Server.{TcpServer}
use serverlib.Tcp.Server.Invariant.{IsServer}
use serverlib.Tcp.Server.Plain.{Never}
use serverlib.Tcp.Server.History.{Input, run, AllProper}
use serverlib.Tcp.Server.Passing.Balances.{
  gone_in, given_in, Balances, stays, Account-Balances, run-Accounts,
}
use serverlib.Tcp.Server.Handled.{IsLive}
use serverlib.Tcp.Server.Answer.{
  Reply, IsReply, answering, answering-Keeps, answers_by, answering-IsPassing,
}

-- With an answering data handle, in a proper history of a sound server in which no connection of
-- the client is accepted: there is no fault, and in the end the client is unknown, or it was known
-- before, and what was written to it, and then what is queued and put off for it, is what was so
-- before, and then what its users and its data handle sent to it, in order: nothing is lost,
-- doubled or overtaken.
pub run-Balances :
    (reply : Reply) (client : SocketClientData) (n : ℕ) (s : TcpServer) (inputs : List Input)
    → IsReply reply
    → IsServer s
    → Descriptor client n
    → AllProper ⦃v = answering reply⦄ s inputs
    → stays client inputs ≡ true
    → Returns (run ⦃v = answering reply⦄ s inputs) (
        Balances client n
          (gone_in (answering reply) (answers_by reply) client s inputs)
          (given_in (answering reply) (answers_by reply) client s inputs)
          s)
run-Balances reply client n s inputs h v d p r =
    elim (run-Accounts (answering reply) Never IsServer IsLive (answers_by reply)
      (answering-Keeps reply h) (answering-IsPassing reply) client n d s inputs v
      (v.manager, v.handle) p r) [
        | inl (t, ran, (_, a)) ↦ (
          t,
          ran,
          Account-Balances client n (gone_in (answering reply) (answers_by reply) client s inputs)
              (given_in (answering reply) (answers_by reply) client s inputs) s t a,
        )
        | inr (why, threw, never) ↦ absurd never
      ]
