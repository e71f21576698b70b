-- ===== src/Tcp/Server/Passing/Account.antt =====
-- What was sent to a client and what was written to it, as an account.
use mathlib.Core.Option
use serverlib.Prelude.{
  ℕ, ◌≡◌, sym, ap, ◌∙◌, Bool, false, inl, inr, List, [], ◌++◌, append-nil, append_assoc, Option,
  Option-cases, none, some, take, if◌then◌else◌,
}
use serverlib.Prelude.Int.{pos}
use serverlib.Prelude.Run.{Run, ok, fault}
use serverlib.Prelude.Map.{same}
use serverlib.Socket.{SocketClientData}
use serverlib.Socket.Order.{client_order}
use serverlib.OutputBuffer.{OutputBuffer}
use serverlib.OutputBuffer.Pending.{pending}
use serverlib.Tcp.Channels.{get}
use serverlib.Tcp.Channels.View.{lookup}
use serverlib.Tcp.Connection.{Connection, Call, Wakeup, io_callback}
use serverlib.Tcp.Connection.Stream.{wrote_bytes}
use serverlib.Tcp.Server.{TcpServer}
use serverlib.Tcp.Server.History.{Input, sends, accepts, wakes_io}
use serverlib.Tcp.Server.Passing.Kept.{Answers}
use serverlib.Tcp.Server.Passing.Passes.{posted, posted-append, Passes}
use serverlib.Tcp.Server.Passing.Calls.{answers_to}

-- The bytes that a known client is still to be written: queued, and then put off.
abbrev pub to_write : SocketClientData → ℕ → TcpServer → Option (List ℕ)
to_write client n s =
    Option.map (λ (c : Connection). pending c.write_queue ++ posted client s.functions)
      (lookup client n s.manager)

-- If the client is known in the end, it was before, and what it was still to be written then and
-- what it was `given` is what it is `gone` and what is left, in order.
abbrev pub Account : SocketClientData → ℕ → List ℕ → List ℕ → TcpServer → TcpServer → Type 0
Account client n gone given s s' =
    (left : List ℕ)
    → to_write client n s' ≡ some left
    → (had : List ℕ) × (to_write client n s ≡ some had) × (gone ++ left ≡ had ++ given)

-- The calls of a connection that libev wakes.
abbrev pub calls_at : Wakeup → Run (Option Connection) → List Call
calls_at w (ok (some c)) = (io_callback w c).1
calls_at w (ok none) = []
calls_at w (fault f) = []

-- What is written to the client at an input.
abbrev pub gone_at : SocketClientData → TcpServer → Input → List ℕ
gone_at client s (wakes_io owner w) =
    if same owner client then wrote_bytes (calls_at w (get owner s.manager)) else []
gone_at client s (_) = []

-- What is sent to the client at an input, by the server's users or where a client's bytes arrive.
abbrev pub given_at : Answers → SocketClientData → TcpServer → Input → List ℕ
given_at answers client s (sends owner bytes (pos k)) =
    if same owner client then take k bytes else []
given_at answers client s (wakes_io owner w) =
    posted client (answers_to answers owner (calls_at w (get owner s.manager)))
given_at answers client s (_) = []

-- A connection of this client may be accepted here.
abbrev pub renews : SocketClientData → Input → Bool
renews client (accepts error owner now) = same owner client
renews client (_) = false

pub known_cases :
    (client : SocketClientData) (n : ℕ) (s : TcpServer) (left : List ℕ)
    → to_write client n s ≡ some left
    → (c : Connection) × (lookup client n s.manager ≡ some c)
      × (pending c.write_queue ++ posted client s.functions ≡ left)
known_cases client n s left h = elim (Option-cases (lookup client n s.manager)) [
  | inl unknown ↦ let lost : none ≡ some left = rw unknown at h in absurd (cc)
  | inr (c, known) ↦
      let e : some (pending c.write_queue ++ posted client s.functions) ≡ some left =
        rw known at h in
      (c, known, cc)
]

shuffle :
    (gone q' f f' more q : List ℕ)
    → gone ++ q' ≡ q ++ []
    → f' ≡ f ++ more
    → gone ++ (q' ++ f') ≡ (q ++ f) ++ more
shuffle gone q' f f' more q h e =
    sym (append_assoc gone q' f')
    ∙ ap (λ (xs : List ℕ). xs ++ f') (h ∙ append-nil q)
    ∙ ap (◌++◌ q) e
    ∙ sym (append_assoc q f more)

pub Passes-Account :
    (client : SocketClientData) (n : ℕ) (gone : List ℕ)
    (more : List (SocketClientData × OutputBuffer)) (s s' : TcpServer)
    → Passes client n gone [] more s s'
    → Account client n gone (posted client more) s s'
Passes-Account client n gone more s s' p left h =
    let (c', known, e) = known_cases client n s' left h in
    let (c, known', q) = p.queue c' known in
    (
      pending c.write_queue ++ posted client s.functions,
      ap (Option.map (λ (c : Connection). pending c.write_queue ++ posted client s.functions))
          known',
      ap (◌++◌ gone) (sym e)
          ∙ shuffle gone (pending c'.write_queue) (posted client s.functions)
              (posted client s'.functions) (posted client more) (pending c.write_queue) q
              (ap (posted client) p.functions ∙ posted-append client s.functions more),
    )
