-- ===== src/Tcp/Server/Delivery.antt =====
-- `__AsyncCallback` of `CTcpServer`, and the queues of the clients.
use mathlib.Core.Option
use serverlib.Prelude.{
  ℕ, suc, ◌+◌, ◌≤◌, ◌≡◌, refl, sym, ap, ◌∙◌, Bool-cases, inl, inr, List, [], ◌∷◌, ◌++◌, append-nil,
  append_assoc, Option, none, some, length, length-append, if◌then◌else◌, arith,
}
use serverlib.Prelude.Run.{Returns}
use serverlib.Prelude.Map.{same}
use serverlib.Socket.{SocketClientData}
use serverlib.Socket.Order.{client_order}
use serverlib.OutputBuffer.{OutputBuffer}
use serverlib.Tcp.Channels.View.{Descriptor, IsManager, lookup}
use serverlib.Tcp.Connection.{Connection, write_queue_max_size}
use serverlib.Tcp.Server.{TcpServer, tcp_virtual, deliver_all, async_callback}
use serverlib.Tcp.Server.Given.{given, HasRoom, deliver-Given}

-- The clients of these calls have descriptors.
abbrev pub AllOwned : List (SocketClientData × OutputBuffer) → Type 0
AllOwned [] = Unit {0}
AllOwned ((owner, buffer) ∷ functions) = ((k : ℕ) × Descriptor owner k) × AllOwned functions

-- The buffers that are for this client, in order.
abbrev pub owned : SocketClientData → List (SocketClientData × OutputBuffer) → List OutputBuffer
owned client [] = []
owned client ((owner, buffer) ∷ functions) =
    (if same owner client then buffer ∷ [] else []) ++ owned client functions

-- The queue of a client, if it is known.
abbrev pub queue_of : SocketClientData → ℕ → TcpServer → Option (List OutputBuffer)
queue_of client n s = Option.map (λ (c : Connection). c.write_queue) (lookup client n s.manager)

given-queue :
    (owner client : SocketClientData) (buffer : OutputBuffer) (c : Connection)
    → (given owner buffer client c).write_queue
      ≡ c.write_queue ++ (if same owner client then buffer ∷ [] else [])
given-queue owner client buffer c = elim (Bool-cases (same owner client)) [
  | inl one ↦ rw one refl
  | inr two ↦ rw two (sym (append-nil c.write_queue))
]

queue_given :
    (owner client : SocketClientData) (buffer : OutputBuffer) (entry : Option Connection)
    (rest : List OutputBuffer)
    → Option.map
        (λ (q : List OutputBuffer). q ++ rest)
        (Option.map
          (λ (c : Connection). c.write_queue)
          (Option.map (given owner buffer client) entry))
      ≡ Option.map
          (λ (q : List OutputBuffer).
            q ++ ((if same owner client then buffer ∷ [] else []) ++ rest))
          (Option.map (λ (c : Connection). c.write_queue) entry)
queue_given owner client buffer none rest = refl
queue_given owner client buffer (some c) rest = ap some (
    ap (λ (q : List OutputBuffer). q ++ rest) (given-queue owner client buffer c)
    ∙ append_assoc c.write_queue _ rest)

queue_nil :
    (entry : Option (List OutputBuffer))
    → entry ≡ Option.map (λ (q : List OutputBuffer). q ++ []) entry
queue_nil none = refl
queue_nil (some q) = ap some (sym (append-nil q))

given_room :
    (owner client : SocketClientData) (buffer : OutputBuffer) (entry : Option Connection)
    (c' : Connection) (more : ℕ)
    → ((c : Connection)
        → entry ≡ some c
        → length c.write_queue + suc more ≤ suc write_queue_max_size)
    → Option.map (given owner buffer client) entry ≡ some c'
    → length c'.write_queue + more ≤ suc write_queue_max_size
given_room owner client buffer none c' more h e = absurd (cc)
given_room owner client buffer (some c) c' more h e =
    let same_conn : given owner buffer client c ≡ c' = cc in
    let q : c'.write_queue ≡ c.write_queue ++ (if same owner client then buffer ∷ [] else []) =
      ap (λ (c : Connection). c.write_queue) (sym same_conn) ∙ given-queue owner client buffer c in
    let sizes : length c'.write_queue
        ≡ length c.write_queue + length (if same owner client then buffer ∷ [] else []) =
      ap length q ∙ length-append c.write_queue _ in
    elim (Bool-cases (same owner client)) [
      | inl one ↦
          let s : length c'.write_queue ≡ length c.write_queue + 1 = rw one at sizes in
          omega (arith, s, h c refl)
      | inr two ↦
          let s : length c'.write_queue ≡ length c.write_queue + 0 = rw two at sizes in
          omega (arith, s, h c refl)
    ]

-- What the calls that were put off lead to.
record GivenAll (functions : List (SocketClientData × OutputBuffer)) (s s' : TcpServer)
    : Type 0 where
  queues :
      (client : SocketClientData) (n : ℕ)
      → Descriptor client n
      → queue_of client n s'
        ≡ Option.map (λ (q : List OutputBuffer). q ++ owned client functions) (queue_of client n s)
  functions_kept : s'.functions ≡ s.functions

deliver_all-GivenAll :
    (functions : List (SocketClientData × OutputBuffer)) (s : TcpServer)
    → IsManager s.manager
    → AllOwned functions
    → HasRoom (length functions) s
    → Returns (deliver_all functions s) (GivenAll functions s)
unfolding deliver_all
deliver_all-GivenAll [] s v owners room = (
  s,
  refl,
  record { queues = λ client n e. queue_nil (queue_of client n s); functions_kept = refl },
)
deliver_all-GivenAll ((owner, buffer) ∷ functions) s v owners room =
    let (t, ran, g) =
      deliver-Given owner owners.0.0 buffer s v owners.0.1
        (λ client n c e found. omega (arith, room client n c e found)) in
    let (u, ran', q) = deliver_all-GivenAll functions t g.valid owners.1 (λ client n c e found.
      given_room owner client buffer (lookup client n s.manager) c (length functions)
        (λ c₀ found₀. room client n c₀ e found₀) (sym (g.entries client n e) ∙ found)) in
    (
      u,
      rw ran ran',
      record {
        queues = λ client n e.
            q.queues client n e
            ∙ ap
                (λ (entry : Option Connection).
                  Option.map (λ (q : List OutputBuffer). q ++ owned client functions)
                    (Option.map (λ (c : Connection). c.write_queue) entry))
                (g.entries client n e)
            ∙ queue_given owner client buffer (lookup client n s.manager) (owned client functions);
        functions_kept = q.functions_kept ∙ g.functions;
      },
    )

-- In a manager of 256 channels, for clients with descriptors, and while no queue becomes too long:
-- the calls that were put off append each client's buffers to its queue, in the order in which they
-- were made, no client is dropped, and none is put off any more.
pub async_callback-queue :
    (s : TcpServer) (client : SocketClientData) (n : ℕ)
    → IsManager s.manager
    → AllOwned s.functions
    → HasRoom (length s.functions) s
    → Descriptor client n
    → Returns (async_callback s) (λ s'.
      (queue_of client n s'
        ≡ Option.map
            (λ (q : List OutputBuffer). q ++ owned client s.functions)
            (queue_of client n s))
      × (s'.functions ≡ []))
unfolding async_callback
async_callback-queue s client n v owners room d =
    let (t, ran, g) =
      deliver_all-GivenAll s.functions (record s { functions = [] }) v owners room in
    (t, ran, (g.queues client n d, g.functions_kept))
