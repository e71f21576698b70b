-- ===== src/Tcp/Server/Given.antt =====
-- One deferred send, `__Send` of `CTcpServer`, to a queue with room.
use mathlib.Core.Option
use serverlib.Prelude.{
  ℕ, suc, ◌+◌, ◌≤◌, ◌≡◌, refl, sym, ap, ◌∙◌, true, false, Bool-cases, inl, inr, [], ◌∷◌, ◌++◌,
  Option, Option-cases, none, some, length, le→ltb_false, if◌then◌else◌, arith,
}
use serverlib.Prelude.Run.{Returns}
use serverlib.Prelude.Map.{same, same_iff}
use serverlib.Socket.{SocketClientData}
use serverlib.Socket.Order.{client_order}
use serverlib.OutputBuffer.{OutputBuffer}
use serverlib.Tcp.Channels.View.{
  Descriptor, Descriptor-same, IsManager, lookup, get-lookup, add-Writes,
}
use serverlib.Tcp.Connection
use serverlib.Tcp.Connection.{Connection, write_queue_max_size, watch_read_write}
use serverlib.Tcp.Server.{TcpServer, tcp_virtual, put_connection, run_calls, settle, deliver}

-- A client's connection with one more buffer, if it is the buffer's client.
abbrev pub given : SocketClientData → OutputBuffer → SocketClientData → Connection → Connection
given owner buffer client c =
    if same owner client
    then watch_read_write (record c { write_queue = c.write_queue ++ buffer ∷ [] })
    else c

-- No queue is too long for `more` buffers.
abbrev pub HasRoom : ℕ → TcpServer → Type 0
HasRoom more s =
    (client : SocketClientData) (n : ℕ) (c : Connection)
    → Descriptor client n
    → lookup client n s.manager ≡ some c
    → length c.write_queue + more ≤ suc write_queue_max_size

-- One delivery.
pub record Given (owner : SocketClientData) (buffer : OutputBuffer) (s s' : TcpServer)
    : Type 0 where
  pub valid : IsManager s'.manager
  pub entries :
      (client : SocketClientData) (n : ℕ)
      → Descriptor client n
      → lookup client n s'.manager
        ≡ Option.map (given owner buffer client) (lookup client n s.manager)
  pub functions : s'.functions ≡ s.functions

send_lem :
    (buffer : OutputBuffer) (c : Connection)
    → length c.write_queue ≤ write_queue_max_size
    → Connection.send buffer c
      ≡ (watch_read_write (record c { write_queue = c.write_queue ++ buffer ∷ [] }), [])
unfolding Connection.send
send_lem buffer c h = rw (le→ltb_false write_queue_max_size (length c.write_queue) h) refl

pub lookup-same :
    (owner client : SocketClientData) (k n : ℕ) (s : TcpServer)
    → Descriptor owner k
    → Descriptor client n
    → same owner client ≡ true
    → lookup client n s.manager ≡ lookup owner k s.manager
lookup-same owner client k n s d e h =
    ap (λ (c : SocketClientData). lookup c n s.manager) (sym ((same_iff owner client).0 h))
    ∙ ap (λ (i : ℕ). lookup owner i s.manager) (sym (Descriptor-same owner client k n d e h))

given_other :
    (owner client : SocketClientData) (buffer : OutputBuffer) (entry : Option Connection)
    → same owner client ≡ false
    → entry ≡ Option.map (given owner buffer client) entry
given_other owner client buffer none h = refl
given_other owner client buffer (some c) h = rw h refl

given_none :
    (owner client : SocketClientData) (buffer : OutputBuffer) (entry : Option Connection)
    → (same owner client ≡ true → entry ≡ none)
    → entry ≡ Option.map (given owner buffer client) entry
given_none owner client buffer entry h = elim (Bool-cases (same owner client)) [
  | inl one ↦ rw (h one) refl
  | inr two ↦ given_other owner client buffer entry two
]

given_some :
    (owner client : SocketClientData) (buffer : OutputBuffer) (entry : Option Connection)
    (c : Connection)
    → (same owner client ≡ true → entry ≡ some c)
    → (if same owner client
        then some (watch_read_write (record c { write_queue = c.write_queue ++ buffer ∷ [] }))
        else entry)
      ≡ Option.map (given owner buffer client) entry
given_some owner client buffer entry c h = elim (Bool-cases (same owner client)) [
  | inl one ↦ rw (h one, one) refl
  | inr two ↦ rw two (given_other owner client buffer entry two)
]

pub deliver-Given :
    (owner : SocketClientData) (k : ℕ) (buffer : OutputBuffer) (s : TcpServer)
    → IsManager s.manager
    → Descriptor owner k
    → HasRoom 1 s
    → Returns (deliver owner buffer s) (Given owner buffer s)
unfolding deliver settle put_connection run_calls
deliver-Given owner k buffer s v d room = elim (Option-cases (lookup owner k s.manager)) [
  | inl unknown ↦
      rw (get-lookup owner k s.manager v d, unknown)
        (
          s,
          refl,
          record {
            valid = v;
            entries = λ client n e.
                given_none owner client buffer (lookup client n s.manager)
                  (λ h. lookup-same owner client k n s d e h ∙ unknown);
            functions = refl;
          },
        )
  | inr (c, found) ↦
      let c' = watch_read_write (record c { write_queue = c.write_queue ++ buffer ∷ [] }) in
      let (m, added, w) = add-Writes owner k c' s.manager v d in
      rw
        (
          get-lookup owner k s.manager v d,
          found,
          send_lem buffer c (omega (arith, room owner k c d found)),
          added,
        )
        (
          _,
          refl,
          record {
            valid = w.valid;
            entries = λ client n e.
                w.reads client n e
                ∙ given_some owner client buffer (lookup client n s.manager) c
                    (λ h. lookup-same owner client k n s d e h ∙ found);
            functions = refl;
          },
        )
]
