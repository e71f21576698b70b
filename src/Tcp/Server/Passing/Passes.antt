-- ===== src/Tcp/Server/Passing/Passes.antt =====
-- What one step of an answering server does to the bytes that wait for a client.
use serverlib.Prelude.{
  Bool, true, false, ℕ, ◌≡◌, refl, sym, ap, ◌∙◌, Bool-cases, inl, inr, List, [], ◌∷◌, ◌++◌,
  append-nil, append_assoc, none, some, if◌then◌else◌,
}
use serverlib.Prelude.Int.{ℤ}
use serverlib.Prelude.Run.{Run, Returns, ◌>>=◌}
use serverlib.Prelude.Map.{same}
use serverlib.Socket.{SocketClientData}
use serverlib.Socket.Order.{client_order}
use serverlib.OutputBuffer.{OutputBuffer}
use serverlib.OutputBuffer.Pending.{pending, pending-append}
use serverlib.Tcp.Channels.View.{Descriptor, lookup, get-lookup, add-Writes, remove-Writes}
use serverlib.Tcp.Connection.{Connection, Call}
use serverlib.Tcp.Server.Handled.{IsLive}
use serverlib.Tcp.Server.{
  TcpServer, Event, on_client_disconnected, tell, push_calls, destroyed, remove_client,
  put_connection,
}
use serverlib.Tcp.Server.Given.{lookup-same}
use serverlib.Tcp.Server.Delivery.{owned}

-- The bytes of calls that `Send()` put off for this client.
abbrev pub posted : SocketClientData → List (SocketClientData × OutputBuffer) → List ℕ
posted client functions = pending (owned client functions)

owned-append :
    (client : SocketClientData) (xs ys : List (SocketClientData × OutputBuffer))
    → owned client (xs ++ ys) ≡ owned client xs ++ owned client ys
owned-append client [] ys = refl
owned-append client ((owner, buffer) ∷ xs) ys =
    ap (◌++◌ (if same owner client then buffer ∷ [] else [])) (owned-append client xs ys)
    ∙ sym (append_assoc (if same owner client then buffer ∷ [] else []) _ _)

pub posted-append :
    (client : SocketClientData) (xs ys : List (SocketClientData × OutputBuffer))
    → posted client (xs ++ ys) ≡ posted client xs ++ posted client ys
posted-append client xs ys =
    ap pending (owned-append client xs ys) ∙ pending-append (owned client xs) (owned client ys)

-- If the client is known after a step, it was before; of what its queue held and what was added,
-- `gone` is written, and the rest is queued, in order. `more` calls are put off.
pub record Passes (client : SocketClientData) (n : ℕ) (gone added : List ℕ)
    (more : List (SocketClientData × OutputBuffer)) (s s' : TcpServer) : Type 0 where
  pub valid : IsLive s'
  pub functions : s'.functions ≡ s.functions ++ more
  pub queue :
      (c' : Connection)
      → lookup client n s'.manager ≡ some c'
      → (c : Connection) × (lookup client n s.manager ≡ some c)
        × (gone ++ pending c'.write_queue ≡ pending c.write_queue ++ added)

-- Nothing is queued, written or put off.
pub quiet :
    (client : SocketClientData) (n : ℕ) (s s' : TcpServer)
    → IsLive s'
    → s'.manager ≡ s.manager
    → s'.functions ≡ s.functions
    → Passes client n [] [] [] s s'
quiet client n s s' v m f = record {
  valid = v;
  functions = f ∙ sym (append-nil s.functions);
  queue = λ c' found.
      (c', ap (lookup client n) (sym m) ∙ found, sym (append-nil (pending c'.write_queue)));
}

pub middle :
    (g g' q q' q'' a a' : List ℕ)
    → g ++ q' ≡ q ++ a
    → g' ++ q'' ≡ q' ++ a'
    → (g ++ g') ++ q'' ≡ q ++ (a ++ a')
middle g g' q q' q'' a a' h h' =
    append_assoc g g' q''
    ∙ ap (◌++◌ g) h'
    ∙ sym (append_assoc g q' a')
    ∙ ap (λ (xs : List ℕ). xs ++ a') h
    ∙ append_assoc q a a'

pub Passes-then :
    (client : SocketClientData) (n : ℕ) (g g' a a' : List ℕ)
    (m m' : List (SocketClientData × OutputBuffer)) (s t u : TcpServer)
    → Passes client n g a m s t
    → Passes client n g' a' m' t u
    → Passes client n (g ++ g') (a ++ a') (m ++ m') s u
Passes-then client n g g' a a' m m' s t u p q = record {
  valid = q.valid;
  functions =
      q.functions
      ∙ ap (λ (xs : List (SocketClientData × OutputBuffer)). xs ++ m') p.functions
      ∙ append_assoc s.functions m m';
  queue = λ c'' found.
      let (c', found', h') = q.queue c'' found in
      let (c, found'', h) = p.queue c' found' in
      (
        c,
        found'',
        middle g g' (pending c.write_queue) (pending c'.write_queue) (pending c''.write_queue) a a'
            h h',
      );
}

pub and_then :
    (client : SocketClientData) (n : ℕ) (g g' a a' : List ℕ)
    (m m' : List (SocketClientData × OutputBuffer)) (s : TcpServer) (r : Run TcpServer)
    (f : TcpServer → Run TcpServer)
    → Returns r (Passes client n g a m s)
    → ((t : TcpServer) → IsLive t → Returns (f t) (Passes client n g' a' m' t))
    → Returns (r >>= f) (Passes client n (g ++ g') (a ++ a') (m ++ m') s)
and_then client n g g' a a' m m' s r f (t, ran, p) next =
    let (u, ran', q) = next t p.valid in
    (u, rw ran ran', Passes-then client n g g' a a' m m' s t u p q)

-- The connection of `owner` is destroyed: if that is the client, nothing is left to account for.
pub remove_client-Passes :
    (client owner : SocketClientData) (n k : ℕ) (added : List ℕ) (s : TcpServer)
    → IsLive s
    → Descriptor client n
    → Descriptor owner k
    → Returns
        (remove_client owner s)
        (Passes client n [] (if same owner client then added else []) [] s)
unfolding remove_client
remove_client-Passes client owner n k added s v d e =
    let (m, ran, w) = remove-Writes owner k s.manager v.0 e in
    (
      record s { manager = m; log = destroyed (lookup owner k s.manager) s.log },
      rw (get-lookup owner k s.manager v.0 e, ran),
      record {
        valid = (w.valid, v.1);
        functions = sym (append-nil s.functions);
        queue = λ c' found. elim (Bool-cases (same owner client)) [
          | inl one ↦
              let lost : none ≡ some c' = sym (w.reads client n d ∙ rw one) ∙ found in absurd (cc)
          | inr two ↦ rw two (
            c',
            sym (w.reads client n d ∙ rw two) ∙ found,
            sym (append-nil (pending c'.write_queue)),
          )
        ];
      },
    )

-- Nothing is nothing, whichever way the test goes.
pub unmoved :
    (client : SocketClientData) (n : ℕ) (b c : Bool) (m : List (SocketClientData × OutputBuffer))
    (s : TcpServer) {r : Run TcpServer}
    → Returns r (Passes client n (if b then [] else []) (if c then [] else []) m s)
    → Returns r (Passes client n [] [] m s)
unmoved client n true true m s p = p
unmoved client n true false m s p = p
unmoved client n false true m s p = p
unmoved client n false false m s p = p

-- The log is not part of it.
pub told :
    (client : SocketClientData) (n : ℕ) (g a : List ℕ) (m : List (SocketClientData × OutputBuffer))
    (event : Event) (s : TcpServer) {r : Run TcpServer}
    → Returns r (Passes client n g a m (tell event s))
    → Returns r (Passes client n g a m s)
told client n g a m event s (t, ran, p) =
    (t, ran, record { valid = p.valid; functions = p.functions; queue = p.queue })

pub let_go :
    (client owner : SocketClientData) (n k : ℕ) (added : List ℕ) (error : ℤ) (s : TcpServer)
    → IsLive s
    → Descriptor client n
    → Descriptor owner k
    → Returns
        (remove_client owner (tell (on_client_disconnected s.data_handle owner error) s))
        (Passes client n [] (if same owner client then added else []) [] s)
let_go client owner n k added error s v d e =
    told client n [] (if same owner client then added else []) []
      (on_client_disconnected s.data_handle owner error) s
      (remove_client-Passes client owner n k added
        (tell (on_client_disconnected s.data_handle owner error) s) v d e)

-- The connection of `owner` is changed, and its queue from `q` as given.
pub put_connection-Passes :
    (client owner : SocketClientData) (n k : ℕ) (c c' : Connection) (calls : List Call)
    (gone added : List ℕ) (s : TcpServer)
    → IsLive s
    → Descriptor client n
    → Descriptor owner k
    → lookup owner k s.manager ≡ some c
    → gone ++ pending c'.write_queue ≡ pending c.write_queue ++ added
    → Returns (put_connection owner c' calls s) (
        Passes client n
          (if same owner client then gone else [])
          (if same owner client then added else [])
          []
          s)
unfolding put_connection
put_connection-Passes client owner n k c c' calls gone added s v d e known h =
    let (m, ran, w) = add-Writes owner k c' s.manager v.0 e in
    (
      record s { manager = m; log = push_calls calls s.log },
      rw ran,
      record {
        valid = (w.valid, v.1);
        functions = sym (append-nil s.functions);
        queue = λ c'' found. elim (Bool-cases (same owner client)) [
          | inl one ↦
              let e' : some c' ≡ some c'' = sym (w.reads client n d ∙ rw one) ∙ found in
              let same_conn : c'' ≡ c' = cc in
              rw one (c, lookup-same owner client k n s e d one ∙ known, rw same_conn h)
          | inr two ↦ rw two (
            c'',
            sym (w.reads client n d ∙ rw two) ∙ found,
            sym (append-nil (pending c''.write_queue)),
          )
        ];
      },
    )
