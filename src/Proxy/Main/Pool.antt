-- ===== src/Proxy/Main/Pool.antt =====
-- What the calls of the proxy leave with its server and the clients of its pool.
use serverlib.Prelude.{
  ℕ, zero, suc, ◌<◌, ◌≡◌, refl, sym, ap, ◌∙◌, Bool, true, false, List, [], ◌∷◌, ◌++◌, Option, none,
  some, get_elem?, set, length, ℕ_discrete, length-set, get_elem?-set_self, get_elem?-set_ne,
  take-length, append-nil, append_assoc, ◌==◌, if◌then◌else◌, arith,
}
use serverlib.Prelude.Int.{pos}
use serverlib.Prelude.Run.{Returns}
use serverlib.OutputBuffer.{OutputBuffer, new_output_buffer}
use serverlib.Tcp.Server
use serverlib.Tcp.Server.{TcpServer}
use serverlib.Socket.{SocketClientData}
use serverlib.Tcp.Client
use serverlib.Tcp.Client.{TcpClient}
use serverlib.Proxy.Tcp.{Call, client_send, server_send}
use serverlib.Proxy.Main.{Running, send_by, make_calls}

abbrev pub functions_of : Option TcpClient → List OutputBuffer
functions_of none = []
functions_of (some c) = c.functions

-- The sends that a client of the pool has put off.
abbrev pub put_off : ℕ → List TcpClient → List OutputBuffer
put_off i pool = functions_of (get_elem? pool i)

-- A buffer of these bytes, none of which is written.
abbrev pub whole : List ℕ → OutputBuffer
whole bytes = record { data_bytes = bytes; len = length bytes; position = 0 }

-- What is sent through a client of the pool.
abbrev pub sends_by : ℕ → List Call → List OutputBuffer
sends_by i [] = []
sends_by i (client_send j bytes ∷ calls) =
    let rest = sends_by i calls in if i == j then whole bytes ∷ rest else rest
sends_by i (server_send client bytes ∷ calls) = sends_by i calls

-- No call is of a client that the pool does not have.
abbrev pub AllWithin : ℕ → List Call → Type 0
AllWithin k [] = Unit {0}
AllWithin k (client_send j bytes ∷ calls) = (j < k) × AllWithin k calls
AllWithin k (server_send client bytes ∷ calls) = AllWithin k calls

-- What is sent to clients of the server.
abbrev pub replies_in : List Call → List (SocketClientData × OutputBuffer)
replies_in [] = []
replies_in (client_send j bytes ∷ calls) = replies_in calls
replies_in (server_send client bytes ∷ calls) = (client, whole bytes) ∷ replies_in calls

-- A pool after the calls.
record Grows (pool pool' : List TcpClient) (calls : List Call) : Type 0 where
  as_many : length pool' ≡ length pool
  adds : (i : ℕ) → put_off i pool' ≡ put_off i pool ++ sends_by i calls

-- A proxy after the calls.
pub record Extends (r r' : Running) (calls : List Call) : Type 0 where
  pub as_many : length r'.pool ≡ length r.pool
  pub adds : (i : ℕ) → put_off i r'.pool ≡ put_off i r.pool ++ sends_by i calls
  pub replies : r'.server.functions ≡ r.server.functions ++ replies_in calls

get_elem?-within :
    (i : ℕ) (pool : List TcpClient)
    → i < length pool
    → (c : TcpClient) × (get_elem? pool i ≡ some c)
get_elem?-within i [] h = absurd (omega arith)
get_elem?-within zero (c ∷ pool) h = (c, refl)
get_elem?-within (suc i) (c ∷ pool) h = get_elem?-within i pool (omega arith)

put_off-set :
    (i j : ℕ) (pool : List TcpClient) (c c' : TcpClient) (buffer : OutputBuffer)
    → j < length pool
    → get_elem? pool j ≡ some c
    → c'.functions ≡ c.functions ++ buffer ∷ []
    → put_off i (set pool j c') ≡ put_off i pool ++ (if i == j then buffer ∷ [] else [])
put_off-set i j pool c c' buffer h e adds = elim (ℕ_discrete i j) [
  | yes same ↦
      let here : (i == j) ≡ true = ground (arith, same) in
      rw (here, same, get_elem?-set_self pool j c' h, e) adds
  | no other ↦
      let elsewhere : (i == j) ≡ false = ground (arith, other) in
      rw (elsewhere, get_elem?-set_ne pool {i = j} {j = i} c' (λ same. other (sym same)))
        (sym (append-nil (put_off i pool)))
]

post_send_lem :
    (bytes : List ℕ) (c : TcpClient)
    → Returns
        (Client.post_send bytes (pos (length bytes)) c)
        (λ r. r.0.functions ≡ c.functions ++ whole bytes ∷ [])
unfolding Client.post_send new_output_buffer
post_send_lem bytes c = (_, refl, rw (take-length bytes) refl)

if-append :
    (b : Bool) (x : OutputBuffer) (xs : List OutputBuffer)
    → (if b then x ∷ [] else []) ++ xs ≡ (if b then x ∷ xs else xs)
if-append true x xs = refl
if-append false x xs = refl

sends_by-cons :
    (i j : ℕ) (bytes : List ℕ) (calls : List Call)
    → sends_by i (client_send j bytes ∷ []) ++ sends_by i calls
      ≡ sends_by i (client_send j bytes ∷ calls)
sends_by-cons i j bytes calls = if-append (i == j) (whole bytes) (sends_by i calls)

send_by-Grows :
    (j : ℕ) (bytes : List ℕ) (pool : List TcpClient)
    → j < length pool
    → Returns (send_by j bytes pool) (λ pool'. Grows pool pool' (client_send j bytes ∷ []))
unfolding send_by
send_by-Grows j bytes pool h =
    let (c, found) = get_elem?-within j pool h in
    let ((c', sent), ran, adds) = post_send_lem bytes c in
    (
      set pool j c',
      rw (found, send_by, ran) refl,
      record {
        as_many = length-set pool j c';
        adds = λ i. put_off-set i j pool c c' (whole bytes) h found adds;
      },
    )

reply_lem :
    (client : SocketClientData) (bytes : List ℕ) (s : TcpServer)
    → Returns
        (Server.post_send client bytes (pos (length bytes)) s)
        (λ r. r.0.functions ≡ s.functions ++ (client, whole bytes) ∷ [])
unfolding Server.post_send new_output_buffer
reply_lem client bytes s = (_, refl, rw (take-length bytes) refl)

-- Each client of the pool, and the server, has put off what it had, and then what is sent through it,
-- in order.
pub make_calls-Extends :
    (calls : List Call) (r : Running)
    → AllWithin (length r.pool) calls
    → Returns (make_calls calls r) (λ r'. Extends r r' calls)
unfolding make_calls
make_calls-Extends [] r h = (
  r,
  refl,
  record {
    as_many = refl;
    adds = λ i. sym (append-nil (put_off i r.pool));
    replies = sym (append-nil r.server.functions);
  },
)
make_calls-Extends (server_send client bytes ∷ calls) r h =
    let ((s, sent), ran, g) = reply_lem client bytes r.server in
    let (r', ran', e) = make_calls-Extends calls (record r { server = s }) h in
    (
      r',
      rw ran ran',
      record {
        as_many = e.as_many;
        adds = e.adds;
        replies =
            e.replies
            ∙ ap (λ xs. xs ++ replies_in calls) g
            ∙ append_assoc r.server.functions ((client, whole bytes) ∷ []) (replies_in calls);
      },
    )
make_calls-Extends (client_send j bytes ∷ calls) r h =
    let (pool, ran, g) = send_by-Grows j bytes r.pool h.0 in
    let (r', ran', e) = make_calls-Extends calls (record r { pool = pool }) (rw g.as_many h.1) in
    (
      r',
      rw ran ran',
      record {
        as_many = e.as_many ∙ g.as_many;
        adds = λ i.
            e.adds i
            ∙ ap (λ buffers. buffers ++ sends_by i calls) (g.adds i)
            ∙ append_assoc (put_off i r.pool) (sends_by i (client_send j bytes ∷ []))
                (sends_by i calls)
            ∙ ap (λ buffers. put_off i r.pool ++ buffers) (sends_by-cons i j bytes calls);
        replies = e.replies;
      },
    )
