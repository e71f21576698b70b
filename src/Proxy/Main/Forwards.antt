-- ===== src/Proxy/Main/Forwards.antt =====
-- From the command line of the TCP proxy to what its pool is given to send to the target.
use serverlib.Prelude.{
  ℕ, zero, suc, ◌+◌, ◌%◌, ◌^◌, ◌<◌, ◌≤◌, ◌≡◌, refl, ap, ◌∙◌, List, [], ◌∷◌, ◌++◌, some, inl, inr,
  map, length, append-nil, Bool-cases, ◌==◌, if◌then◌else◌, arith,
}
use serverlib.Prelude.Int.{ℤ, pos}
use serverlib.Prelude.Run.{Run, ok, Returns, ◌>>=◌}
use serverlib.Socket.{SocketClientData, IsSocketClientData}
use serverlib.Socket.Order.{client_order}
use serverlib.Framing.Rounds.{packet}
use serverlib.Framing.Cut.{stream, join, IsSized, IsBounded}
use serverlib.Tcp.Server
use serverlib.Tcp.Server.{new_tcp_server}
use serverlib.Tcp.Client
use serverlib.Tcp.Client.{TcpClient}
use serverlib.Proxy.Tcp.{Call}
use serverlib.Proxy.TcpTrip.{wrap}
use serverlib.Proxy.TcpRound.{
  client_sends, target_answers, content-nil, forwarded, returned, round_trip,
}
use serverlib.Proxy.Main.{
  defaults, parse, init_client, init_pool, new_pool, Options, Running, set_up, main, make_calls,
}
use serverlib.Proxy.Main.Settings.{
  Setting, rendered, applied, AllPlain, concurrency_is, server_is, target_is, parse-settings,
}
use serverlib.Proxy.Main.Pool.{put_off, whole, sends_by, replies_in, AllWithin, make_calls-Extends}

-- A new pool is as long as it is asked to be, and has put nothing off.
init_pool_lem :
    (k i : ℕ) → (length (init_pool k i) ≡ k) × ((j : ℕ) → put_off j (init_pool k i) ≡ [])
unfolding init_pool init_client Client.set_data_handle Client.new_tcp_client
init_pool_lem zero i = (refl, λ j. refl)
init_pool_lem (suc k) i =
    let (as_many, none_yet) = init_pool_lem k (i + 1) in
    (
      ap suc as_many,
      λ j. elim j as (λ j. put_off j (init_pool (suc k) i) ≡ []) [
        | zero ↦ refl
        | suc j ↦ none_yet j
      ],
    )

module _ (m : ℕ) (client : SocketClientData) where
  sends_by-returned : (i : ℕ) (bodies : List (List ℕ)) → sends_by i (returned client bodies) ≡ []
  sends_by-returned i [] = refl
  sends_by-returned i (body ∷ bodies) = sends_by-returned i bodies

  -- The forwarded packets are sent by one client, and the answers by none.
  sends_by-forwarded :
      (i : ℕ) (bodies : List (List ℕ)) (calls : List Call)
      → sends_by i (forwarded m client bodies ++ calls)
        ≡ (if i == m then map (λ body. whole (packet (wrap client body))) bodies else [])
          ++ sends_by i calls
  sends_by-forwarded i [] calls = elim (Bool-cases (i == m)) [
    | inl e ↦ rw e refl
    | inr e ↦ rw e refl
  ]
  sends_by-forwarded i (body ∷ bodies) calls =
      let rest = sends_by-forwarded i bodies calls in
      elim (Bool-cases (i == m)) [
        | inl e ↦ rw e (ap (λ buffers. whole (packet (wrap client body)) ∷ buffers) (rw e at rest))
        | inr e ↦ rw e (rw e at rest)
      ]

  -- The answers are sent by the server, and the forwarded packets not.
  replies_in-returned :
      (bodies : List (List ℕ))
      → replies_in (returned client bodies) ≡ map (λ body. (client, whole (packet body))) bodies
  replies_in-returned [] = refl
  replies_in-returned (body ∷ bodies) =
      ap (λ rest. (client, whole (packet body)) ∷ rest) (replies_in-returned bodies)

  replies_in-forwarded :
      (bodies : List (List ℕ)) (calls : List Call)
      → replies_in (forwarded m client bodies ++ calls) ≡ replies_in calls
  replies_in-forwarded [] calls = refl
  replies_in-forwarded (body ∷ bodies) calls = replies_in-forwarded bodies calls

  AllWithin-returned : (k : ℕ) (bodies : List (List ℕ)) → AllWithin k (returned client bodies)
  AllWithin-returned k [] = tt
  AllWithin-returned k (body ∷ bodies) = AllWithin-returned k bodies

  AllWithin-forwarded :
      (k : ℕ) (bodies : List (List ℕ)) (calls : List Call)
      → m < k
      → AllWithin k calls
      → AllWithin k (forwarded m client bodies ++ calls)
  AllWithin-forwarded k [] calls h h' = h'
  AllWithin-forwarded k (body ∷ bodies) calls h h' = (h, AllWithin-forwarded k bodies calls h h')

rendered-length : (settings : List Setting) → 0 < length settings → 2 ≤ length (rendered settings)
rendered-length [] given = absurd (omega arith)
rendered-length (concurrency_is n ∷ settings) given = omega arith
rendered-length (server_is host port ∷ settings) given = omega arith
rendered-length (target_is host port ∷ settings) given = omega arith

main-parsed :
    (resolve : List ℕ → ℕ) (k : ℕ) (args : List (List ℕ)) (o : Options) (fd bound : ℤ)
    → 2 ≤ length args
    → parse args defaults ≡ ok o
    → o.concurrency ≡ pos k
    → main resolve args fd bound ≡ ok (some (set_up resolve o (k, init_pool k 0) fd bound))
unfolding main new_pool
main-parsed resolve k [] o fd bound given read e = absurd (omega arith)
main-parsed resolve k (arg ∷ []) o fd bound given read e = absurd (omega arith)
main-parsed resolve k (arg ∷ (next ∷ args)) o fd bound given read e = rw (read, e) refl

-- What becomes of the packets of a client: the proxy, started, is sent chunks by the client and the
-- target's answers, and its calls reach its pool and its server.
abbrev pub conversation :
    SocketClientData → SocketClientData → List (List ℕ) → List (List ℕ) → Running → Run Running
conversation client peer chunks echoes running = do
  p ← client_sends client chunks running.proxy >>= target_answers peer echoes
  make_calls p.calls (record running { proxy = record p { calls = [] } })

-- From the command line to what waits to be sent: if the proxy is started with plain settings, one or
-- more, which ask for `k + 1` pool clients, and `bind` succeeds, and then a client with the descriptor
-- `n` sends packets in any chunks, and the target answers each body with the same body in any chunks:
-- the pool has `k + 1` clients, of which client `n % (k + 1)` has put off a buffer for each packet,
-- in order, with the client laid out before its body, and no other has put off any; and the server has
-- put off a buffer for each packet, in order, to the client.
pub conversation-put_off :
    (resolve : List ℕ → ℕ) (most chunk k n : ℕ) (settings : List Setting) (fd : ℤ)
    (client peer : SocketClientData) (bodies chunks echoes : List (List ℕ))
    → AllPlain settings
    → 0 < length settings
    → (applied settings defaults).concurrency ≡ pos (suc k)
    → IsSocketClientData client
    → client.socket ≡ pos n
    → IsSized most bodies
    → IsBounded chunk chunks
    → IsBounded chunk echoes
    → most + 14 + chunk < 2 ^ 31
    → join chunks ≡ stream bodies
    → join echoes ≡ stream (map (wrap client) bodies)
    → let running =
        set_up resolve (applied settings defaults) (suc k, init_pool (suc k) 0) fd (pos 0) in
      (main resolve (rendered settings) fd (pos 0) ≡ ok (some running))
      × Returns (conversation client peer chunks echoes running) (λ r.
        (length r.pool ≡ suc k)
        × ((i : ℕ)
            → put_off i r.pool ≡ (
                if i == n % suc k
                then map (λ body. whole (packet (wrap client body))) bodies
                else []))
        × (r.server.functions ≡ map (λ body. (client, whole (packet body))) bodies))
unfolding Server.start Server.set_data_handle new_tcp_server
conversation-put_off resolve most chunk k n settings fd client peer bodies chunks echoes plain given
      e v d sized bounded bounded' fits joined joined' =
    let o = applied settings defaults in
    let m = n % suc k in
    let running = set_up resolve o (suc k, init_pool (suc k) 0) fd (pos 0) in
    let (as_many, none_yet) = init_pool_lem (suc k) 0 in
    let (p, ran, (calls, left, left')) =
      round_trip most chunk k n client peer bodies chunks echoes running.proxy v d refl
        (content-nil client) (content-nil peer) sized bounded bounded' fits joined joined' in
    let within =
      AllWithin-forwarded m client (suc k) bodies (returned client bodies) (omega arith)
        (AllWithin-returned m client (suc k) bodies) in
    let (r, ran', extends) =
      make_calls-Extends p.calls (record running { proxy = record p { calls = [] } })
        (rw (calls, as_many) within) in
    (
      main-parsed resolve (suc k) (rendered settings) o fd (pos 0) (rendered-length settings given)
          (parse-settings settings defaults plain) e,
      (
        r,
        rw ran ran',
        (
          extends.as_many ∙ as_many,
          λ i.
              extends.adds i
              ∙ rw
                  (
                    none_yet i,
                    calls,
                    sends_by-forwarded m client i bodies (returned client bodies),
                    sends_by-returned m client i bodies,
                  )
                  (append-nil _),
          extends.replies
              ∙ ap replies_in calls
              ∙ replies_in-forwarded m client bodies (returned client bodies)
              ∙ replies_in-returned m client bodies,
        ),
      ),
    )
