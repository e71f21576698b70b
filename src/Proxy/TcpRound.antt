-- ===== src/Proxy/TcpRound.antt =====
-- A client's packets on their way through the TCP proxy to the target, and back.
use serverlib.Prelude.{
  ℕ, suc, ◌+◌, ◌%◌, ◌^◌, ◌<◌, ◌≡◌, refl, ap, ◌∙◌, inl, inr, List, [], ◌∷◌, ◌++◌, map, arith,
}
use serverlib.Prelude.Int.{pos}
use serverlib.Prelude.Map
use serverlib.Prelude.Map.{Map, same_refl, find-nil, find-assign}
use serverlib.Prelude.Run.{Run, ok, Run-cases, Returns, ◌>>=◌}
use serverlib.Socket.{SocketClientData, IsSocketClientData}
use serverlib.Socket.Order.{client_order}
use serverlib.Framing.{feed, feed_all}
use serverlib.Framing.Rounds.{packet}
use serverlib.Framing.Cut.{stream, join, IsSized, IsBounded}
use serverlib.Proxy.Tcp.{
  Call, client_send, server_send, Proxy, pool_index, on_request, on_reply, content,
  client_data_received, data_received,
}
use serverlib.Proxy.TcpTrip.{wrap, requests-stream, replies-stream}

-- One call for each chunk that arrives from a client, or from the target at a pool client.
pub client_sends : SocketClientData → List (List ℕ) → Proxy → Run Proxy
client_sends client [] p = ok p
client_sends client (chunk ∷ chunks) p =
    client_data_received client chunk p >>= client_sends client chunks

pub target_answers : SocketClientData → List (List ℕ) → Proxy → Run Proxy
target_answers peer [] p = ok p
target_answers peer (chunk ∷ chunks) p = data_received peer chunk p >>= target_answers peer chunks

pub content-nil : (client : SocketClientData) → content client [] ≡ []
unfolding content
content-nil client = rw (content, find-nil {V = List ℕ} client) refl

content-assign :
    (client : SocketClientData) (bytes : List ℕ) (m : Map SocketClientData (List ℕ))
    → content client (Map.assign client bytes m) ≡ bytes
unfolding content
content-assign client bytes m =
    rw (content, find-assign client client bytes m, same_refl client) refl

client_sends-feed_all :
    (client : SocketClientData) (chunks : List (List ℕ)) (p : Proxy) (calls : List Call)
    (left : List ℕ)
    → feed_all (on_request p.concurrency client) p.calls (content client p.requests) chunks
      ≡ ok (calls, left)
    → Returns
        (client_sends client chunks p)
        (λ q. (q.calls ≡ calls) × (content client q.requests ≡ left) × (q.replies ≡ p.replies))
unfolding client_sends client_data_received feed_all
client_sends-feed_all client [] p calls left e = (p, refl, (cc, cc, refl))
client_sends-feed_all client (c ∷ chunks) p calls left e =
    elim (Run-cases
      (feed (on_request p.concurrency client) p.calls (content client p.requests) c)) [
        | inr (f, threw) ↦ absurd (cc (rw threw at e))
        | inl ((calls₁, left₁), ran) ↦
            let p₁ : Proxy = record p {
              requests = Map.assign client left₁ p.requests;
              calls = calls₁;
            } in
            let (q, ran', h) =
              client_sends-feed_all client chunks p₁ calls left
                (rw (content-assign client left₁ p.requests) (rw ran at e)) in
            (q, rw ran ran', h)
      ]

target_answers-feed_all :
    (peer : SocketClientData) (chunks : List (List ℕ)) (p : Proxy) (calls : List Call)
    (left : List ℕ)
    → feed_all on_reply p.calls (content peer p.replies) chunks ≡ ok (calls, left)
    → Returns
        (target_answers peer chunks p)
        (λ q. (q.calls ≡ calls) × (content peer q.replies ≡ left) × (q.requests ≡ p.requests))
unfolding target_answers data_received feed_all
target_answers-feed_all peer [] p calls left e = (p, refl, (cc, cc, refl))
target_answers-feed_all peer (c ∷ chunks) p calls left e =
    elim (Run-cases (feed on_reply p.calls (content peer p.replies) c)) [
      | inr (f, threw) ↦ absurd (cc (rw threw at e))
      | inl ((calls₁, left₁), ran) ↦
          let p₁ : Proxy = record p { replies = Map.assign peer left₁ p.replies; calls = calls₁ } in
          let (q, ran', h) =
            target_answers-feed_all peer chunks p₁ calls left
              (rw (content-assign peer left₁ p.replies) (rw ran at e)) in
          (q, rw ran ran', h)
    ]

pool_index_lem :
    (k n : ℕ) (client : SocketClientData)
    → client.socket ≡ pos n
    → pool_index (suc k) client ≡ ok (n % suc k)
unfolding pool_index
pool_index_lem k n client e = rw e refl

-- A packet for each body, with the client before the body, through one pool client.
abbrev pub forwarded : ℕ → SocketClientData → List (List ℕ) → List Call
forwarded i client bodies = map (λ body. client_send i (packet (wrap client body))) bodies

-- A packet for each body, to the client.
abbrev pub returned : SocketClientData → List (List ℕ) → List Call
returned client bodies = map (λ body. server_send client (packet body)) bodies

-- A client with the descriptor `n` sends packets through a proxy with `k + 1` pool clients, in any
-- chunks, and the target answers each body that it is sent with the same body, in any chunks: each
-- packet goes once to the pool client `n % (k + 1)`, in order, with the client laid out before its
-- body, and then each comes back as one packet to that client; nothing is left over.
pub round_trip :
    (most chunk k n : ℕ) (client peer : SocketClientData) (bodies chunks echoes : List (List ℕ))
    (p : Proxy)
    → IsSocketClientData client
    → client.socket ≡ pos n
    → p.concurrency ≡ suc k
    → content client p.requests ≡ []
    → content peer p.replies ≡ []
    → IsSized most bodies
    → IsBounded chunk chunks
    → IsBounded chunk echoes
    → most + 14 + chunk < 2 ^ 31
    → join chunks ≡ stream bodies
    → join echoes ≡ stream (map (wrap client) bodies)
    → Returns (client_sends client chunks p >>= target_answers peer echoes) (λ q.
      (q.calls ≡ (p.calls ++ forwarded (n % suc k) client bodies) ++ returned client bodies)
      × (content client q.requests ≡ [])
      × (content peer q.replies ≡ []))
round_trip most chunk k n client peer bodies chunks echoes p v d some clean fresh sized bounded
      bounded' fits e e' =
    let (q, ran, (calls, left, replies)) =
      client_sends-feed_all client chunks p (p.calls ++ forwarded (n % suc k) client bodies) [] (
        rw clean (
          requests-stream most chunk p.concurrency (n % suc k) client p.calls bodies chunks
            (rw some (pool_index_lem k n client d)) sized bounded (omega arith) e)) in
    let (r, ran', (calls', left', requests)) =
      target_answers-feed_all peer echoes q (q.calls ++ returned client bodies) [] (
        rw (replies, fresh)
          (replies-stream most chunk client q.calls bodies echoes v sized bounded' fits e')) in
    (r, rw ran ran', (rw (calls', calls) refl, ap (content client) requests ∙ left, left'))
