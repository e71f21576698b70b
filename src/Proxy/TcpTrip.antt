-- ===== src/Proxy/TcpTrip.antt =====
-- What the TCP proxy does with the packets of a client, and with the target's answers.
use serverlib.Prelude.{
  ℕ, ◌+◌, ◌-◌, ◌^◌, ◌<◌, ◌≡◌, refl, sym, ap, ◌∙◌, List, [], ◌∷◌, ◌++◌, map, length, drop,
  length-append, append_assoc, append-nil, lt→leb_false, arith,
}
use serverlib.Prelude.Words.{bytes32, length-bytes32}
use serverlib.Prelude.Run.{ok}
use serverlib.Socket.{SocketClientData, IsSocketClientData}
use serverlib.Socket.Order.{client_order}
use serverlib.Framing.{feed_all}
use serverlib.Framing.Rounds.{packet, length-packet, drop-append, take-append}
use serverlib.Framing.Cut.{stream, join, IsSized, IsBounded}
use serverlib.Framing.Stream.{puts_by, feed_all-stream}
use serverlib.OutputBuffer.Pending.{drop-drop}
use serverlib.Proxy.Wire.{client_bytes, read_client, length-client_bytes, read_client-client_bytes}
use serverlib.Proxy.Tcp.{Call, client_send, server_send, pool_index, on_request, on_reply}
use serverlib.Proxy.TcpSides.{puts_by-map, forward, forwards, answered, replies}

-- The packets that come out are these, in order.
abbrev pub wrap : SocketClientData → List ℕ → List ℕ
wrap client body = client_bytes client ++ body

forward-packet :
    (i : ℕ) (client : SocketClientData) (body : List ℕ)
    → forward i client (packet body) ≡ client_send i (packet (wrap client body))
forward-packet i client body =
    rw (sizes, drop-append 4 (bytes32 (length body)) body (length-bytes32 (length body))) refl
  where
    sizes : length (packet body) + 6 ≡ length (wrap client body)
    sizes = omega (
      arith,
      length-packet body,
      length-append (client_bytes client) body,
      length-client_bytes client,
    )

map_ext {ℓ κ} :
    {A : Type ℓ} {B : Type κ} (f g : A → B)
    → ((a : A) → f a ≡ g a)
    → (xs : List A) → map f xs ≡ map g xs
map_ext f g h [] = refl
map_ext f g h (x ∷ xs) = rw (h x, map_ext f g h xs) refl

-- The loop over a client's requests.
pub requests-stream :
    (most chunk concurrency i : ℕ) (client : SocketClientData) (calls : List Call)
    (bodies chunks : List (List ℕ))
    → pool_index concurrency client ≡ ok i
    → IsSized most bodies
    → IsBounded chunk chunks
    → most + 4 + chunk < 2 ^ 31
    → join chunks ≡ stream bodies
    → feed_all (on_request concurrency client) calls [] chunks
      ≡ ok (calls ++ map (λ body. client_send i (packet (wrap client body))) bodies, [])
requests-stream most chunk concurrency i client calls bodies chunks at_i sized bounded fits e =
    feed_all-stream (on_request concurrency client)
      (λ calls bytes. calls ++ forward i client bytes ∷ []) (λ calls. Unit {0})
      (λ calls bytes u. tt)
      (λ calls buf n u e h. forwards concurrency i client calls buf n at_i e h) most chunk calls
      bodies chunks tt sized bounded fits e
    ∙ ap (λ (calls : List Call). ok (calls, []))
        (puts_by-map (forward i client) calls bodies
          ∙ ap (◌++◌ calls) (map_ext _ _ (forward-packet i client) bodies))

answered-packet :
    (client : SocketClientData) (body : List ℕ) (calls : List Call)
    → IsSocketClientData client
    → 0 < length body
    → length body + 10 < 2 ^ 32
    → answered calls (packet (wrap client body)) ≡ calls ++ server_send client (packet body) ∷ []
answered-packet client body calls v long fits =
    rw
      (
        lt→leb_false (length (packet (wrap client body))) 14 (omega (arith, sizes)),
        sizes,
        back,
        ← drop-drop 4 10 (packet (wrap client body)),
        inner,
        drop-append 10 (client_bytes client) body (length-client_bytes client),
        take-append 10 (client_bytes client) body (length-client_bytes client),
        whole,
      )
      refl
  where
    sizes : length (packet (wrap client body)) ≡ length body + 14
    sizes = omega (
      arith,
      length-packet (wrap client body),
      length-append (client_bytes client) body,
      length-client_bytes client,
    )

    back : length body + 14 - 14 ≡ length body
    back = omega arith

    inner : drop 4 (packet (wrap client body)) ≡ wrap client body
    inner = drop-append 4 (bytes32 (length (wrap client body))) _ (length-bytes32 _)

    whole : read_client (client_bytes client) ≡ client
    whole =
        ap read_client (sym (append-nil (client_bytes client)))
        ∙ read_client-client_bytes client [] v

wrap-IsSized :
    (most : ℕ) (client : SocketClientData) (bodies : List (List ℕ))
    → IsSized most bodies
    → IsSized (most + 10) (map (wrap client) bodies)
wrap-IsSized most client [] sized = tt
wrap-IsSized most client (body ∷ bodies) sized =
    (omega (arith, size), omega (arith, size), wrap-IsSized most client bodies sized.2)
  where
    size : length (wrap client body) ≡ length body + 10
    size = omega (arith, length-append (client_bytes client) body, length-client_bytes client)

puts_by-answered :
    (most : ℕ) (client : SocketClientData) (calls : List Call) (bodies : List (List ℕ))
    → IsSocketClientData client
    → IsSized most bodies
    → most + 10 < 2 ^ 32
    → puts_by answered calls (map (wrap client) bodies)
      ≡ calls ++ map (λ body. server_send client (packet body)) bodies
puts_by-answered most client calls [] v sized fits = sym (append-nil calls)
puts_by-answered most client calls (body ∷ bodies) v sized fits =
    ap (λ (calls : List Call). puts_by answered calls (map (wrap client) bodies))
      (answered-packet client body calls v sized.0 (omega arith))
    ∙ puts_by-answered most client (calls ++ server_send client (packet body) ∷ []) bodies v sized.2
        fits
    ∙ append_assoc calls (server_send client (packet body) ∷ []) _

pub replies-stream :
    (most chunk : ℕ) (client : SocketClientData) (calls : List Call) (bodies chunks : List (List ℕ))
    → IsSocketClientData client
    → IsSized most bodies
    → IsBounded chunk chunks
    → most + 14 + chunk < 2 ^ 31
    → join chunks ≡ stream (map (wrap client) bodies)
    → feed_all on_reply calls [] chunks
      ≡ ok (calls ++ map (λ body. server_send client (packet body)) bodies, [])
replies-stream most chunk client calls bodies chunks v sized bounded fits e =
    feed_all-stream on_reply answered (λ calls. Unit {0}) (λ calls bytes u. tt)
      (λ calls buf n u e h. replies calls buf n e h) (most + 10) chunk calls
      (map (wrap client) bodies) chunks tt (wrap-IsSized most client bodies sized) bounded
      (omega arith) e
    ∙ ap (λ (calls : List Call). ok (calls, []))
        (puts_by-answered most client calls bodies v sized (omega arith))
