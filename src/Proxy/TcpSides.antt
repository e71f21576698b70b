-- ===== src/Proxy/TcpSides.antt =====
-- The two content managers of test/tcpproxy.cpp, each on a stream of packets.
use serverlib.Prelude.{
  ℕ, zero, suc, ◌+◌, ◌-◌, ◌%◌, ◌^◌, ◌<◌, ◌≤◌, ◌≡◌, refl, sym, ap, ◌∙◌, true, inl, inr, List, [],
  ◌∷◌, ◌++◌, map, length, take, drop, length-take, length-drop, append_assoc, append-nil,
  lt→leb_false, le→leb, leb, dec_le, if◌then◌else◌, arith,
}
use serverlib.Prelude.Int.{pos, leb_ℤ}
use serverlib.Prelude.Words.{bytes32, word32, add_int, sub_int}
use serverlib.Prelude.Run.{ok}
use serverlib.Socket.{SocketClientData}
use serverlib.Socket.Order.{client_order}
use serverlib.Framing.{pkt_len}
use serverlib.Framing.Rounds.{packet, pkt_len-cases}
use serverlib.Framing.Stream.{puts_by}
use serverlib.OutputBuffer.Pending.{drop-drop}
use serverlib.Proxy.Wire.{client_bytes, read_client, copied_lem}
use serverlib.Proxy.Tcp.{
  Call, client_send, server_send, pool_index, pool_send, handle_request, handle_reply, on_request,
  on_reply,
}

take_nil {ℓ} : {A : Type ℓ} (n : ℕ) → take {A = A} n [] ≡ []
take_nil zero = refl
take_nil (suc n) = refl

drop-take {ℓ} : {A : Type ℓ} (m n : ℕ) (xs : List A) → drop m (take (n + m) xs) ≡ take n (drop m xs)
drop-take zero n xs = ground arith
drop-take (suc m) n [] = ap (drop (suc m)) (take_nil (n + suc m)) ∙ sym (take_nil n)
drop-take (suc m) n (x ∷ xs) =
    let e : n + suc m ≡ suc (n + m) = omega arith in rw e (drop-take m n xs)

-- Where each packet adds one call, the packets of a stream add one each, in order.
pub puts_by-map :
    (call : List ℕ → Call) (calls : List Call) (bodies : List (List ℕ))
    → puts_by (λ calls bytes. calls ++ call bytes ∷ []) calls bodies
      ≡ calls ++ map (λ body. call (packet body)) bodies
puts_by-map call calls [] = sym (append-nil calls)
puts_by-map call calls (body ∷ bodies) =
    puts_by-map call (calls ++ call (packet body) ∷ []) bodies
    ∙ append_assoc calls (call (packet body) ∷ []) _

word32-add_ten : (n : ℕ) → n < 2 ^ 31 → word32 (add_int (pos n) (pos 10)) ≡ n + 10
unfolding add_int
word32-add_ten n h = ground arith

sub_ten : (n : ℕ) → 10 ≤ n → n < 2 ^ 31 → sub_int (pos n) (pos 10) ≡ pos (n - 10)
unfolding sub_int
sub_ten n h k = ground arith

-- A length that the loop reads is an `int`.
pkt_len-lt : (buf : List ℕ) (n : ℕ) → pkt_len buf ≡ pos n → n < 2 ^ 31
pkt_len-lt buf n e = elim (pkt_len-cases buf) [
  | inl low ↦
      let h : leb_ℤ (pos n) (pos 0) ≡ true = ap (λ a. leb_ℤ a (pos 0)) (sym e) ∙ low in ground arith
  | inr (m, e', p, q) ↦ let h : pos n ≡ pos m = sym e ∙ e' in ground arith
]

-- What the proxy sends for a packet: one packet more, whose body starts with the client.
abbrev pub forward : ℕ → SocketClientData → List ℕ → Call
forward i client bytes =
    client_send i (bytes32 (length bytes + 6) ++ (client_bytes client ++ drop 4 bytes))

pub forwards :
    (concurrency i : ℕ) (client : SocketClientData) (calls : List Call) (buf : List ℕ) (n : ℕ)
    → pool_index concurrency client ≡ ok i
    → pkt_len buf ≡ pos n
    → n + 4 ≤ length buf
    → on_request concurrency client calls buf (pos (n + 4))
      ≡ ok (calls ++ forward i client (take (n + 4) buf) ∷ [])
unfolding handle_request pool_send
forwards concurrency i client calls buf n at_i e h =
    rw
      (
        e,
        copied_lem (drop 4 buf) n (omega (arith, length-drop 4 buf)),
        at_i,
        word32-add_ten n (pkt_len-lt buf n e),
        drop-take 4 n buf,
        size,
      )
      refl
  where
    size : length (take (n + 4) buf) + 6 ≡ n + 10
    size = omega (arith, length-take (n + 4) buf)

-- What the proxy sends for an answer whose body starts with a client: one packet, to that client.
abbrev answer : List ℕ → Call
answer bytes =
    server_send (read_client (take 10 (drop 4 bytes)))
      (bytes32 (length bytes - 14) ++ drop 14 bytes)

take-take {ℓ} : {A : Type ℓ} (m k : ℕ) (xs : List A) → take m (take (m + k) xs) ≡ take m xs
take-take zero k xs = ground arith
take-take (suc m) k [] = ap (take (suc m)) (take_nil (suc m + k))
take-take (suc m) k (x ∷ xs) =
    let e : suc m + k ≡ suc (m + k) = omega arith in rw e (ap (◌∷◌ x) (take-take m k xs))

-- The parts of an answer with `k` bytes behind the client.
head_of : (k : ℕ) (buf : List ℕ) → take 10 (drop 4 (take (k + 14) buf)) ≡ take 10 (drop 4 buf)
head_of k buf =
    let e : k + 14 ≡ 10 + k + 4 = omega arith in
    rw (e, drop-take 4 (10 + k) buf) (take-take 10 k (drop 4 buf))

answers :
    (calls : List Call) (buf : List ℕ) (k : ℕ)
    → 0 < k
    → pkt_len buf ≡ pos (k + 10)
    → k + 14 ≤ length buf
    → on_reply calls buf (pos (k + 14)) ≡ ok (calls ++ answer (take (k + 14) buf) ∷ [])
unfolding handle_reply
answers calls buf k long e h =
    rw
      (
        e,
        lt→leb_false (k + 10 + 0) (10 + 0) (omega arith),
        sub_ten (k + 10) (omega arith) (pkt_len-lt buf (k + 10) e),
        back,
        copied_lem (drop 4 buf) 10 (omega (arith, length-drop 4 buf)),
        drop-drop 4 10 buf,
        copied_lem (drop 14 buf) k (omega (arith, length-drop 14 buf)),
        head_of k buf,
        drop-take 14 k buf,
        size,
        word,
      )
      refl
  where
    back : k + 10 - 10 ≡ k
    back = omega arith

    size : length (take (k + 14) buf) - 14 ≡ k
    size = omega (arith, length-take (k + 14) buf)

    word : k % 2 ^ 32 ≡ k
    word = omega (arith, pkt_len-lt buf (k + 10) e)

-- What an answer adds: one of ten bytes or less is ignored.
abbrev pub answered : List Call → List ℕ → List Call
answered calls bytes = if leb (length bytes) 14 then calls else calls ++ answer bytes ∷ []

pub replies :
    (calls : List Call) (buf : List ℕ) (n : ℕ)
    → pkt_len buf ≡ pos n
    → n + 4 ≤ length buf
    → on_reply calls buf (pos (n + 4)) ≡ ok (answered calls (take (n + 4) buf))
unfolding handle_reply
replies calls buf n e h = elim (dec_le n 10) [
  | yes little ↦
      rw
        (
          e,
          le→leb (n + 0) (10 + 0) (omega arith),
          le→leb (length (take (n + 4) buf)) 14 (omega (arith, size)),
        )
        refl
  | no more ↦
      let as_k : n + 4 ≡ n - 10 + 14 = omega arith in
      rw (lt→leb_false (length (take (n + 4) buf)) 14 (omega (arith, size)), as_k)
        (answers calls buf (n - 10) (omega arith) (e ∙ ap pos (omega arith)) (omega arith))
]
  where
    size : length (take (n + 4) buf) ≡ n + 4
    size = omega (arith, length-take (n + 4) buf)
