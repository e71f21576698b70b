-- ===== src/Tcp/Connection/Last.antt =====
-- What a `CTcpConnection` calls behind a call that lets it go.
use serverlib.Prelude.{
  ℕ, ◌≡◌, refl, Bool, true, false, not, ◌&&◌, Bool-cases, List-cases, inl, inr, List, [], ◌∷◌, ◌++◌,
  if◌then◌else◌, arith,
}
use serverlib.Prelude.Int.{ℤ, pos, eqb_ℤ}
use serverlib.OutputBuffer.{OutputBuffer}
use serverlib.Tcp.Connection.{
  Connection, Call, client_disconnected, client_recv_error, client_send_error, client_data_received,
  client_timeout, set_nonblock, set_reuseaddr, set_nodelay, shut_down, closed, wrote, Wakeup, Recv,
  received, recv_failed, Written, written, write_failed, eagain, send, read_part, write_front,
  write_part, io_callback, timer_callback,
}

-- The server's members that remove the connection from the channels, which destroys it.
abbrev pub lets_go : Call → Bool
lets_go (client_disconnected e) = true
lets_go (client_recv_error e) = true
lets_go (client_send_error e) = true
lets_go client_timeout = true
lets_go (client_data_received bytes) = false
lets_go (set_nonblock fd) = false
lets_go (set_reuseaddr fd) = false
lets_go (set_nodelay fd) = false
lets_go (shut_down fd) = false
lets_go (closed fd) = false
lets_go (wrote fd bytes) = false

-- No call that lets the connection go has another behind it.
abbrev pub goes_last : List Call → Bool
goes_last [] = true
goes_last (c ∷ []) = true
goes_last (c ∷ d ∷ calls) = not (lets_go c) && goes_last (d ∷ calls)

write_front-goes_last :
    (w : Written) (now : ℤ) (front : OutputBuffer) (rest : List OutputBuffer) (c : Connection)
    (d : Call)
    → lets_go d ≡ false
    → (goes_last (write_front w now front rest c).1 ≡ true)
      × (goes_last (d ∷ (write_front w now front rest c).1) ≡ true)
unfolding write_front
write_front-goes_last (written n) now front rest c d h = (refl, rw h refl)
write_front-goes_last (write_failed e) now front rest c d h = elim (Bool-cases (eqb_ℤ e eagain)) [
  | inl again ↦ rw again (refl, refl)
  | inr other ↦ rw other (refl, rw h refl)
]

write_part-goes_last :
    (w : Written) (now : ℤ) (c : Connection) (d : Call)
    → lets_go d ≡ false
    → (goes_last (write_part w now c).1 ≡ true) × (goes_last (d ∷ (write_part w now c).1) ≡ true)
unfolding write_part
write_part-goes_last w now c d h = elim (List-cases c.write_queue) [
  | inl e ↦ rw (e, write_part) (refl, refl)
  | inr (front, rest, e) ↦ rw (e, write_part) (write_front-goes_last w now front rest c d h)
]

-- What the `EV_READ` part calls: something to return after, or at most the data handle.
data Reads : List Call × Bool → Type 0 where
  quiet : Reads ([], false)
  hands_on : (bytes : List ℕ) → Reads (client_data_received bytes ∷ [], false)
  returns : (d : Call) → Reads (d ∷ [], true)

read_part-Reads :
    (r : Recv) (now : ℤ) (c : Connection) → Reads ((read_part r now c).1, (read_part r now c).2)
unfolding read_part
read_part-Reads (received []) now c = returns (client_disconnected (pos 0))
read_part-Reads (received (x ∷ xs)) now c = hands_on (x ∷ xs)
read_part-Reads (recv_failed e) now c = elim (Bool-cases (eqb_ℤ e eagain)) [
  | inl again ↦ rw again quiet
  | inr other ↦ rw other (returns (client_recv_error e))
]

-- The calls of both parts, `after` those of the writing.
joined-goes_last :
    (after : List Call) (writes : Bool) (r : List Call × Bool)
    → ((d : Call) → lets_go d ≡ false → (goes_last after ≡ true) × (goes_last (d ∷ after) ≡ true))
    → Reads r
    → goes_last (if r.1 then r.0 else if writes then r.0 ++ after else r.0) ≡ true
joined-goes_last after true r h quiet = (h (closed (pos 0)) refl).0
joined-goes_last after false r h quiet = refl
joined-goes_last after true r h (hands_on bytes) = (h (client_data_received bytes) refl).1
joined-goes_last after false r h (hands_on bytes) = refl
joined-goes_last after writes r h (returns d) = refl

-- The calls of the callback, as those of its parts.
io_callback-calls :
    (w : Wakeup) (c : Connection)
    → let r = if w.revents.read then read_part w.recv w.now c else (c, [], false) in
      (io_callback w c).1 ≡ (
        if w.revents.error
        then client_disconnected w.errno ∷ []
        else if r.2
        then r.1
        else if w.revents.write
        then r.1 ++ (write_part w.write w.now r.0).1
        else r.1)
unfolding io_callback
io_callback-calls w c = ground arith

io-goes_last : (w : Wakeup) (c : Connection) → goes_last (io_callback w c).1 ≡ true
io-goes_last w c = rw (io_callback-calls w c) (elim (Bool-cases w.revents.error) [
  | inl error ↦ rw error refl
  | inr fine ↦ elim (Bool-cases w.revents.read) [
    | inl reads ↦
        let r = read_part w.recv w.now c in
        rw (fine, reads)
          (joined-goes_last (write_part w.write w.now r.0).1 w.revents.write (r.1, r.2)
            (λ d h. write_part-goes_last w.write w.now r.0 d h) (read_part-Reads w.recv w.now c))
    | inr unread ↦
        rw (fine, unread)
          (joined-goes_last (write_part w.write w.now c).1 w.revents.write ([], false)
            (λ d h. write_part-goes_last w.write w.now c d h) quiet)
  ]
])

-- A callback of the socket or the timer, and a call of `Send()`, calls at most one member that lets
-- the connection go, and nothing after it: the destroyed object is not used.
pub io_callback-goes_last :
    (w : Wakeup) (b : OutputBuffer) (c : Connection)
    → (goes_last (io_callback w c).1 ≡ true)
      × (goes_last (timer_callback w c) ≡ true)
      × (goes_last (send b c).1 ≡ true)
unfolding timer_callback send
io_callback-goes_last w b c = (io-goes_last w c, ground arith, ground arith)
