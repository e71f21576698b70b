-- ===== src/Tcp/Connection/Flush.antt =====
-- `__IoCallback` of `CTcpConnection` on a socket that is writable again and again.
use serverlib.Prelude.{
  ℕ, suc, ◌+◌, ◌≤◌, ◌<◌, ◌≡◌, min, refl, sym, ap, ◌∙◌, false, true, List-cases, inl, inr, List, [],
  ◌∷◌, ◌++◌, length, take, drop, length-append, length-take, length-drop, dec_le, arith,
}
use serverlib.Prelude.Int.{ℤ}
use serverlib.OutputBuffer.{OutputBuffer, IsOutputBuffer, get_data_pos}
use serverlib.OutputBuffer.Pending.{pending, AllBuffers}
use serverlib.Tcp.Connection.{
  Connection, Call, Wakeup, Written, written, write_failed, advance, write_front, write_part,
  io_callback,
}
use serverlib.Tcp.Connection.Queue.{nonempty, IsConnection, Takes, io_callback-IsConnection}
use serverlib.Tcp.Connection.Stream.{
  wrote_bytes, advance_done, after_write-queue, pending-advance, io_callback-pending,
}

-- `write` takes some of what it is offered, if that is anything.
abbrev pub Accepts : Written → List OutputBuffer → Type 0
Accepts w [] = Unit {0}
Accepts (written n) (front ∷ rest) =
    (n ≤ length (get_data_pos front)) × (min 1 (length (get_data_pos front)) ≤ n)
Accepts (write_failed e) (front ∷ rest) = ⊥

-- The socket is writable, and nothing else.
abbrev pub IsWritable : Wakeup → Connection → Type 0
IsWritable w c =
    (w.revents.error ≡ false)
    × (w.revents.read ≡ false)
    × (w.revents.write ≡ true)
    × Accepts w.write c.write_queue

-- The connection after these wake-ups, and the bytes that they wrote.
abbrev pub flush : List Wakeup → Connection → Connection × List ℕ
flush [] c = (c, [])
flush (w ∷ ws) c =
    let r = io_callback w c in let rest = flush ws r.0 in (rest.0, wrote_bytes r.1 ++ rest.1)

abbrev pub AllWritable : List Wakeup → Connection → Type 0
AllWritable [] c = Unit {0}
AllWritable (w ∷ ws) c = IsWritable w c × AllWritable ws (io_callback w c).0

-- The bytes and the buffers that wait.
abbrev pub waiting_num : List OutputBuffer → ℕ
waiting_num queue = length (pending queue) + length queue

advance-length :
    (front : OutputBuffer) (rest : List OutputBuffer) (n : ℕ)
    → length (advance front rest n) ≤ suc (length rest)
unfolding advance
advance-length front rest n = ground arith

advance-less :
    (front : OutputBuffer) (rest : List OutputBuffer) (n : ℕ)
    → IsOutputBuffer front
    → n ≤ length (get_data_pos front)
    → min 1 (length (get_data_pos front)) ≤ n
    → waiting_num (advance front rest n) < waiting_num (front ∷ rest)
unfolding get_data_pos
advance-less front rest n v fits some_of = elim (dec_le 1 n) [
  | yes more ↦
      let sizes = ap length (pending-advance front rest n v fits) in
      let parts =
        length-append (take n (drop front.position front.data_bytes))
          (pending (advance front rest n)) in
      omega (
        arith,
        sizes,
        parts,
        length-take n (drop front.position front.data_bytes),
        advance-length front rest n,
      )
  | no nothing ↦
      let e : n ≡ 0 = omega arith in
      let done : advance front rest n ≡ rest =
        advance_done front rest n
          (omega (arith, v.sized, v.within, length-drop front.position front.data_bytes)) in
      rw done (omega (arith, length-append (drop front.position front.data_bytes) (pending rest)))
]

io_callback-write_part :
    (w : Wakeup) (c : Connection) → IsWritable w c → io_callback w c ≡ write_part w.write w.now c
unfolding io_callback
io_callback-write_part w c h = rw (h.0, h.1, h.2) refl

write_front-less :
    (w : Written) (now : ℤ) (front : OutputBuffer) (rest : List OutputBuffer) (c : Connection)
    → IsOutputBuffer front
    → Accepts w (front ∷ rest)
    → waiting_num (write_front w now front rest c).0.write_queue < waiting_num (front ∷ rest)
unfolding write_front
write_front-less (written n) now front rest c v h =
    rw (after_write-queue (advance front rest n) now c) (advance-less front rest n v h.0 h.1)
write_front-less (write_failed e) now front rest c v h = absurd h

-- One wake-up: less waits, or nothing did.
write_part-less :
    (w : Written) (now : ℤ) (c : Connection)
    → AllBuffers c.write_queue
    → Accepts w c.write_queue
    → waiting_num (write_part w now c).0.write_queue + min 1 (length c.write_queue)
      ≤ waiting_num c.write_queue
unfolding write_part
write_part-less w now c v h = elim (List-cases c.write_queue) [
  | inl e ↦ rw (e, write_part) (omega (arith, ap waiting_num e))
  | inr (front, rest, e) ↦
      rw (e, write_part)
        (omega (arith, write_front-less w now front rest c (rw e at v).0 (rw e at h)))
]

Accepts-Takes : (w : Written) (queue : List OutputBuffer) → Accepts w queue → Takes w queue
Accepts-Takes (written n) [] h = tt
Accepts-Takes (written n) (front ∷ rest) h = h.0
Accepts-Takes (write_failed e) queue h = tt

empty_queue : (queue : List OutputBuffer) → waiting_num queue ≤ 0 → queue ≡ []
empty_queue [] h = refl
empty_queue (b ∷ queue) h = absurd (omega (arith, h))

-- However little of what it is offered `write` takes each time, but at least a byte: after as many
-- wake-ups as bytes and buffers wait, a sound connection has written all that was queued, in order,
-- its queue is empty, and it no longer watches for a writable socket.
pub flush-empties :
    (ws : List Wakeup) (c : Connection)
    → IsConnection c
    → AllWritable ws c
    → waiting_num c.write_queue ≤ length ws
    → ((flush ws c).0.write_queue ≡ [])
      × ((flush ws c).1 ≡ pending c.write_queue)
      × ((flush ws c).0.io.write ≡ false)
flush-empties [] c v h few =
    let e = empty_queue c.write_queue few in (e, sym (ap pending e), v.watches ∙ ap nonempty e)
flush-empties (w ∷ ws) c v h few =
    let takes = Accepts-Takes w.write c.write_queue h.0.3 in
    let (e, wrote, quiet) =
      flush-empties ws (io_callback w c).0 (io_callback-IsConnection w c v takes) h.1 (
        fewer
          (ap (λ (r : Connection × List Call). waiting_num r.0.write_queue)
            (io_callback-write_part w c h.0))
          (write_part-less w.write w.now c v.buffers h.0.3)) in
    (e, ap (◌++◌ (wrote_bytes (io_callback w c).1)) wrote ∙ io_callback-pending w c v takes, quiet)
  where
    fewer :
        waiting_num (io_callback w c).0.write_queue
          ≡ waiting_num (write_part w.write w.now c).0.write_queue
        → waiting_num (write_part w.write w.now c).0.write_queue + min 1 (length c.write_queue)
          ≤ waiting_num c.write_queue
        → waiting_num (io_callback w c).0.write_queue ≤ length ws
    fewer e less = elim (List-cases c.write_queue) [
      | inl none_left ↦ omega (arith, e, less, few, ap waiting_num none_left)
      | inr (front, rest, some_left) ↦ omega (arith, e, less, few, ap length some_left)
    ]
