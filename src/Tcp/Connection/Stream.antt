-- ===== src/Tcp/Connection/Stream.antt =====
-- The bytes that a `CTcpConnection` is given to send, and those that it writes.
use serverlib.Prelude.{
  ℕ, zero, suc, ◌+◌, ◌-◌, ◌≤◌, ◌<◌, ◌≡◌, refl, sym, ap, ◌∙◌, List, [], ◌∷◌, ◌++◌, length, take,
  drop, append-nil, append_assoc, arith, ltb, if◌then◌else◌, Bool-cases, List-cases, inl, inr,
  dec_le, length-drop, take-append-drop,
}
use serverlib.Prelude.Int.{ℤ, eqb_ℤ}
use serverlib.OutputBuffer.{OutputBuffer, IsOutputBuffer, get_bytes, get_data_pos}
use serverlib.OutputBuffer.Pending.{pending, pending-append, AllBuffers, drop-drop}
use serverlib.Tcp.Connection.{
  Connection, Call, wrote, Written, written, write_failed, Recv, received, recv_failed, Wakeup,
  eagain, write_queue_max_size, send, advance, read_part, write_front, write_part, after_write,
  io_callback,
}
use serverlib.Tcp.Connection.Queue.{
  IsConnection, Takes, send-IsConnection, io_callback-IsConnection, read_part-queue,
}

-- The bytes that the calls of a callback wrote to the socket.
abbrev pub wrote_bytes : List Call → List ℕ
wrote_bytes [] = []
wrote_bytes (wrote fd bytes ∷ calls) = bytes ++ wrote_bytes calls
wrote_bytes (_ ∷ calls) = wrote_bytes calls

wrote_bytes-append : (xs ys : List Call) → wrote_bytes (xs ++ ys) ≡ wrote_bytes xs ++ wrote_bytes ys
wrote_bytes-append [] ys = refl
wrote_bytes-append (wrote fd bytes ∷ xs) ys =
    ap (◌++◌ bytes) (wrote_bytes-append xs ys)
    ∙ sym (append_assoc bytes (wrote_bytes xs) (wrote_bytes ys))
wrote_bytes-append (_ ∷ xs) ys = wrote_bytes-append xs ys

pub take_all {ℓ} : {A : Type ℓ} (n : ℕ) (xs : List A) → length xs ≤ n → take n xs ≡ xs
take_all zero [] h = refl
take_all zero (x ∷ xs) h = absurd (omega arith)
take_all (suc n) [] h = refl
take_all (suc n) (x ∷ xs) h = ap (◌∷◌ x) (take_all n xs (omega arith))

pub advance_done :
    (front : OutputBuffer) (rest : List OutputBuffer) (n : ℕ)
    → front.len ≡ front.position + n
    → advance front rest n ≡ rest
unfolding advance get_bytes
advance_done front rest n h = ground arith

advance_more :
    (front : OutputBuffer) (rest : List OutputBuffer) (n : ℕ)
    → front.position + n < front.len
    → advance front rest n ≡ record front { position = front.position + n } ∷ rest
unfolding advance get_bytes
advance_more front rest n h = ground arith

-- What `advance` leaves is what the write did not take.
pub pending-advance :
    (front : OutputBuffer) (rest : List OutputBuffer) (n : ℕ)
    → IsOutputBuffer front
    → n ≤ length (get_data_pos front)
    → take n (get_data_pos front) ++ pending (advance front rest n) ≡ pending (front ∷ rest)
unfolding get_data_pos
pending-advance front rest n v h = elim (dec_le (length (drop front.position front.data_bytes)) n) [
  | yes all ↦ rw (advance_done front rest n (omega (arith, left)), take_all n _ all)
  | no some ↦
      rw
        (
          advance_more front rest n (omega (arith, left)),
          ← drop-drop front.position n front.data_bytes,
        )
        (sym (append_assoc (take n xs) (drop n xs) (pending rest))
          ∙ ap (λ (ys : List ℕ). ys ++ pending rest) (take-append-drop n xs))
]
  where
    xs : List ℕ
    xs = drop front.position front.data_bytes

    left : length (drop front.position front.data_bytes) ≡ length front.data_bytes - front.position
    left = length-drop front.position front.data_bytes

pub after_write-queue :
    (queue : List OutputBuffer) (now : ℤ) (c : Connection)
    → (after_write queue now c).write_queue ≡ queue
unfolding after_write
after_write-queue [] now c = refl
after_write-queue (b ∷ queue) now c = refl

read_part-wrote : (r : Recv) (now : ℤ) (c : Connection) → wrote_bytes (read_part r now c).1 ≡ []
unfolding read_part
read_part-wrote (received []) now c = refl
read_part-wrote (received (b ∷ bs)) now c = refl
read_part-wrote (recv_failed e) now c = ground arith

write_front-pending :
    (w : Written) (now : ℤ) (front : OutputBuffer) (rest : List OutputBuffer) (c : Connection)
    → c.write_queue ≡ front ∷ rest
    → IsOutputBuffer front
    → Takes w (front ∷ rest)
    → wrote_bytes (write_front w now front rest c).1
        ++ pending (write_front w now front rest c).0.write_queue
      ≡ pending (front ∷ rest)
unfolding write_front
write_front-pending (written n) now front rest c q v h =
    simp (append-nil, after_write-queue (advance front rest n) now c)
      (pending-advance front rest n v h)
write_front-pending (write_failed e) now front rest c q v h = elim (Bool-cases (eqb_ℤ e eagain)) [
  | inl again ↦ rw again (ap pending q)
  | inr other ↦ rw other (ap pending q)
]

write_part-pending :
    (w : Written) (now : ℤ) (c : Connection)
    → AllBuffers c.write_queue
    → Takes w c.write_queue
    → wrote_bytes (write_part w now c).1 ++ pending (write_part w now c).0.write_queue
      ≡ pending c.write_queue
unfolding write_part
write_part-pending w now c v h = elim (List-cases c.write_queue) [
  | inl e ↦ rw (e, write_part) (ap pending e)
  | inr (front, rest, e) ↦
      rw (e, write_part) (write_front-pending w now front rest c e (rw e at v).0 (rw e at h))
]

-- One callback: what it writes and what is left make up what was pending.
pub io_callback-pending :
    (w : Wakeup) (c : Connection)
    → IsConnection c
    → Takes w.write c.write_queue
    → wrote_bytes (io_callback w c).1 ++ pending (io_callback w c).0.write_queue
      ≡ pending c.write_queue
unfolding io_callback
io_callback-pending w c v h =
    let r = read_part-queue w.recv w.now c in
    ground (
      arith,
      ap pending r.0,
      read_part-wrote w.recv w.now c,
      write_part-pending w.write w.now c v.buffers h,
      write_part-pending w.write w.now (read_part w.recv w.now c).0 (rw r.0 v.buffers) (rw r.0 h),
      wrote_bytes-append (read_part w.recv w.now c).1
          (write_part w.write w.now (read_part w.recv w.now c).0).1,
    )

-- What happens to a connection: the server gives it a buffer, or libev wakes it.
pub data Event : Type 0 where
  sends : OutputBuffer → Event
  wakes : Wakeup → Event

-- A connection with the bytes that it was given to send, and those that it has written.
pub record Traffic : Type 0 where
  pub connection : Connection
  pub given : List ℕ
  pub put : List ℕ

abbrev pub start : Connection → Traffic
start c = record { connection = c; given = []; put = [] }

-- A buffer that finds the queue too long is refused with an error, and does not count as given.
abbrev pub accepted : OutputBuffer → Connection → List ℕ
accepted b c =
    if ltb write_queue_max_size (length c.write_queue) then [] else drop b.position b.data_bytes

unfoldable pub step : Traffic → Event → Traffic
step t (sends b) = record {
  connection = (send b t.connection).0;
  given = t.given ++ accepted b t.connection;
  put = t.put;
}
step t (wakes w) = record {
  connection = (io_callback w t.connection).0;
  given = t.given;
  put = t.put ++ wrote_bytes (io_callback w t.connection).1;
}

unfoldable pub run : Traffic → List Event → Traffic
run t [] = t
run t (e ∷ events) = run (step t e) events

-- The buffers are sound, and `write` never takes more than it is offered.
abbrev pub IsAllowed : Traffic → List Event → Type 0
IsAllowed t [] = Unit {0}
IsAllowed t (sends b ∷ events) = IsOutputBuffer b × IsAllowed (step t (sends b)) events
IsAllowed t (wakes w ∷ events) =
    Takes w.write t.connection.write_queue × IsAllowed (step t (wakes w)) events

pub record IsTraffic (t : Traffic) : Type 0 where
  pub sound : IsConnection t.connection
  pub adds_up : t.put ++ pending t.connection.write_queue ≡ t.given

send-pending :
    (b : OutputBuffer) (c : Connection)
    → pending (send b c).0.write_queue ≡ pending c.write_queue ++ accepted b c
unfolding send
send-pending b c = elim (Bool-cases (ltb write_queue_max_size (length c.write_queue))) [
  | inl full ↦ rw full (sym (append-nil (pending c.write_queue)))
  | inr room ↦ rw room (rw (pending-append c.write_queue (b ∷ [])) (simp append-nil))
]

-- From a state that adds up, such as a new connection's, if the buffers given are sound and `write`
-- takes no more than it is offered: after any events the bytes written and those still queued are,
-- in order, the bytes given: none is lost, doubled or overtaken, and the invariant holds.
pub run-IsTraffic :
    (t : Traffic) (events : List Event)
    → IsTraffic t
    → IsAllowed t events
    → IsTraffic (run t events)
unfolding run step
run-IsTraffic t [] v h = v
run-IsTraffic t (sends b ∷ events) v h =
    run-IsTraffic (step t (sends b)) events
      (record {
        sound = send-IsConnection b t.connection h.0 v.sound;
        adds_up = rw (send-pending b t.connection) (
            sym (append_assoc t.put (pending t.connection.write_queue) (accepted b t.connection))
            ∙ ap (λ (xs : List ℕ). xs ++ accepted b t.connection) v.adds_up);
      })
      h.1
run-IsTraffic t (wakes w ∷ events) v h =
    run-IsTraffic (step t (wakes w)) events
      (record {
        sound = io_callback-IsConnection w t.connection v.sound h.0;
        adds_up =
            append_assoc t.put (wrote_bytes (io_callback w t.connection).1)
              (pending (io_callback w t.connection).0.write_queue)
            ∙ ap (◌++◌ t.put) (io_callback-pending w t.connection v.sound h.0)
            ∙ v.adds_up;
      })
      h.1
