-- ===== src/Tcp/Connection/Queue.antt =====
-- The write queue of a `CTcpConnection`, and its invariant.
use serverlib.Prelude.{
  ℕ, suc, ◌+◌, ◌≤◌, ◌≡◌, refl, sym, ap, ◌∙◌, List-cases, Bool, true, false, List, [], ◌∷◌, ◌++◌,
  length, length-append, arith, ltb, Bool-cases, inl, inr, length-drop,
}
use serverlib.Prelude.Int.{ℤ}
use serverlib.Socket.{SocketClientData}
use serverlib.OutputBuffer.{OutputBuffer, IsOutputBuffer, get_data_pos}
use serverlib.OutputBuffer.Pending.{AllBuffers, AllBuffers-append}
use serverlib.Tcp.Connection.{
  Connection, Written, written, write_failed, Recv, received, recv_failed, Wakeup,
  write_queue_max_size, new_connection, send, advance, read_part, write_front, write_part,
  after_write, io_callback,
}

abbrev pub nonempty {ℓ} : {A : Type ℓ} → List A → Bool
nonempty [] = false
nonempty (x ∷ xs) = true

-- The buffers are sound and at most one more than the limit, and the socket is watched for writing
-- exactly while there is something to write.
pub record IsConnection (c : Connection) : Type 0 where
  pub buffers : AllBuffers c.write_queue
  pub bounded : length c.write_queue ≤ write_queue_max_size + 1
  pub watches : c.io.write ≡ nonempty c.write_queue
  pub reads : c.io.read ≡ true

-- `write` takes no more than it is offered.
abbrev pub Takes : Written → List OutputBuffer → Type 0
Takes (written n) (front ∷ rest) = n ≤ length (get_data_pos front)
Takes (written n) [] = Unit {0}
Takes (write_failed e) queue = Unit {0}

nonempty-append {ℓ} : {A : Type ℓ} (xs : List A) (x : A) → nonempty (xs ++ x ∷ []) ≡ true
nonempty-append [] x = refl
nonempty-append (y ∷ xs) x = refl

pub new_connection-IsConnection :
    (timeout now : ℤ) (client : SocketClientData)
    → IsConnection (new_connection timeout now client).0
unfolding new_connection
new_connection-IsConnection timeout now client = record {
  buffers = tt;
  bounded = omega arith;
  watches = refl;
  reads = refl;
}

pub send-IsConnection :
    (b : OutputBuffer) (c : Connection)
    → IsOutputBuffer b
    → IsConnection c
    → IsConnection (send b c).0
unfolding send
send-IsConnection b c vb v = elim (Bool-cases (ltb write_queue_max_size (length c.write_queue))) [
  | inl full ↦ rw full v
  | inr room ↦ rw room (record {
    buffers = AllBuffers-append c.write_queue (b ∷ []) v.buffers (vb, tt);
    bounded = ground (arith, length-append c.write_queue (b ∷ []));
    watches = sym (nonempty-append c.write_queue b);
    reads = refl;
  })
]

pub advance-AllBuffers :
    (front : OutputBuffer) (rest : List OutputBuffer) (n : ℕ)
    → IsOutputBuffer front
    → AllBuffers rest
    → n ≤ length (get_data_pos front)
    → AllBuffers (advance front rest n) × (length (advance front rest n) ≤ suc (length rest))
unfolding advance get_data_pos
advance-AllBuffers front rest n v vs h = ground (arith, length-drop front.position front.data_bytes)

after_write-IsConnection :
    (queue : List OutputBuffer) (now : ℤ) (c : Connection)
    → AllBuffers queue
    → length queue ≤ write_queue_max_size + 1
    → c.io.write ≡ true
    → c.io.read ≡ true
    → IsConnection (after_write queue now c)
unfolding after_write
after_write-IsConnection [] now c bs short w r = record {
  buffers = tt;
  bounded = omega arith;
  watches = refl;
  reads = refl;
}
after_write-IsConnection (b ∷ queue) now c bs short w r = record {
  buffers = bs;
  bounded = short;
  watches = w;
  reads = r;
}

write_front-IsConnection :
    (w : Written) (now : ℤ) (front : OutputBuffer) (rest : List OutputBuffer) (c : Connection)
    → c.write_queue ≡ front ∷ rest
    → IsConnection c
    → Takes w (front ∷ rest)
    → IsConnection (write_front w now front rest c).0
unfolding write_front
write_front-IsConnection (write_failed e) now front rest c q v h = ground arith
write_front-IsConnection (written n) now front rest c q v h =
    let vs : AllBuffers (front ∷ rest) = rw q at v.buffers in
    let (bs, len) = advance-AllBuffers front rest n vs.0 vs.1 h in
    let short : length (advance front rest n) ≤ write_queue_max_size + 1 =
      omega (arith, ap length q, v.bounded) in
    after_write-IsConnection (advance front rest n) now c bs short (v.watches ∙ ap nonempty q)
      v.reads

write_part-IsConnection :
    (w : Written) (now : ℤ) (c : Connection)
    → IsConnection c
    → Takes w c.write_queue
    → IsConnection (write_part w now c).0
unfolding write_part
write_part-IsConnection w now c v h = elim (List-cases c.write_queue) [
  | inl e ↦
      rw (e, write_part)
        (record {
          buffers = v.buffers;
          bounded = v.bounded;
          watches = sym (ap nonempty e);
          reads = refl;
        })
  | inr (front, rest, e) ↦
      rw (e, write_part) (write_front-IsConnection w now front rest c e v (rw e at h))
]

-- Reading touches no buffer.
pub read_part-queue :
    (r : Recv) (now : ℤ) (c : Connection)
    → ((read_part r now c).0.write_queue ≡ c.write_queue) × ((read_part r now c).0.io ≡ c.io)
unfolding read_part
read_part-queue (received []) now c = (refl, refl)
read_part-queue (received (b ∷ bs)) now c = (refl, refl)
read_part-queue (recv_failed e) now c = ground arith

read_part-IsConnection :
    (r : Recv) (now : ℤ) (c : Connection) → IsConnection c → IsConnection (read_part r now c).0
read_part-IsConnection r now c v =
    let (q, io) = read_part-queue r now c in
    record {
      buffers = rw q v.buffers;
      bounded = rw q v.bounded;
      watches = rw (q, io) v.watches;
      reads = rw io v.reads;
    }

-- A wakeup whose `write` takes no more than it is offered keeps the connection sound. If `write`
-- takes no more than it is offered, a callback keeps the invariant: the buffers are sound, the
-- queue has at most 1000001 of them, reads are watched, and writes while the queue is not empty.
pub io_callback-IsConnection :
    (w : Wakeup) (c : Connection)
    → IsConnection c
    → Takes w.write c.write_queue
    → IsConnection (io_callback w c).0
unfolding io_callback
io_callback-IsConnection w c v h = ground (
  arith,
  read_part-IsConnection w.recv w.now c v,
  write_part-IsConnection w.write w.now c v h,
  write_part-IsConnection w.write w.now (read_part w.recv w.now c).0
      (read_part-IsConnection w.recv w.now c v) (rw (read_part-queue w.recv w.now c).0 h),
)

read_part-client : (r : Recv) (now : ℤ) (c : Connection) → (read_part r now c).0.client ≡ c.client
unfolding read_part
read_part-client (received []) now c = refl
read_part-client (received (b ∷ bs)) now c = refl
read_part-client (recv_failed e) now c = ground arith

after_write-client :
    (queue : List OutputBuffer) (now : ℤ) (c : Connection)
    → (after_write queue now c).client ≡ c.client
unfolding after_write
after_write-client [] now c = refl
after_write-client (b ∷ queue) now c = refl

write_front-client :
    (w : Written) (now : ℤ) (front : OutputBuffer) (rest : List OutputBuffer) (c : Connection)
    → (write_front w now front rest c).0.client ≡ c.client
unfolding write_front
write_front-client (written n) now front rest c = after_write-client (advance front rest n) now c
write_front-client (write_failed e) now front rest c = ground arith

write_part-client :
    (w : Written) (now : ℤ) (c : Connection) → (write_part w now c).0.client ≡ c.client
unfolding write_part
write_part-client w now c = elim (List-cases c.write_queue) [
  | inl e ↦ rw (e, write_part) refl
  | inr (front, rest, e) ↦ rw (e, write_part) (write_front-client w now front rest c)
]

-- A callback leaves the connection its client.
pub io_callback-client : (w : Wakeup) (c : Connection) → (io_callback w c).0.client ≡ c.client
unfolding io_callback
io_callback-client w c = ground (
  arith,
  read_part-client w.recv w.now c,
  write_part-client w.write w.now c,
  write_part-client w.write w.now (read_part w.recv w.now c).0,
)
