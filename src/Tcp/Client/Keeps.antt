-- ===== src/Tcp/Client/Keeps.antt =====
-- What the callback of the client's socket does to the bytes that it was given to send.
use serverlib.Prelude.{
  ℕ, ◌≤◌, ◌≡◌, refl, ap, ◌∙◌, Bool, true, false, Bool-cases, inl, inr, List, [], ◌∷◌, ◌++◌,
  Option-cases, length, take, append_assoc, if◌then◌else◌, arith,
}
use serverlib.Prelude.Int.{ℤ, pos, leb_ℤ, ltb_ℤ, eqb_ℤ}
use serverlib.OutputBuffer.{OutputBuffer, get_data_pos}
use serverlib.OutputBuffer.Pending.{pending, AllBuffers}
use serverlib.Tcp.Connection.{
  Recv, received, recv_failed, Written, written, write_failed, eagain, advance,
}
use serverlib.Tcp.Connection.Queue.{Takes, advance-AllBuffers}
use serverlib.Tcp.Connection.Stream.{pending-advance}
use serverlib.Tcp.Client.{
  TcpClient, Event, wrote, slept, Wakeup, tell, watch, drop_socket, connect, reconnect,
  error_callback, read_part, after_write, write_front, write_part, io_callback,
}

-- The bytes that were written to sockets, by a log whose newest entry comes first.
abbrev pub written_bytes : List Event → List ℕ
written_bytes [] = []
written_bytes (wrote fd bytes ∷ log) = written_bytes log ++ bytes
written_bytes (_ ∷ log) = written_bytes log

-- No byte is written, and nothing that is to be sent is touched.
pub record Rests (c c' : TcpClient) : Type 0 where
  pub functions : c'.functions ≡ c.functions
  pub queue : c'.write_queue ≡ c.write_queue
  pub written : written_bytes c'.log ≡ written_bytes c.log

-- What is written and what is left make up what was pending.
pub record Carries (c c' : TcpClient) : Type 0 where
  pub functions : c'.functions ≡ c.functions
  pub buffers : AllBuffers c'.write_queue
  pub shorter : length c'.write_queue ≤ length c.write_queue
  pub adds_up :
      written_bytes c'.log ++ pending c'.write_queue ≡ written_bytes c.log ++ pending c.write_queue

pub Rests-trans : {c d e : TcpClient} → Rests c d → Rests d e → Rests c e
Rests-trans r s = record {
  functions = s.functions ∙ r.functions;
  queue = s.queue ∙ r.queue;
  written = s.written ∙ r.written;
}

Rests-Carries : {c d : TcpClient} → AllBuffers c.write_queue → Rests c d → Carries c d
Rests-Carries {c} {d} bs r = record {
  functions = r.functions;
  buffers = rw r.queue bs;
  shorter = omega (arith, ap length r.queue);
  adds_up = rw (r.written, r.queue) refl;
}

Rests-then : {c d e : TcpClient} → Rests c d → Carries d e → Carries c e
Rests-then {c} {d} {e} r k = record {
  functions = k.functions ∙ r.functions;
  buffers = k.buffers;
  shorter = omega (arith, ap length r.queue, k.shorter);
  adds_up = k.adds_up ∙ rw (r.written, r.queue) refl;
}

pub watch-Rests : (writes : Bool) (c : TcpClient) → Rests c (watch writes c)
watch-Rests writes c = elim (Option-cases c.io) [
  | inl e ↦ rw e (record { functions = refl; queue = refl; written = refl })
  | inr (w, e) ↦ rw e (record { functions = refl; queue = refl; written = refl })
]

drop_socket-Rests : (c : TcpClient) → Rests c (drop_socket c)
unfolding drop_socket
drop_socket-Rests c = elim (Bool-cases (ltb_ℤ (pos 0) c.socket)) [
  | inl e ↦ rw e (record { functions = refl; queue = refl; written = refl })
  | inr e ↦ rw e (record { functions = refl; queue = refl; written = refl })
]

pub connect-Rests : (fd : ℤ) (c : TcpClient) → Rests c (connect fd c).0
unfolding connect
connect-Rests fd c =
    let r = drop_socket-Rests c in
    elim (Bool-cases (leb_ℤ fd (pos 0))) [
      | inl e ↦ rw e (record { functions = r.functions; queue = r.queue; written = r.written })
      | inr e ↦ rw e (record { functions = r.functions; queue = r.queue; written = r.written })
    ]

reconnect-Rests :
    (e : Event) (fd : ℤ) (c : TcpClient)
    → written_bytes (e ∷ c.log) ≡ written_bytes c.log
    → Rests c (reconnect e fd c)
unfolding reconnect
reconnect-Rests e fd c silent =
    let r = connect-Rests fd (tell slept (tell e c)) in
    record { functions = r.functions; queue = r.queue; written = r.written ∙ silent }

read_part-Rests : (r : Recv) (fd : ℤ) (c : TcpClient) → Rests c (read_part r fd c).0
unfolding read_part
read_part-Rests (received []) fd c = reconnect-Rests _ fd c refl
read_part-Rests (received (b ∷ bs)) fd c = record { functions = refl; queue = refl; written = refl }
read_part-Rests (recv_failed e) fd c = elim (Bool-cases (eqb_ℤ e eagain)) [
  | inl again ↦ rw again (record { functions = refl; queue = refl; written = refl })
  | inr other ↦ rw other (reconnect-Rests _ fd c refl)
]

after_write-Rests :
    (queue : List OutputBuffer) (c : TcpClient)
    → Rests (record c { write_queue = queue }) (after_write queue c)
unfolding after_write
after_write-Rests [] c = watch-Rests false (record c { write_queue = [] })
after_write-Rests (b ∷ queue) c = record { functions = refl; queue = refl; written = refl }

write_front-Carries :
    (w : Written) (fd opened : ℤ) (front : OutputBuffer) (rest : List OutputBuffer) (c : TcpClient)
    → c.write_queue ≡ front ∷ rest
    → AllBuffers (front ∷ rest)
    → Takes w (front ∷ rest)
    → Carries c (write_front w fd opened front rest c)
unfolding write_front
write_front-Carries (write_failed e) fd opened front rest c q bs h =
    elim (Bool-cases (eqb_ℤ e eagain)) [
      | inl again ↦
          rw again
            (Rests-Carries (rw q bs) (record { functions = refl; queue = refl; written = refl }))
      | inr other ↦ rw other (Rests-Carries (rw q bs) (reconnect-Rests _ opened c refl))
    ]
write_front-Carries (written n) fd opened front rest c q bs h =
    let (bs', len) = advance-AllBuffers front rest n bs.0 bs.1 h in
    let r =
      after_write-Rests (advance front rest n) (tell (wrote fd (take n (get_data_pos front))) c) in
    record {
      functions = r.functions;
      buffers = rw r.queue bs';
      shorter = omega (arith, ap length r.queue, len, ap length q);
      adds_up =
          rw (r.written, r.queue, q)
            (append_assoc (written_bytes c.log) (take n (get_data_pos front)) _
              ∙ ap (◌++◌ (written_bytes c.log)) (pending-advance front rest n bs.0 h));
    }

write_part-Carries :
    (w : Written) (fd opened : ℤ) (c : TcpClient)
    → AllBuffers c.write_queue
    → Takes w c.write_queue
    → Carries c (write_part w fd opened c)
unfolding write_part
write_part-Carries w fd opened c bs h = from c.write_queue refl bs h
  where
    from :
        (queue : List OutputBuffer)
        → c.write_queue ≡ queue
        → AllBuffers queue
        → Takes w queue
        → Carries c (elim queue [
          | [] ↦ watch false c
          | front ∷ rest ↦ write_front w fd opened front rest c
        ])
    from [] e bs h = Rests-Carries (rw e tt) (watch-Rests false c)
    from (front ∷ rest) e bs h = write_front-Carries w fd opened front rest c e bs h

-- The reading, and then the writing where the callback has not returned.
parts-Carries :
    (w : Wakeup) (fd : ℤ) (c d : TcpClient) (returned : Bool)
    → AllBuffers c.write_queue
    → Takes w.write c.write_queue
    → Rests c d
    → Carries c
        (if returned then d else if w.revents.write then write_part w.write fd w.opened d else d)
parts-Carries w fd c d true bs h r = Rests-Carries bs r
parts-Carries w fd c d false bs h r = elim (Bool-cases w.revents.write) [
  | inl writes ↦
      rw writes
        (Rests-then r (write_part-Carries w.write fd w.opened d (rw r.queue bs) (rw r.queue h)))
  | inr quiet ↦ rw quiet (Rests-Carries bs r)
]

-- One callback of the socket.
pub io_callback-Carries :
    (w : Wakeup) (fd : ℤ) (c : TcpClient)
    → AllBuffers c.write_queue
    → Takes w.write c.write_queue
    → Carries c (io_callback w fd c)
unfolding io_callback error_callback
io_callback-Carries w fd c bs h = elim (Bool-cases w.revents.error) [
  | inl error ↦ rw error (Rests-Carries bs (reconnect-Rests _ w.opened c refl))
  | inr fine ↦ elim (Bool-cases w.revents.read) [
    | inl reads ↦
        let r = read_part w.recv w.opened c in
        rw (fine, reads) (parts-Carries w fd c r.0 r.1 bs h (read_part-Rests w.recv w.opened c))
    | inr quiet ↦
        rw (fine, quiet)
          (parts-Carries w fd c c false bs h
            (record { functions = refl; queue = refl; written = refl }))
  ]
]
