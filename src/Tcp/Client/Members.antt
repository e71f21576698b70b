-- ===== src/Tcp/Client/Members.antt =====
-- What each member of a client does to the bytes that were given to `Send()`.
use serverlib.Prelude.{
  ℕ, suc, ◌+◌, ◌≤◌, ◌≡◌, refl, sym, ap, ◌∙◌, true, Bool-cases, inl, inr, List, [], ◌∷◌, ◌++◌,
  length, take, length-append, append-nil, append_assoc, le→ltb_false, arith,
}
use serverlib.Prelude.Int.{ℤ, pos}
use serverlib.Prelude.Run.{ok, Returns, ◌>>=◌}
use serverlib.OutputBuffer.{OutputBuffer, new_output_buffer}
use serverlib.OutputBuffer.Pending.{
  pending, pending-append, AllBuffers, AllBuffers-append, new_output_buffer_lem,
}
use serverlib.Tcp.Connection.{write_queue_max_size}
use serverlib.Tcp.Connection.Queue.{Takes}
use serverlib.Tcp.Client.{
  TcpClient, Wakeup, async_send, connect, start, post_send, send, send_all, async_callback,
  io_callback,
}
use serverlib.Tcp.Client.Keeps.{
  written_bytes, Rests, watch-Rests, connect-Rests, io_callback-Carries,
}

-- After `count` calls of `Send()` with these bytes in all: what is written, queued and put off is,
-- in this order, what was given.
pub record IsClient (total : List ℕ) (count : ℕ) (c : TcpClient) : Type 0 where
  pub queued : AllBuffers c.write_queue
  pub posted : AllBuffers c.functions
  pub bounded : length c.write_queue + length c.functions ≤ count
  pub adds_up : written_bytes c.log ++ (pending c.write_queue ++ pending c.functions) ≡ total

send-Rests :
    (b : OutputBuffer) (c : TcpClient)
    → length c.write_queue ≤ write_queue_max_size
    → Rests (record c { write_queue = c.write_queue ++ b ∷ [] }) (send b c).0
unfolding send
send-Rests b c room =
    rw (le→ltb_false write_queue_max_size (length c.write_queue) room)
      (watch-Rests true (record c { write_queue = c.write_queue ++ b ∷ [] }))

-- While there is room, the calls that were put off append their buffers, in order.
send_all-Rests :
    (functions : List OutputBuffer) (c : TcpClient)
    → length c.write_queue + length functions ≤ suc write_queue_max_size
    → Rests (record c { write_queue = c.write_queue ++ functions }) (send_all functions c)
unfolding send_all
send_all-Rests [] c room = record {
  functions = refl;
  queue = sym (append-nil c.write_queue);
  written = refl;
}
send_all-Rests (b ∷ functions) c room =
    let s = send-Rests b c (omega arith) in
    let r =
      send_all-Rests functions (send b c).0
        (omega (arith, ap length s.queue, length-append c.write_queue (b ∷ []))) in
    record {
      functions = r.functions ∙ s.functions;
      queue =
          r.queue
          ∙ ap (λ (q : List OutputBuffer). q ++ functions) s.queue
          ∙ append_assoc c.write_queue (b ∷ []) functions;
      written = r.written ∙ s.written;
    }

pub async_callback-IsClient :
    (total : List ℕ) (count : ℕ) (c : TcpClient)
    → count ≤ suc write_queue_max_size
    → IsClient total count c
    → IsClient total count (async_callback c)
unfolding async_callback
async_callback-IsClient total count c few v =
    let r = send_all-Rests c.functions (record c { functions = [] }) (omega (arith, v.bounded)) in
    record {
      queued = rw r.queue (AllBuffers-append c.write_queue c.functions v.queued v.posted);
      posted = rw r.functions tt;
      bounded = omega (
        arith,
        ap length r.queue,
        ap length r.functions,
        v.bounded,
        length-append c.write_queue c.functions,
      );
      adds_up =
          rw (r.queue, r.functions, r.written, append-nil, pending-append c.write_queue c.functions)
            v.adds_up;
    }

pub io_callback-IsClient :
    (total : List ℕ) (count : ℕ) (w : Wakeup) (fd : ℤ) (c : TcpClient)
    → Takes w.write c.write_queue
    → IsClient total count c
    → IsClient total count (io_callback w fd c)
io_callback-IsClient total count w fd c h v =
    let k = io_callback-Carries w fd c v.queued h in
    record {
      queued = k.buffers;
      posted = rw k.functions v.posted;
      bounded = omega (arith, ap length k.functions, k.shorter, v.bounded);
      adds_up = rw k.functions (
          sym (append_assoc _ _ (pending c.functions))
          ∙ ap (λ (bytes : List ℕ). bytes ++ pending c.functions) k.adds_up
          ∙ append_assoc _ _ (pending c.functions)
          ∙ v.adds_up);
    }

pub Rests-IsClient :
    {c d : TcpClient} (total : List ℕ) (count : ℕ)
    → Rests c d
    → IsClient total count c
    → IsClient total count d
Rests-IsClient {c} {d} total count r v = record {
  queued = rw r.queue v.queued;
  posted = rw r.functions v.posted;
  bounded = omega (arith, ap length r.queue, ap length r.functions, v.bounded);
  adds_up = rw (r.queue, r.functions, r.written) v.adds_up;
}

pub start-Rests : (ip port : ℕ) (fd : ℤ) (c : TcpClient) → Rests c (start ip port fd c).0
unfolding start
start-Rests ip port fd c =
    let c₁ = record c { ip = ip; port = port; log = async_send ∷ c.log } in
    let r = connect-Rests fd c₁ in
    elim (Bool-cases (connect fd c₁).1) [
      | inl made ↦
          rw made (record { functions = r.functions; queue = r.queue; written = r.written })
      | inr failed ↦
          rw failed (record { functions = r.functions; queue = r.queue; written = r.written })
    ]

pub post_send-IsClient :
    (total : List ℕ) (count : ℕ) (bytes : List ℕ) (n : ℕ) (c : TcpClient)
    → n ≤ length bytes
    → IsClient total count c
    → Returns
        (post_send bytes (pos n) c >>= λ r. ok r.0)
        (IsClient (total ++ take n bytes) (count + 1))
unfolding post_send new_output_buffer
post_send-IsClient total count bytes n c h v = (
  (_),
  refl,
  record {
    queued = v.queued;
    posted =
        AllBuffers-append c.functions _ v.posted ((new_output_buffer_lem bytes n _ h refl).0, tt);
    bounded = omega (arith, v.bounded, length-append c.functions (_ ∷ []));
    adds_up =
        rw (pending-append c.functions (_ ∷ []), append-nil)
          (ap (◌++◌ (written_bytes c.log))
              (sym (append_assoc (pending c.write_queue) (pending c.functions) (take n bytes)))
            ∙ sym (append_assoc (written_bytes c.log) _ (take n bytes))
            ∙ ap (λ (xs : List ℕ). xs ++ take n bytes) v.adds_up);
  },
)

pub nothing_sent :
    {total : List ℕ} {count : ℕ} {c : TcpClient}
    → IsClient total count c
    → IsClient (total ++ []) (count + 0) c
nothing_sent {total} v = record {
  queued = v.queued;
  posted = v.posted;
  bounded = omega (arith, v.bounded);
  adds_up = v.adds_up ∙ sym (append-nil total);
}
