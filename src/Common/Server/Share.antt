-- ===== src/Common/Server/Share.antt =====
-- How packets are shared out among the threads.
use serverlib.Prelude.{
  ℕ, ◌+◌, ◌%◌, ◌<◌, ◌^◌, ◌≡◌, refl, sym, ap, ◌∙◌, false, Bool-cases, inl, inr, List, [], ◌∷◌, ◌++◌,
  append-nil, append_assoc, get_or, get_or-set_self, get_or-set_ne, ◌==◌, if◌then◌else◌, arith,
}
use serverlib.Prelude.Run.{Returns}
use serverlib.Socket.{SocketClientData}
use serverlib.Framing.Rounds.{packet}
use serverlib.Framing.Cut.{stream, join, IsSized, IsBounded}
use serverlib.Framing.Stream.{puts_by}
use serverlib.Common.Threads.{PktData, PktHandleThread, new_thread, add_pkt}
use serverlib.Common.Server.{Dispatcher, CommonServer, next_thread, content}
use serverlib.Common.Server.Receive.{
  HasThreads, packet_buffer, dispatch, dispatch-HasThreads, receive_all, receive_all-stream,
}

abbrev pub queue_of : Dispatcher → ℕ → List PktData
queue_of d i = (get_or d.threads i new_thread).queue

-- Of packets that are dispatched from the count `c` on, those for the thread `i` of `n`: those at
-- which the count's low 32 bits are `i` modulo `n`.
abbrev pub share : ℕ → ℕ → ℕ → SocketClientData → List (List ℕ) → List PktData
share n c i client [] = []
share n c i client (body ∷ bodies) =
    (if c % 2 ^ 32 % n == i then (client, packet_buffer (packet body)) ∷ [] else [])
    ++ share n ((c + 1) % 2 ^ 64) i client bodies

next_thread-eq : (d : Dispatcher) → next_thread d ≡ d.count % 2 ^ 32 % d.thread_num
unfolding next_thread
next_thread-eq d = refl

dispatch-queue :
    (client : SocketClientData) (d : Dispatcher) (bytes : List ℕ) (i : ℕ)
    → HasThreads d
    → (d.thread_num == 0) ≡ false
    → i < d.thread_num
    → queue_of (dispatch client d bytes) i
      ≡ queue_of d i
        ++ (if d.count % 2 ^ 32 % d.thread_num == i then (client, packet_buffer bytes) ∷ [] else [])
unfolding add_pkt
dispatch-queue client d bytes i h more fits =
    elim (Bool-cases (d.count % 2 ^ 32 % d.thread_num == i)) [
      | inl here ↦
          let at_turn : d.count % 2 ^ 32 % d.thread_num ≡ i = ground arith in
          rw (more, here, next_thread-eq d, at_turn)
            (ap (λ (t : PktHandleThread). t.queue)
              (get_or-set_self d.threads i _ new_thread (omega (arith, h))))
      | inr other ↦
          rw (more, other, next_thread-eq d)
            (ap (λ (t : PktHandleThread). t.queue)
                (get_or-set_ne d.threads (d.count % 2 ^ 32 % d.thread_num) i _ new_thread
                  (λ e. absurd (ground (arith, e))))
              ∙ sym (append-nil _))
    ]

dispatch_next :
    (client : SocketClientData) (d : Dispatcher) (bytes : List ℕ)
    → (d.thread_num == 0) ≡ false
    → ((dispatch client d bytes).thread_num ≡ d.thread_num)
      × ((dispatch client d bytes).count ≡ (d.count + 1) % 2 ^ 64)
dispatch_next client d bytes more = rw more (refl, refl)

-- Of a server with threads, as many as it believes: each thread's queue grows by exactly the packets
-- whose turn it is, in order; the counter goes round the threads.
puts_by-share :
    (client : SocketClientData) (bodies : List (List ℕ)) (d : Dispatcher) (i : ℕ)
    → HasThreads d
    → (d.thread_num == 0) ≡ false
    → i < d.thread_num
    → queue_of (puts_by (dispatch client) d bodies) i
      ≡ queue_of d i ++ share d.thread_num d.count i client bodies
puts_by-share client [] d i h more fits = sym (append-nil _)
puts_by-share client (body ∷ bodies) d i h more fits =
    puts_by-share client bodies d' i (dispatch-HasThreads client d (packet body) h)
      (ap (λ (k : ℕ). k == 0) n.0 ∙ more) (rw n.0 fits)
    ∙ rw (n.0, n.1, dispatch-queue client d (packet body) i h more fits)
        (append_assoc (queue_of d i) _
          (share d.thread_num ((d.count + 1) % 2 ^ 64) i client bodies))
  where
    d' : Dispatcher
    d' = dispatch client d (packet body)

    n : (d'.thread_num ≡ d.thread_num) × (d'.count ≡ (d.count + 1) % 2 ^ 64)
    n = dispatch_next client d (packet body) more

-- Of a server with threads, as many as it believes, that holds nothing of the client, and for bodies
-- that are not empty and chunks that are short enough for an `int`: however the client's packets are
-- cut into chunks, they are all taken without a fault, and each thread's queue has grown by exactly
-- the packets whose turn it is, whole and in order; the counter goes round the threads.
pub receive_all-share :
    (most chunk : ℕ) (client : SocketClientData) (bodies chunks : List (List ℕ)) (s : CommonServer)
    (i : ℕ)
    → HasThreads s.dispatcher
    → (s.dispatcher.thread_num == 0) ≡ false
    → i < s.dispatcher.thread_num
    → content client s ≡ []
    → IsSized most bodies
    → IsBounded chunk chunks
    → most + 4 + chunk < 2 ^ 31
    → join chunks ≡ stream bodies
    → Returns (receive_all client chunks s) (λ t.
      queue_of t.dispatcher i
      ≡ queue_of s.dispatcher i ++ share s.dispatcher.thread_num s.dispatcher.count i client bodies)
receive_all-share most chunk client bodies chunks s i threads more at empty sized bounded fits e =
    let (t, ran, r) =
      receive_all-stream most chunk client bodies chunks s threads empty sized bounded fits e in
    (
      t,
      ran,
      ap (λ (d : Dispatcher). queue_of d i) r.dispatcher
          ∙ puts_by-share client bodies s.dispatcher i threads more at,
    )
