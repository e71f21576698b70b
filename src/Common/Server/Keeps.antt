-- ===== src/Common/Server/Keeps.antt =====
-- The invariant of `CCommonServer`, and the exceptions that a client's bytes can cause.
use serverlib.Prelude.{
  ℕ, suc, ◌≡◌, ◌≤◌, refl, ◌⊎◌, inl, inr, Bool-cases, List, ◌++◌, length, take, ◌==◌, arith,
}
use serverlib.Prelude.Int.{pos, negsuc}
use serverlib.Prelude.Run.{Run, Returns, Fault, fault, out_of_range, bad_alloc}
use serverlib.Socket.{SocketClientData}
use serverlib.OutputBuffer.{new_output_buffer}
use serverlib.Framing.{feed}
use serverlib.Framing.Ends.{drain-EndsWell}
use serverlib.Tcp.Channels.View.{Descriptor}
use serverlib.Tcp.Server.{
  TcpServer, Event, tcp_virtual, tell, on_disconnected, on_recv_error, on_send_error, on_timeout,
}
use serverlib.Tcp.Server.Invariant.{IsServer}
use serverlib.Tcp.Server.Loop.{Ends, Keeps}
use serverlib.Tcp.Server.Plain.{Never, tcp_virtual-Keeps}
use serverlib.Common.Server.{
  Dispatcher, CommonServer, handle_pkt, content, add_content, forgetting, remove_content,
  common_virtual,
}
use serverlib.Common.Server.Held.{IsHeld, dispatch-IsHeld}
use serverlib.Common.Server.Receive.{HasThreads, dispatch, dispatch-HasThreads, handle_pkt-dispatch}

-- A sound base class, as many threads as the server believes, and all the packets that were
-- dispatched, those of the dispatcher `d₀`, from which the history starts, before the others.
abbrev pub IsDispatcher : Dispatcher → Dispatcher → Type 0
IsDispatcher d₀ d = IsServer d.tcp × HasThreads d × IsHeld d₀ d

abbrev pub IsCommonServer : Dispatcher → CommonServer → Type 0
IsCommonServer d₀ s = IsDispatcher d₀ s.dispatcher

-- The exceptions of `substr` and of `new char[n]`.
abbrev pub BadLength : Fault → Type 0
BadLength f = (f ≡ out_of_range) ⊎ (f ≡ bad_alloc)

tell-IsServer : (e : Event) (s : TcpServer) → IsServer s → IsServer (tell e s)
tell-IsServer e s w = record {
  manager = w.manager;
  entries = w.entries;
  posted = w.posted;
  handle = w.handle;
}

dispatch-IsServer :
    (client : SocketClientData) (d : Dispatcher) (bytes : List ℕ)
    → IsServer d.tcp
    → IsServer (dispatch client d bytes).tcp
dispatch-IsServer client d bytes w = elim (Bool-cases (d.thread_num == 0)) [
  | inl alone ↦ rw alone (tell-IsServer _ d.tcp w)
  | inr more ↦ rw more w
]

-- What a packet that is handed on may do.
abbrev pub GoesOn : (Dispatcher → Type 0) → Run Dispatcher → Type 0
GoesOn Good r = Returns r Good ⊎ ((f : Fault) × (r ≡ fault f) × BadLength f)

-- Whatever `Good` is, if one client's packets keep it.
module _ (Good : Dispatcher → Type 0) (client : SocketClientData)
    (takes : (d : Dispatcher) (bytes : List ℕ) (k : ℕ)
      → Good d
      → k ≤ length bytes
      → GoesOn Good (handle_pkt client d bytes (pos k)))
    (refuses : (d : Dispatcher) (bytes : List ℕ) (k : ℕ)
      → Good d
      → GoesOn Good (handle_pkt client d bytes (negsuc k))) where
  pub add_content-Ends :
      (bytes : List ℕ) (s : CommonServer)
      → Good s.dispatcher
      → Ends common_virtual
          (λ (s' : CommonServer). Good s'.dispatcher)
          BadLength
          (add_content client bytes s)
  unfolding add_content feed
  add_content-Ends bytes s w =
      elim (drain-EndsWell (handle_pkt client) Good BadLength (inl refl)
        (λ d buf k g fits. takes d buf k g fits) (λ d buf k g. refuses d buf k g)
        (suc (length (content client s ++ bytes))) s.dispatcher (content client s ++ bytes)
        (omega arith) w) [
          | inl ((d, left), ran, g) ↦ rw ran (inl (_, refl, g))
          | inr (f, threw, a) ↦ rw threw (inr (f, refl, a))
        ]

-- If packets keep it, and changes of the base class do.
module _ (Good : Dispatcher → Type 0) (sound : (d : Dispatcher) → Good d → IsServer d.tcp)
    (rebased : (t : TcpServer) (d : Dispatcher) → IsServer t → Good d → Good (record d { tcp = t }))
    (takes : (client : SocketClientData) (n : ℕ) (d : Dispatcher) (bytes : List ℕ) (k : ℕ)
      → Descriptor client n
      → Good d
      → k ≤ length bytes
      → GoesOn Good (handle_pkt client d bytes (pos k)))
    (refuses : (client : SocketClientData) (d : Dispatcher) (bytes : List ℕ) (k : ℕ)
      → Good d
      → GoesOn Good (handle_pkt client d bytes (negsuc k))) where
  abbrev GoodServer : CommonServer → Type 0
  GoodServer s = Good s.dispatcher

  -- The class's overrides of the members that let a client go.
  forgetting-Ends :
      (member : TcpServer → Run TcpServer) (client : SocketClientData) (s : CommonServer)
      → Ends tcp_virtual IsServer Never (member s.dispatcher.tcp)
      → GoodServer s
      → Ends common_virtual GoodServer BadLength (forgetting member client s)
  unfolding forgetting remove_content
  forgetting-Ends member client s (inl (t, ran, w')) w =
      rw ran (inl (_, refl, rebased t s.dispatcher w' w))
  forgetting-Ends member client s (inr (f, threw, a)) w = absurd a

  pub good-Keeps : Keeps common_virtual GoodServer BadLength
  good-Keeps = record {
    base_of = λ t s. refl;
    sound = λ s w. sound s.dispatcher w;
    rebased = λ t s w' w. rebased t s.dispatcher w' w;
    disconnected = λ client n e s d w.
        forgetting-Ends (on_disconnected client e) client s
          (tcp_virtual-Keeps.disconnected client n e s.dispatcher.tcp d (sound s.dispatcher w)) w;
    recv_error = λ client n e s d w.
        forgetting-Ends (on_recv_error client e) client s
          (tcp_virtual-Keeps.recv_error client n e s.dispatcher.tcp d (sound s.dispatcher w)) w;
    send_error = λ client n e s d w.
        forgetting-Ends (on_send_error client e) client s
          (tcp_virtual-Keeps.send_error client n e s.dispatcher.tcp d (sound s.dispatcher w)) w;
    timed_out = λ client n s d w.
        forgetting-Ends (on_timeout client) client s
          (tcp_virtual-Keeps.timed_out client n s.dispatcher.tcp d (sound s.dispatcher w)) w;
    data_received = λ client n bytes s here w.
        add_content-Ends Good client (λ d buf k g fits. takes client n d buf k here g fits)
          (λ d buf k g. refuses client d buf k g) bytes s w;
  }

-- A packet with a length that has wrapped to a negative number.
refuses :
    (d₀ : Dispatcher) (client : SocketClientData) (d : Dispatcher) (bytes : List ℕ) (n : ℕ)
    → IsDispatcher d₀ d
    → GoesOn (IsDispatcher d₀) (handle_pkt client d bytes (negsuc n))
unfolding handle_pkt new_output_buffer
refuses d₀ client d bytes n (w, h, k) = elim (Bool-cases (d.thread_num == 0)) [
  | inl alone ↦ rw alone (
      inl (
        _,
        refl,
        (
          tell-IsServer _ d.tcp w,
          h,
          record { claims = k.claims; counted = k.counted; grown = k.grown },
        ),
      ))
  | inr more ↦ rw more (inr (bad_alloc, refl, inr refl))
]

pub rebased_dispatcher :
    (d₀ : Dispatcher) (t : TcpServer) (d : Dispatcher)
    → IsServer t
    → IsDispatcher d₀ d
    → IsDispatcher d₀ (record d { tcp = t })
rebased_dispatcher d₀ t d w' (w, h, k) =
    (w', h, record { claims = k.claims; counted = k.counted; grown = k.grown })

pub dispatch-IsDispatcher :
    (d₀ : Dispatcher) (client : SocketClientData) (d : Dispatcher) (bytes : List ℕ)
    → IsDispatcher d₀ d
    → IsDispatcher d₀ (dispatch client d bytes)
dispatch-IsDispatcher d₀ client d bytes g = (
  dispatch-IsServer client d bytes g.0,
  dispatch-HasThreads client d bytes g.1,
  dispatch-IsHeld client d₀ d bytes g.1 g.2,
)

pub common_virtual-Keeps : (d₀ : Dispatcher) → Keeps common_virtual (IsCommonServer d₀) BadLength
common_virtual-Keeps d₀ =
    good-Keeps (IsDispatcher d₀) (λ d g. g.0) (rebased_dispatcher d₀)
      (λ client n d bytes k here g fits. inl (
        dispatch client d (take k bytes),
        handle_pkt-dispatch client d bytes k g.1 fits,
        dispatch-IsDispatcher d₀ client d (take k bytes) g,
      ))
      (refuses d₀)
