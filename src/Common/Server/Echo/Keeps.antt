-- ===== src/Common/Server/Echo/Keeps.antt =====
-- The echo server keeps its invariant, in the members of the server and in its threads.
use serverlib.Prelude.{
  ℕ, zero, suc, ◌<◌, refl, ap, ◌∙◌, inl, inr, List, [], ◌∷◌, ◌++◌, get_or, if◌then◌else◌, set,
  length, take, ◌==◌, Bool, true, false, sym, append-nil, append_assoc, ◌≡◌, arith,
}
use serverlib.Prelude.Int.{pos}
use serverlib.Prelude.Run.{Run, ok, fault, Returns, bad_alloc}
use serverlib.Socket.{SocketClientData}
use serverlib.OutputBuffer.{get_data_pos, get_bytes, new_output_buffer}
use serverlib.OutputBuffer.Pending.{get_bytes-length}
use serverlib.Tcp.Channels.{SocketInfoManager}
use serverlib.Tcp.Channels.View.{Descriptor}
use serverlib.Tcp.Connection.{Connection}
use serverlib.Tcp.Server.{TcpServer, post_send}
use serverlib.Tcp.Server.Invariant.{IsServer, AllPosted, AllPosted-append, post_send-IsServer}
use serverlib.Tcp.Connection.Stream.{take_all}
use serverlib.Tcp.Server.Loop.{Keeps}
use serverlib.Common.Threads.{PktData, PktHandleThread, new_thread}
use serverlib.Common.Threads.Order.{in_hand}
use serverlib.Common.Server
use serverlib.Common.Server.{Dispatcher, CommonServer, with_tcp, common_virtual, next_thread}
use serverlib.Common.Server.Receive.{packet_buffer, dispatch, handle_pkt-dispatch, next_thread-lt}
use serverlib.Common.Server.Held.{
  held, AllClaim, AllClaim-get_or, Takes, handle_pkt-Takes, add_pkt-Takes, get_elem?-cases,
  works_at, works_at-IsHeld,
}
use serverlib.Common.Server.Keeps.{BadLength, good-Keeps, rebased_dispatcher, dispatch-IsDispatcher}
use serverlib.Common.Server.Turns.{works_at-tcp}
use serverlib.Common.Server.Echo.{
  copy, copies, handled_at, hand_at, send_back, AllSound, IsEchoing, IsEchoServer,
}
use serverlib.Common.Server.Echo.Handled.{dispatch-handled, works_at-handled}

AllSound-get_or :
    (ts : List PktHandleThread) (i : ℕ) → AllSound ts → AllPosted (held (get_or ts i new_thread))
unfolding new_thread
AllSound-get_or [] i w = tt
AllSound-get_or (t ∷ ts) zero w = w.0
AllSound-get_or (t ∷ ts) (suc i) w = AllSound-get_or ts i w.1

AllSound-set :
    (ts : List PktHandleThread) (i : ℕ) (u : PktHandleThread)
    → AllSound ts
    → AllPosted (held u)
    → AllSound (set ts i u)
AllSound-set [] i u w h = tt
AllSound-set (t ∷ ts) zero u w h = (h, w.1)
AllSound-set (t ∷ ts) (suc i) u w h = (w.0, AllSound-set ts i u w.1 h)

set-AllSound :
    (news : List PktData) (ts : List PktHandleThread) (i : ℕ) (u : PktHandleThread)
    → i < length ts
    → AllClaim ts
    → Takes news (get_or ts i new_thread) u
    → AllPosted news
    → AllSound ts
    → AllSound (set ts i u)
set-AllSound news ts i u here claims takes sound w = AllSound-set ts i u w (
    rw (takes.holds (AllClaim-get_or ts i claims here))
      (AllPosted-append (held (get_or ts i new_thread)) news (AllSound-get_or ts i w) sound))

dispatch-IsEchoing :
    (d₀ : Dispatcher) (past : ℕ → List PktData) (client : SocketClientData) (n : ℕ) (d : Dispatcher)
    (bytes : List ℕ)
    → Descriptor client n
    → IsEchoing d₀ past d
    → IsEchoing d₀ past (dispatch client d bytes)
dispatch-IsEchoing d₀ past client n d bytes here (w, sound, more, done) = (
  dispatch-IsDispatcher d₀ client d bytes w,
  rw more (
      set-AllSound ((client, packet_buffer bytes) ∷ []) d.threads (next_thread d) _
        (next_thread-lt d w.1 more) w.2.claims
        (add_pkt-Takes (client, packet_buffer bytes) (get_or d.threads (next_thread d) new_thread))
        ((n, here), record { sized = refl; within = omega arith }, tt) sound),
  rw more more,
  λ i. ap copies (dispatch-handled client d bytes i w.1) ∙ done i,
)

pub echo-Keeps :
    (d₀ : Dispatcher) (past : ℕ → List PktData)
    → Keeps common_virtual (IsEchoServer d₀ past) BadLength
unfolding Server.handle_pkt new_output_buffer
echo-Keeps d₀ past =
    good-Keeps (IsEchoing d₀ past) (λ d g. g.0.0)
      (λ t d w' g. (rebased_dispatcher d₀ t d w' g.0, g.1, g.2, g.3))
      (λ client n d bytes k here g fits. inl (
        dispatch client d (take k bytes),
        handle_pkt-dispatch client d bytes k g.0.1 fits,
        dispatch-IsEchoing d₀ past client n d (take k bytes) here g,
      ))
      (λ client d bytes k g. inr (bad_alloc, rw g.2 refl, inr refl))

copies-append : (xs ys : List PktData) → copies (xs ++ ys) ≡ copies xs ++ copies ys
copies-append [] ys = refl
copies-append (x ∷ xs) ys = ap (◌∷◌ (copy x)) (copies-append xs ys)

copies_if :
    (b : Bool) (xs : List PktData) → copies (if b then xs else []) ≡ (if b then copies xs else [])
copies_if true xs = refl
copies_if false xs = refl

abbrev put_off : Run (TcpServer × Bool) → List PktData
put_off (ok r) = r.0.functions
put_off (fault _) = []

abbrev manager_after : TcpServer → Run (TcpServer × Bool) → SocketInfoManager Connection
manager_after s (ok r) = r.0.manager
manager_after s (fault _) = s.manager

manager_after-post_send :
    (client : SocketClientData) (bytes : List ℕ) (k : ℕ) (s : TcpServer)
    → manager_after s (post_send client bytes (pos k) s) ≡ s.manager
unfolding post_send new_output_buffer
manager_after-post_send client bytes k s = refl

put_off-post_send :
    (client : SocketClientData) (bytes : List ℕ) (s : TcpServer)
    → put_off (post_send client bytes (pos (length bytes)) s)
      ≡ s.functions ++ (client, packet_buffer bytes) ∷ []
unfolding post_send new_output_buffer
put_off-post_send client bytes s = rw (take_all (length bytes) bytes (omega arith)) refl

-- `Send` puts off copies, and changes no connection.
abbrev pub PutsOff : List PktData → TcpServer → TcpServer → Type 0
PutsOff packets s t =
    IsServer t × (t.functions ≡ s.functions ++ copies packets) × (t.manager ≡ s.manager)

posts_copy :
    (p : PktData) (s : TcpServer)
    → AllPosted (p ∷ [])
    → IsServer s
    → Returns (post_send p.0 (get_data_pos p.1) (get_bytes p.1) s) (λ r. PutsOff (p ∷ []) s r.0)
posts_copy (client, buffer) s h w =
    let bytes = get_data_pos buffer in
    let (r, ran, w') = post_send-IsServer client bytes (length bytes) s h.0 (omega arith) w in
    rw (get_bytes-length buffer h.1) (
      r,
      ran,
      (
        w',
        ap put_off (sym ran) ∙ put_off-post_send client bytes s,
        ap (manager_after s) (sym ran) ∙ manager_after-post_send client bytes (length bytes) s,
      ),
    )

pub send_back-copies :
    (packets : List PktData) (s : TcpServer)
    → AllPosted packets
    → IsServer s
    → Returns (send_back packets s) (PutsOff packets s)
unfolding send_back
send_back-copies [] s h w = (s, refl, (w, sym (append-nil s.functions), refl))
send_back-copies (p ∷ packets) s h w =
    let (r, ran, (w', e, m)) = posts_copy p s (h.0, h.1, tt) w in
    let (t, ran', (w'', e', m')) = send_back-copies packets r.0 h.2 w' in
    rw ran (
      t,
      ran',
      (
        w'',
        e'
            ∙ ap (λ (xs : List PktData). xs ++ copies packets) e
            ∙ append_assoc s.functions (copy p ∷ []) (copies packets),
        m' ∙ m,
      ),
    )

AllPosted-right : (xs ys : List PktData) → AllPosted (xs ++ ys) → AllPosted ys
AllPosted-right [] ys h = h
AllPosted-right (x ∷ xs) ys h = AllPosted-right xs ys h.2

AllPosted-left : (xs ys : List PktData) → AllPosted (xs ++ ys) → AllPosted xs
AllPosted-left [] ys h = tt
AllPosted-left (x ∷ xs) ys h = (h.0, h.1, AllPosted-left xs ys h.2)

pub hand_at-AllPosted : (i : ℕ) (d : Dispatcher) → AllSound d.threads → AllPosted (hand_at i d)
hand_at-AllPosted i d w =
    let t = get_or d.threads i new_thread in
    AllPosted-left (in_hand t.pc) t.queue
      (AllPosted-right t.handled (in_hand t.pc ++ t.queue) (AllSound-get_or d.threads i w))

pub works_at-IsEchoing :
    (d₀ : Dispatcher) (past : ℕ → List PktData) (d : Dispatcher) (i : ℕ)
    → IsEchoing d₀ past d
    → IsEchoing d₀ (λ j. past j ++ (if i == j then copies (hand_at i d) else [])) (works_at i d)
unfolding works_at
works_at-IsEchoing d₀ past d i (w, sound, more, done) = (
  (
    rw (works_at-tcp i d) w.0,
    (works_at-IsHeld d₀ d i w.1 w.2).0,
    (works_at-IsHeld d₀ d i w.1 w.2).1,
  ),
  elim (get_elem?-cases d.threads i new_thread) [
    | inl absent ↦ rw (works_at, absent) sound
    | inr (here, e) ↦
        rw (works_at, e)
          (set-AllSound [] d.threads i _ here w.2.claims
            (handle_pkt-Takes (get_or d.threads i new_thread)) tt sound)
  ],
  elim (get_elem?-cases d.threads i new_thread) [
    | inl absent ↦ rw (works_at, absent) more
    | inr (here, e) ↦ rw (works_at, e) more
  ],
  λ j.
      ap copies (works_at-handled i j d)
      ∙ copies-append (handled_at j d) _
      ∙ ap (λ (xs : List PktData). xs ++ copies (if i == j then hand_at i d else [])) (done j)
      ∙ ap (◌++◌ (past j)) (copies_if (i == j) (hand_at i d)),
)
