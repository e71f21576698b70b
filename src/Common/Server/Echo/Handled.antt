-- ===== src/Common/Server/Echo/Handled.antt =====
-- What the threads have handled, and what changes it.
use serverlib.Prelude.{
  ℕ, zero, suc, ◌<◌, ◌≡◌, refl, sym, ap, ◌∙◌, false, Bool-cases, inl, inr, List, [], ◌∷◌, ◌++◌,
  append-nil, List-cases, get_elem?, get_or, if◌then◌else◌, set, length, ◌==◌, none, arith,
}
use serverlib.Socket.{SocketClientData}
use serverlib.Common.Threads.{
  PktData, PktHandleThread, Pc, testing, waiting, ended, sized, taking, handling, new_thread,
  add_pkt, take_pkt, work, handle_pkt,
}
use serverlib.Common.Threads.Order.{in_hand}
use serverlib.Common.Server.{Dispatcher, common_virtual, next_thread}
use serverlib.Common.Server.Receive.{HasThreads, packet_buffer, dispatch, next_thread-lt}
use serverlib.Common.Server.Held.{get_elem?-cases, works_at}
use serverlib.Common.Server.Echo.{hand_at, handled_at}

-- One thread changes.
set-handled :
    (news : List PktData) (ts : List PktHandleThread) (i j : ℕ) (u : PktHandleThread)
    → i < length ts
    → u.handled ≡ (get_or ts i new_thread).handled ++ news
    → (get_or (set ts i u) j new_thread).handled
      ≡ (get_or ts j new_thread).handled ++ (if i == j then news else [])
set-handled news [] i j u here e = absurd (omega arith)
set-handled news (t ∷ ts) zero zero u here e = e
set-handled news (t ∷ ts) zero (suc j) u here e =
    let apart : (0 == suc j) ≡ false = ground arith in rw apart (sym (append-nil _))
set-handled news (t ∷ ts) (suc i) zero u here e =
    let apart : (suc i == 0) ≡ false = ground arith in rw apart (sym (append-nil _))
set-handled news (t ∷ ts) (suc i) (suc j) u here e =
    let both : (suc i == suc j) ≡ (i == j) = ground arith in
    rw both (set-handled news ts i j u (omega arith) e)

pub dispatch-handled :
    (client : SocketClientData) (d : Dispatcher) (bytes : List ℕ) (i : ℕ)
    → HasThreads d
    → handled_at i (dispatch client d bytes) ≡ handled_at i d
unfolding add_pkt
dispatch-handled client d bytes i h = elim (Bool-cases (d.thread_num == 0)) [
  | inl alone ↦ rw alone refl
  | inr more ↦ rw more (
      set-handled [] d.threads (next_thread d) i
        (add_pkt (client, packet_buffer bytes) (get_or d.threads (next_thread d) new_thread))
        (next_thread-lt d h more) (sym (append-nil _))
      ∙ elim (Bool-cases (next_thread d == i)) [
        | inl one ↦ rw one (append-nil (handled_at i d))
        | inr two ↦ rw two (append-nil (handled_at i d))
      ])
]

work-handled : (pc : Pc) (t : PktHandleThread) → (work pc t).handled ≡ t.handled ++ in_hand pc
unfolding work take_pkt
work-handled testing t = elim (Bool-cases t.running) [
  | inl on ↦ rw on (sym (append-nil t.handled))
  | inr off ↦ rw off (sym (append-nil t.handled))
]
work-handled (sized zero) t = elim (Bool-cases t.running) [
  | inl on ↦ rw on (sym (append-nil t.handled))
  | inr off ↦ rw off (sym (append-nil t.handled))
]
work-handled (sized (suc n)) t = sym (append-nil t.handled)
work-handled waiting t = sym (append-nil t.handled)
work-handled ended t = sym (append-nil t.handled)
work-handled (taking zero) t = sym (append-nil t.handled)
work-handled (taking (suc n)) t = elim (List-cases t.queue) [
  | inl empty ↦ rw (empty, take_pkt) (sym (append-nil t.handled))
  | inr (p, rest, full) ↦ rw (full, take_pkt) (sym (append-nil t.handled))
]
work-handled (handling n p) t = refl

get_or_absent :
    (ts : List PktHandleThread) (i : ℕ)
    → get_elem? ts i ≡ none
    → get_or ts i new_thread ≡ new_thread
get_or_absent [] i e = refl
get_or_absent (t ∷ ts) zero e = cc
get_or_absent (t ∷ ts) (suc i) e = get_or_absent ts i e

-- A thread that is not there has nothing in hand.
nothing_in_hand :
    (i j : ℕ) (d : Dispatcher)
    → get_elem? d.threads i ≡ none
    → (if i == j then hand_at i d else []) ≡ []
unfolding new_thread
nothing_in_hand i j d absent = elim (Bool-cases (i == j)) [
  | inl one ↦ rw (one, hand_at, get_or_absent d.threads i absent) refl
  | inr two ↦ rw two refl
]

pub works_at-handled :
    (i j : ℕ) (d : Dispatcher)
    → handled_at j (works_at i d) ≡ handled_at j d ++ (if i == j then hand_at i d else [])
unfolding works_at
works_at-handled i j d = elim (get_elem?-cases d.threads i new_thread) [
  | inl absent ↦
      rw (works_at, absent)
        (sym (append-nil _) ∙ ap (◌++◌ (handled_at j d)) (sym (nothing_in_hand i j d absent)))
  | inr (here, e) ↦
      rw (works_at, e)
        (set-handled (hand_at i d) d.threads i j (handle_pkt (get_or d.threads i new_thread)) here
          (work-handled (get_or d.threads i new_thread).pc (get_or d.threads i new_thread)))
]
