-- ===== src/Common/Server/Held.antt =====
-- The packets that the threads of a common server hold or have handled.
use mathlib.Core.Path.{subst}
use serverlib.Prelude.{
  get_elem?, none, some, ◌⊎◌, length-set, ℕ, zero, suc, ◌+◌, ◌%◌, ◌^◌, ◌≤◌, ◌<◌, ◌≡◌, refl, sym, ap,
  ◌∙◌, Bool-cases, inl, inr, List, [], ◌∷◌, ◌++◌, append-nil, append_assoc, get_or, get_or-set_self,
  get_or-set_ne, set, length, length-append, ◌==◌, ℕ_discrete, arith,
}
use serverlib.Socket.{SocketClientData}
use serverlib.Common.Threads.{PktData, PktHandleThread, new_thread, add_pkt, handle_pkt}
use serverlib.Common.Threads.Order.{in_hand, claimed, work-IsThread, act, adds, act-IsThread}
use serverlib.Common.Server.{Dispatcher, next_thread}
use serverlib.Common.Server.Receive.{HasThreads, packet_buffer, dispatch, next_thread-lt}

-- What a thread has handled, has in hand and has queued.
abbrev pub held : PktHandleThread → List PktData
held t = t.handled ++ (in_hand t.pc ++ t.queue)

abbrev pub held_num : List PktHandleThread → ℕ
held_num [] = 0
held_num (t ∷ ts) = length (held t) + held_num ts

-- No thread is about to take more than is queued.
abbrev pub AllClaim : List PktHandleThread → Type 0
AllClaim [] = Unit {0}
AllClaim (t ∷ ts) = (claimed t.pc ≤ length t.queue) × AllClaim ts

abbrev pub Extends : PktHandleThread → PktHandleThread → Type 0
Extends t u = (more : List PktData) × (held u ≡ held t ++ more)

-- The counter is how many packets there have been, and since `d₀` each thread has lost none, and
-- put each new one behind those that it had.
pub record IsHeld (d₀ d : Dispatcher) : Type 0 where
  pub claims : AllClaim d.threads
  pub counted : held_num d.threads % 2 ^ 64 ≡ d.count
  pub grown : (i : ℕ) → Extends (get_or d₀.threads i new_thread) (get_or d.threads i new_thread)

-- What one step does to one thread.
pub record Takes (news : List PktData) (t u : PktHandleThread) : Type 0 where
  pub claims : claimed t.pc ≤ length t.queue → claimed u.pc ≤ length u.queue
  pub holds : claimed t.pc ≤ length t.queue → held u ≡ held t ++ news

pub handle_pkt-Takes : (t : PktHandleThread) → Takes [] t (handle_pkt t)
handle_pkt-Takes t = record {
  claims = λ h. (work-IsThread (held t) t.pc t refl (record { kept = refl; enough = h })).enough;
  holds = λ h.
      (work-IsThread (held t) t.pc t refl (record { kept = refl; enough = h })).kept
      ∙ sym (append-nil (held t));
}

pub add_pkt-Takes : (p : PktData) (t : PktHandleThread) → Takes (p ∷ []) t (add_pkt p t)
unfolding act
add_pkt-Takes p t = record {
  claims = λ h. (act-IsThread (held t) t (adds p) (record { kept = refl; enough = h })).enough;
  holds = λ h. (act-IsThread (held t) t (adds p) (record { kept = refl; enough = h })).kept;
}

pub AllClaim-get_or :
    (ts : List PktHandleThread) (i : ℕ)
    → AllClaim ts
    → i < length ts
    → let t = get_or ts i new_thread in claimed t.pc ≤ length t.queue
AllClaim-get_or [] i h k = absurd (omega arith)
AllClaim-get_or (t ∷ ts) zero h k = h.0
AllClaim-get_or (t ∷ ts) (suc i) h k = AllClaim-get_or ts i h.1 (omega arith)

AllClaim-set :
    (ts : List PktHandleThread) (i : ℕ) (u : PktHandleThread)
    → AllClaim ts
    → claimed u.pc ≤ length u.queue
    → AllClaim (set ts i u)
AllClaim-set [] i u h k = tt
AllClaim-set (t ∷ ts) zero u h k = (k, h.1)
AllClaim-set (t ∷ ts) (suc i) u h k = (h.0, AllClaim-set ts i u h.1 k)

held_num-set :
    (ts : List PktHandleThread) (i : ℕ) (u : PktHandleThread)
    → i < length ts
    → held_num (set ts i u) + length (held (get_or ts i new_thread)) ≡ held_num ts + length (held u)
held_num-set [] i u h = absurd (omega arith)
held_num-set (t ∷ ts) zero u h = omega arith
held_num-set (t ∷ ts) (suc i) u h = omega (arith, held_num-set ts i u (omega arith))

-- One thread takes a step.
set-IsHeld :
    (d₀ d : Dispatcher) (i count : ℕ) (u : PktHandleThread) (news : List PktData)
    → i < length d.threads
    → (d.count + length news) % 2 ^ 64 ≡ count
    → Takes news (get_or d.threads i new_thread) u
    → IsHeld d₀ d
    → IsHeld d₀ (record d { count = count; threads = set d.threads i u })
set-IsHeld d₀ d i count u news here counts takes w = record {
  claims = AllClaim-set d.threads i u w.claims (takes.claims claim);
  counted = omega (
    arith,
    counts,
    w.counted,
    held_num-set d.threads i u here,
    ap length (takes.holds claim),
    length-append (held (get_or d.threads i new_thread)) news,
  );
  grown = λ j. elim (ℕ_discrete i j) [
    | yes one ↦
        subst
          (λ (k : ℕ).
            Extends (get_or d₀.threads k new_thread) (get_or (set d.threads i u) k new_thread))
          one grown_here
    | no other ↦ rw (get_or-set_ne d.threads i j u new_thread other) (w.grown j)
  ];
}
  where
    claim : let t = get_or d.threads i new_thread in claimed t.pc ≤ length t.queue
    claim = AllClaim-get_or d.threads i w.claims here

    grown_here : Extends (get_or d₀.threads i new_thread) (get_or (set d.threads i u) i new_thread)
    grown_here = rw (get_or-set_self d.threads i u new_thread here) (
        let (more, e) = w.grown i in
        (
          more ++ news,
          takes.holds claim
              ∙ ap (λ (xs : List PktData). xs ++ news) e
              ∙ append_assoc (held (get_or d₀.threads i new_thread)) more news,
        ))

pub dispatch-IsHeld :
    (client : SocketClientData) (d₀ d : Dispatcher) (bytes : List ℕ)
    → HasThreads d
    → IsHeld d₀ d
    → IsHeld d₀ (dispatch client d bytes)
dispatch-IsHeld client d₀ d bytes h w = elim (Bool-cases (d.thread_num == 0)) [
  | inl alone ↦ rw alone (record { claims = w.claims; counted = w.counted; grown = w.grown })
  | inr more ↦ rw more (
      set-IsHeld d₀ d (next_thread d) ((d.count + 1) % 2 ^ 64)
        (add_pkt (client, packet_buffer bytes) (get_or d.threads (next_thread d) new_thread))
        ((client, packet_buffer bytes) ∷ []) (next_thread-lt d h more) refl
        (add_pkt-Takes (client, packet_buffer bytes) (get_or d.threads (next_thread d) new_thread))
        w)
]

-- A step of one of the threads, or of none if there is no such one.
unfoldable pub works_at : ℕ → Dispatcher → Dispatcher
works_at i d = elim (get_elem? d.threads i) [
  | none ↦ d
  | some t ↦ record d { threads = set d.threads i (handle_pkt t) }
]

pub get_elem?-cases :
    {A : Type 0} (ts : List A) (i : ℕ) (t₀ : A)
    → (get_elem? ts i ≡ none) ⊎ ((i < length ts) × (get_elem? ts i ≡ some (get_or ts i t₀)))
get_elem?-cases [] i t₀ = inl refl
get_elem?-cases (t ∷ ts) zero t₀ = inr (omega arith, refl)
get_elem?-cases (t ∷ ts) (suc i) t₀ = elim (get_elem?-cases ts i t₀) [
  | inl e ↦ inl e
  | inr (h, e) ↦ inr (omega (arith, h), e)
]

pub works_at-IsHeld :
    (d₀ d : Dispatcher) (i : ℕ)
    → HasThreads d
    → IsHeld d₀ d
    → HasThreads (works_at i d) × IsHeld d₀ (works_at i d)
unfolding works_at
works_at-IsHeld d₀ d i h w = elim (get_elem?-cases d.threads i new_thread) [
  | inl absent ↦ rw (works_at, absent) (h, w)
  | inr (here, e) ↦
      rw (works_at, e)
        (
          length-set d.threads i (handle_pkt (get_or d.threads i new_thread)) ∙ h,
          set-IsHeld d₀ d i d.count (handle_pkt (get_or d.threads i new_thread)) [] here
              (omega (arith, w.counted)) (handle_pkt-Takes (get_or d.threads i new_thread)) w,
        )
]
