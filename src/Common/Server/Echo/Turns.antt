-- ===== src/Common/Server/Echo/Turns.antt =====
-- The echo server and its threads, in any interleaving.
use serverlib.Prelude.{
  ℕ, zero, suc, ◌≤◌, ◌<◌, ◌≡◌, refl, sym, ap, ◌∙◌, false, Bool-cases, inl, inr, List, [], ◌∷◌, ◌++◌,
  append-nil, append_assoc, get_or, length, if◌then◌else◌, ◌==◌, some, Option, replicate, ◌||◌,
  arith,
}
use serverlib.Prelude.Run.{ok}
use serverlib.Prelude.Int.{leb_ℤ, ltb_ℤ, pos}
use serverlib.Tcp.Server.Loop.{Ends}
use serverlib.Tcp.Server.History.{step-Ends}
use serverlib.Common.Threads.{PktData, init, new_thread}
use serverlib.Tcp.Server.{TcpServer, set_data_handle}
use serverlib.Common.Server.{
  max_thread_num, new_common_server, set_thread_num, Dispatcher, CommonServer, with_tcp,
  common_virtual,
}
use serverlib.Common.Server.Held.{works_at}
use serverlib.Common.Server.Keeps.{BadLength, rebased_dispatcher}
use serverlib.Common.Server.Prepared.{prepared, prepared-IsCommonServer}
use serverlib.Common.Server.Turns.{Turn, server_takes, thread_takes, IsProperTurn}
use serverlib.Framing.Rounds.{drop-append}
use serverlib.Common.Server.Echo.{
  copies, hand_at, send_back, echo_turn, echo_turns, AllEchoTurns, answers_at, answered, AllSound,
  IsEchoServer,
}
use serverlib.Common.Server.Echo.Keeps.{
  echo-Keeps, send_back-copies, hand_at-AllPosted, works_at-IsEchoing,
}

-- What a thread's turn puts off are the copies of what it has in hand.
answers_at-copies :
    (i j : ℕ) (s : CommonServer) (t : TcpServer)
    → send_back (hand_at j s.dispatcher) s.dispatcher.tcp ≡ ok t
    → t.functions ≡ s.dispatcher.tcp.functions ++ copies (hand_at j s.dispatcher)
    → (if j == i then copies (hand_at j s.dispatcher) else []) ≡ answers_at i s (thread_takes j)
unfolding echo_turn
answers_at-copies i j s t ran e = elim (Bool-cases (j == i)) [
  | inl one ↦
      rw (one, ran, e)
        (sym (
          drop-append (length s.dispatcher.tcp.functions) s.dispatcher.tcp.functions
            (copies (hand_at j s.dispatcher)) refl))
  | inr two ↦ rw two refl
]

pub echo_turn-Ends :
    (d₀ : Dispatcher) (past : ℕ → List PktData) (s : CommonServer) (t : Turn)
    → IsEchoServer d₀ past s
    → IsProperTurn s t
    → Ends common_virtual
        (IsEchoServer d₀ (λ i. past i ++ answers_at i s t))
        BadLength
        (echo_turn s t)
unfolding echo_turn
echo_turn-Ends d₀ past s (server_takes i) w p =
    step-Ends common_virtual (IsEchoServer d₀ (λ j. past j ++ [])) BadLength
      (echo-Keeps d₀ (λ j. past j ++ [])) s i
      (w.0, w.1, w.2, λ j. w.3 j ∙ sym (append-nil (past j))) p
echo_turn-Ends d₀ past s (thread_takes i) w p =
    let (t, ran, (w', e, m)) =
      send_back-copies (hand_at i s.dispatcher) s.dispatcher.tcp
        (hand_at-AllPosted i s.dispatcher w.1) w.0.0 in
    let g = works_at-IsEchoing d₀ past s.dispatcher i w in
    inl (
      with_tcp t (record s { dispatcher = works_at i s.dispatcher }),
      rw ran refl,
      (
        rebased_dispatcher d₀ t (works_at i s.dispatcher) w' g.0,
        g.1,
        g.2,
        λ j. g.3 j ∙ ap (◌++◌ (past j)) (answers_at-copies j i s t ran e),
      ),
    )

-- From a sound common server with threads, whose packets can be sent back, and in any interleaving
-- of proper inputs with the steps of its threads, each of which answers by `Send`: the history ends
-- in one of the two exceptions that a bad length causes, or with this invariant again: the packets
-- that it holds have sound buffers and clients with descriptors, and what each thread's calls of
-- `Send` put off in the history are copies of the packets that it handled in it, in order.
pub echo_turns-IsEchoServer :
    (d₀ : Dispatcher) (past : ℕ → List PktData) (s : CommonServer) (ts : List Turn)
    → IsEchoServer d₀ past s
    → AllEchoTurns s ts
    → Ends common_virtual
        (IsEchoServer d₀ (λ i. past i ++ answered i s ts))
        BadLength
        (echo_turns s ts)
unfolding echo_turns
echo_turns-IsEchoServer d₀ past s [] w p =
    inl (s, refl, (w.0, w.1, w.2, λ i. w.3 i ∙ sym (append-nil (past i))))
echo_turns-IsEchoServer d₀ past s (t ∷ ts) w p = elim (echo_turn-Ends d₀ past s t w p.0) [
  | inl (s', ran, w') ↦
      rw ran
        (elim (echo_turns-IsEchoServer d₀ (λ i. past i ++ answers_at i s t) s' ts w' (p.1 s' ran)) [
          | inl (u, ran', e) ↦
              inl
                (u, ran', (e.0, e.1, e.2, λ i. e.3 i ∙ append_assoc (past i) (answers_at i s t) _))
          | inr (f, threw, bad) ↦ inr (f, threw, bad)
        ])
  | inr (f, threw, bad) ↦ inr (f, rw threw, bad)
]

-- New threads hold nothing, and have handled nothing.
new-AllSound : (handle : Option ℕ) (n : ℕ) → AllSound (replicate n (init handle new_thread))
unfolding init new_thread
new-AllSound handle zero = tt
new-AllSound handle (suc n) = (tt, new-AllSound handle n)

new_handled :
    (handle : Option ℕ) (n i : ℕ)
    → (get_or (replicate n (init handle new_thread)) i new_thread).handled ≡ []
unfolding init new_thread
new_handled handle zero i = refl
new_handled handle (suc n) zero = refl
new_handled handle (suc n) (suc i) = new_handled handle n i

-- The echo server as `main` sets it up.
pub prepared-IsEchoServer :
    (handle n : ℕ)
    → 0 < n
    → n ≤ max_thread_num
    → IsEchoServer (prepared handle (pos n)).dispatcher (λ i. []) (prepared handle (pos n))
unfolding new_common_server set_data_handle set_thread_num
prepared-IsEchoServer handle n some_threads few =
    let taken : (leb_ℤ (pos n) (pos 0) || ltb_ℤ (pos max_thread_num) (pos n)) ≡ false =
      ground arith in
    let more : (n == 0) ≡ false = ground arith in
    (
      prepared-IsCommonServer handle (pos n),
      rw (taken, set_thread_num) (new-AllSound (some handle) n),
      rw (taken, set_thread_num) more,
      λ i. rw (taken, set_thread_num) (ap copies (new_handled (some handle) n i)),
    )
