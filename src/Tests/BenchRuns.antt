-- ===== src/Tests/BenchRuns.antt =====
-- The theorems on the load generator at concrete inputs: three requests by two clients.
use serverlib.Prelude.{
  ℕ, ◌*◌, ◌/◌, ◌%◌, ◌≤◌, ◌≡◌, refl, true, false, not, ◌==◌, List, [], ◌∷◌, arith,
}
use serverlib.Prelude.Int.{ℤ, pos, negsuc}
use serverlib.Tcp.Connection.{recv_failed, write_failed}
use serverlib.Prelude.Run.{ok}
use serverlib.Bench.{tcp_program, BenchWakeup, init, init_all, stats, io_callback, wake, wake_at}
use serverlib.Bench.Runs.{AllClosed}
use serverlib.Bench.Udp.{udp_program}
use serverlib.Bench.End.{ran, ran_by}
use serverlib.Bench.Main
use serverlib.Bench.Main.{main}
use serverlib.Bench.Main.Settings.{
  Setting, requests_is, concurrency_is, target_is, rendered, AllPlain,
}
use serverlib.Bench.Main.Started.{main-looping, main-closed, main-stuck}

abbrev broken : BenchWakeup
broken = record {
  revents = record { error = true; read = false; write = false; timer = false };
  recv = recv_failed (pos 104);
  write = write_failed (pos 104);
  errno = pos 104;
}

abbrev sockets : List ℤ
sockets = pos 5 ∷ pos 6 ∷ []

abbrev wakeups : List (ℕ × BenchWakeup)
wakeups = (0, broken) ∷ (1, broken) ∷ []

-- `-c 2 host:80 -n 3`
abbrev settings : List Setting
settings = concurrency_is 2 ∷ target_is (b'h' ∷ []) 80 ∷ requests_is 3 ∷ []

settings-AllPlain : AllPlain settings
settings-AllPlain = (omega arith, ((refl, (refl, tt), omega arith), (omega arith, tt)))

main-looping_example :
    let r = ran true 3 2 sockets wakeups in
    (main tcp_program true (λ text. 127) (rendered settings) sockets wakeups
      ≡ ok (Main.ran (127, 80) r.0 r.1))
    × (r.1.success ≤ r.1.total)
    × (r.1.total ≤ 2 * (3 / 2))
    × (r.1.looping ≡ not (r.1.total == 3))
main-looping_example =
    main-looping true (λ text. 127) settings 3 2 sockets wakeups settings-AllPlain (omega arith)
      refl refl (omega arith) (omega arith) refl (refl, (refl, tt))

wakeups-AllClosed : AllClosed (ran true 3 2 sockets wakeups).0
unfolding init init_all stats io_callback wake wake_at
wakeups-AllClosed = (refl, (refl, tt))

main-closed_example :
    let r = ran true 3 2 sockets wakeups in
    (main tcp_program true (λ text. 127) (rendered settings) sockets wakeups
      ≡ ok (Main.ran (127, 80) r.0 r.1))
    × (r.1.looping ≡ not (3 % 2 == 0))
main-closed_example =
    main-closed true (λ text. 127) settings 3 2 sockets wakeups settings-AllPlain (omega arith) refl
      refl (omega arith) (omega arith) refl (refl, (refl, tt)) wakeups-AllClosed

-- The second socket could not be opened.
abbrev some_sockets : List ℤ
some_sockets = pos 5 ∷ negsuc 0 ∷ []

-- `-n 4 -c 2`
abbrev more : List Setting
more = requests_is 4 ∷ concurrency_is 2 ∷ []

main-stuck_example :
    let r = ran_by udp_program true 4 2 some_sockets wakeups in
    (main udp_program true (λ text. 127) (rendered more) some_sockets wakeups
      ≡ ok (Main.ran (127, 0) r.0 r.1))
    × (r.1.looping ≡ true)
main-stuck_example =
    main-stuck true (λ text. 127) more 4 2 some_sockets wakeups (omega arith, (omega arith, tt))
      (omega arith) refl refl (omega arith) (omega arith) refl (omega arith)
