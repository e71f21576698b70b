-- ===== src/Bench/Main/Started.antt =====
-- What the command line starts.
use serverlib.Prelude.{
  true, Bool, ℕ, zero, suc, ◌<◌, ◌≤◌, ◌*◌, ◌/◌, ◌%◌, ◌≡◌, refl, sym, ap, ◌∙◌, not, List, [], ◌∷◌,
  length, take, take-length, ◌==◌, arith,
}
use serverlib.Prelude.Int.{ℤ, pos}
use serverlib.Prelude.Run.{ok, fault, division_by_zero}
use serverlib.Bench.{BenchWakeup, Program, tcp_program}
use serverlib.Bench.Runs.{AllClosed}
use serverlib.Bench.End.{AllOpened, ran, ran_by, ran-looping, ran-closed}
use serverlib.Bench.Udp.{udp_program}
use serverlib.Bench.Udp.End.{opened, udp-stuck}
use serverlib.Bench.Main
use serverlib.Bench.Main.{sock_addr, Options, defaults, parse, Outcome, run_with, main}
use serverlib.Bench.Main.Settings.{
  Setting, requests_is, concurrency_is, target_is, rendered, applied, AllPlain, parse-rendered,
}

main-parse :
    (p : Program) (framed : Bool) (resolve : List ℕ → ℕ) (args : List (List ℕ)) (o : Options)
    (fds : List ℤ) (wakeups : List (ℕ × BenchWakeup))
    → 0 < length args
    → parse args defaults ≡ ok o
    → main p framed resolve args fds wakeups
      ≡ run_with p framed (sock_addr resolve o) o.requests o.concurrency fds wakeups
unfolding main
main-parse p framed resolve [] o fds wakeups some_given e = absurd (omega arith)
main-parse p framed resolve (arg ∷ args) o fds wakeups some_given e = rw e refl

rendered-length : (settings : List Setting) → length settings ≤ length (rendered settings)
rendered-length [] = omega arith
rendered-length (requests_is n ∷ settings) = omega (arith, rendered-length settings)
rendered-length (concurrency_is n ∷ settings) = omega (arith, rendered-length settings)
rendered-length (target_is host port ∷ settings) = omega (arith, rendered-length settings)

module _ (p : Program) (framed : Bool) (resolve : List ℕ → ℕ) (settings : List Setting)
    (fds : List ℤ) (wakeups : List (ℕ × BenchWakeup)) where
  main-applied :
      (requests concurrency : ℤ)
      → AllPlain settings
      → 0 < length settings
      → (applied settings defaults).requests ≡ requests
      → (applied settings defaults).concurrency ≡ concurrency
      → main p framed resolve (rendered settings) fds wakeups
        ≡ run_with p framed
            (sock_addr resolve (applied settings defaults))
            requests
            concurrency
            fds
            wakeups
  main-applied requests concurrency plain some_given e e' =
      main-parse p framed resolve (rendered settings) (applied settings defaults) fds wakeups
        (omega (arith, rendered-length settings)) (parse-rendered settings defaults plain)
      ∙ rw (e, e') refl

  -- A command line whose last `-c` gives 0 ends the process, whatever else is set.
  pub main-divides_by_zero :
      AllPlain settings
      → (applied settings defaults).concurrency ≡ pos 0
      → main p framed resolve (rendered settings) fds wakeups ≡ fault division_by_zero
  unfolding run_with
  main-divides_by_zero plain e =
      main-applied (applied settings defaults).requests (pos 0) plain (given settings e) refl e
    where
      given :
          (settings : List Setting)
          → (applied settings defaults).concurrency ≡ pos 0
          → 0 < length settings
      given [] e = ground (arith, e)
      given (s ∷ settings) e = omega arith

  main-runs :
      (n c : ℕ)
      → 0 < c
      → AllPlain settings
      → 0 < length settings
      → (applied settings defaults).requests ≡ pos n
      → (applied settings defaults).concurrency ≡ pos c
      → length fds ≡ c
      → main p framed resolve (rendered settings) fds wakeups
        ≡ ok (
            Main.ran
              (sock_addr resolve (applied settings defaults))
              (ran_by p framed n c fds wakeups).0
              (ran_by p framed n c fds wakeups).1)
  unfolding run_with
  main-runs n zero positive plain some_given e e' each = absurd (omega arith)
  main-runs n (suc c) positive plain some_given e e' each =
      main-applied (pos n) (pos (suc c)) plain some_given e e'
      ∙ ap
          (λ (opened : List ℤ).
            let r = ran_by p framed n (suc c) opened wakeups in
            ok (Main.ran (sock_addr resolve (applied settings defaults)) r.0 r.1))
          (ap (λ k. take k fds) (sym each) ∙ take-length fds)

-- Of a TCP load generator whose command line sets at least one thing, in any order, and in the end
-- asks for one request or more for each of one client or more, with all sockets opened: the program
-- runs as it is asked, with the address that it is given, and after any wake-ups, the successes are at
-- most the rounds, the rounds at most the share of each client, and the loop has been told to end
-- exactly if the rounds are as many as the requests.
pub main-looping :
    (framed : Bool) (resolve : List ℕ → ℕ) (settings : List Setting) (requests concurrency : ℕ)
    (fds : List ℤ) (wakeups : List (ℕ × BenchWakeup))
    → AllPlain settings
    → 0 < length settings
    → (applied settings defaults).requests ≡ pos requests
    → (applied settings defaults).concurrency ≡ pos concurrency
    → 0 < concurrency
    → concurrency ≤ requests
    → length fds ≡ concurrency
    → AllOpened fds
    → let r = ran framed requests concurrency fds wakeups in
      (main tcp_program framed resolve (rendered settings) fds wakeups
        ≡ ok (Main.ran (sock_addr resolve (applied settings defaults)) r.0 r.1))
      × (r.1.success ≤ r.1.total)
      × (r.1.total ≤ concurrency * (requests / concurrency))
      × (r.1.looping ≡ not (r.1.total == requests))
main-looping framed resolve settings n c fds wakeups plain some_given e e' positive enough each
      opened =
    let (wins, share, ends) = ran-looping framed n c fds wakeups positive enough each opened in
    (
      main-runs tcp_program framed resolve settings fds wakeups n c positive plain some_given e e'
          each,
      wins,
      share,
      ends,
    )

-- Of a TCP load generator whose command line sets at least one thing, in any order, and in the end
-- asks for one request or more for each of one client or more, with all sockets opened: the program
-- runs as it is asked, with the address that it is given, and once all clients have closed their
-- sockets, the loop has been told to end exactly if the concurrency divides the number of requests;
-- otherwise it runs on, with nothing to wake it.
pub main-closed :
    (framed : Bool) (resolve : List ℕ → ℕ) (settings : List Setting) (requests concurrency : ℕ)
    (fds : List ℤ) (wakeups : List (ℕ × BenchWakeup))
    → AllPlain settings
    → 0 < length settings
    → (applied settings defaults).requests ≡ pos requests
    → (applied settings defaults).concurrency ≡ pos concurrency
    → 0 < concurrency
    → concurrency ≤ requests
    → length fds ≡ concurrency
    → AllOpened fds
    → AllClosed (ran framed requests concurrency fds wakeups).0
    → let r = ran framed requests concurrency fds wakeups in
      (main tcp_program framed resolve (rendered settings) fds wakeups
        ≡ ok (Main.ran (sock_addr resolve (applied settings defaults)) r.0 r.1))
      × (r.1.looping ≡ not (requests % concurrency == 0))
main-closed framed resolve settings n c fds wakeups plain some_given e e' positive enough each
      opened closed =
    (
      main-runs tcp_program framed resolve settings fds wakeups n c positive plain some_given e e'
          each,
      ran-closed framed n c fds wakeups positive enough each opened closed,
    )

-- A UDP load generator whose command line sets at least one thing and in the end asks for one request
-- or more for each of one client or more, but not all of whose sockets could be opened, runs as it is
-- asked, with the address that it is given, and its loop is never told to end, whatever wakes it.
pub main-stuck :
    (framed : Bool) (resolve : List ℕ → ℕ) (settings : List Setting) (requests concurrency : ℕ)
    (fds : List ℤ) (wakeups : List (ℕ × BenchWakeup))
    → AllPlain settings
    → 0 < length settings
    → (applied settings defaults).requests ≡ pos requests
    → (applied settings defaults).concurrency ≡ pos concurrency
    → 0 < concurrency
    → concurrency ≤ requests
    → length fds ≡ concurrency
    → length (opened fds) < concurrency
    → let r = ran_by udp_program framed requests concurrency fds wakeups in
      (main udp_program framed resolve (rendered settings) fds wakeups
        ≡ ok (Main.ran (sock_addr resolve (applied settings defaults)) r.0 r.1))
      × (r.1.looping ≡ true)
main-stuck framed resolve settings n c fds wakeups plain some_given e e' positive enough each
      short =
    (
      main-runs udp_program framed resolve settings fds wakeups n c positive plain some_given e e'
          each,
      udp-stuck framed n c fds wakeups positive enough each short,
    )
