-- ===== src/Bench/Main.antt =====
-- `main` of the load generators: the command line, and the run that it starts.
pub mod Settings
pub mod Started
use serverlib.Prelude.{
  ℕ, zero, suc, ◌≡◌, Bool, true, false, List, [], ◌∷◌, take, ◌==◌, if◌then◌else◌,
}
use serverlib.Prelude.Int.{ℤ, pos, negsuc}
use serverlib.Prelude.Run.{Run, ok, fault, null_pointer, division_by_zero, ◌>>=◌}
use serverlib.Arguments.{atoi, address, port_number, to_u16}
use serverlib.Arguments.Loop.{read_arguments}
use serverlib.Bench.{Bench, BenchClient, BenchWakeup, Program}
use serverlib.Bench.End.{ran_by}

-- The globals that the command line sets.
pub record Options : Type 0 where
  pub requests : ℤ
  pub concurrency : ℤ
  pub ip : List ℕ
  pub port : ℤ

abbrev pub defaults : Options
defaults = record { requests = pos 1; concurrency = pos 1; ip = []; port = pos 0 }

-- The `switch`, with the text of the next argument.
unfoldable pub set_flag : ℕ → List ℕ → Options → Options
set_flag flag text o =
    if flag == b'n'
    then record o { requests = atoi text }
    else if flag == b'c'
    then record o { concurrency = atoi text }
    else o

-- Behind the last argument stands a null pointer, which `atoi` reads.
unfoldable pub set_last : ℕ → Options → Run Options
set_last flag o =
    if flag == b'n' then fault null_pointer else if flag == b'c' then fault null_pointer else ok o

unfoldable pub set_url : List ℕ → Options → Options
set_url url o = record o { ip = address url; port = port_number url }

abbrev pub parse : List (List ℕ) → Options → Run Options
parse args o = read_arguments set_flag set_last set_url args o

-- `sock_addr`: the address and the port that every client connects or sends to. `resolve` is
-- `ntohl(inet_addr(…))`.
abbrev pub sock_addr : (List ℕ → ℕ) → Options → ℕ × ℕ
sock_addr resolve o = (resolve o.ip, to_u16 o.port)

-- What came of `main` at the end of its loop: only the usage was printed, the clients ran, with this
-- address, or a count was negative; for that no run is given here.
pub data Outcome : Type 0 where
  usage : Outcome
  ran : ℕ × ℕ → List BenchClient → Bench → Outcome
  negative_count : Outcome

-- `requests/concurrency`, the clients and the loop.
unfoldable pub run_with :
    Program → Bool → ℕ × ℕ → ℤ → ℤ → List ℤ → List (ℕ × BenchWakeup) → Run Outcome
run_with p framed addr requests (pos zero) fds wakeups = fault division_by_zero
run_with p framed addr (pos n) (pos (suc c)) fds wakeups =
    let r = ran_by p framed n (suc c) (take (suc c) fds) wakeups in ok (ran addr r.0 r.1)
run_with p framed addr requests concurrency fds wakeups = ok negative_count

-- `main`, with the arguments behind the program's name. The descriptors are what `socket()` returns
-- to the clients, in order.
unfoldable pub main :
    Program → Bool → (List ℕ → ℕ) → List (List ℕ) → List ℤ → List (ℕ × BenchWakeup) → Run Outcome
main p framed resolve [] fds wakeups = ok usage
main p framed resolve (arg ∷ args) fds wakeups = do
  o ← parse (arg ∷ args) defaults
  run_with p framed (sock_addr resolve o) o.requests o.concurrency fds wakeups
