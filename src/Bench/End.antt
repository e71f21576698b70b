-- ===== src/Bench/End.antt =====
-- When the load generator's loop ends.
use mathlib.Core.Path.{subst}
use serverlib.Prelude.{
  ℕ, suc, ◌+◌, ◌*◌, ◌/◌, ◌%◌, ◌≤◌, ◌<◌, ◌≡◌, refl, sym, ap, ◌∙◌, Bool, true, false, not, List, [],
  ◌∷◌, Option, none, some, ◌==◌, length, arith,
}
use serverlib.Prelude.Int.{ℤ, pos, negsuc, eqb_ℤ}
use serverlib.Bench.{Bench, BenchClient, BenchWakeup, Program, tcp_program, init_all}
use serverlib.Bench.Programs.{fresh, IsProgram, tcp_program-IsProgram}
use serverlib.Bench.Runs.{
  rounds, AllClients, AllClosed, rounds_closed, rounds-le, IsBench, run_all, run_all-IsBench, Kept,
  run_all-Kept,
}

-- All sockets were opened.
abbrev pub AllOpened : List ℤ → Type 0
AllOpened [] = Unit {0}
AllOpened (fd ∷ fds) = (eqb_ℤ fd (negsuc 0) ≡ false) × AllOpened fds

abbrev pub fresh_all : List ℤ → List BenchClient
fresh_all [] = []
fresh_all (fd ∷ fds) = fresh ∷ fresh_all fds

init_all_lem :
    (p : Program) (laws : IsProgram p) (fds : List ℤ) (b : Bench)
    → AllOpened fds
    → init_all p fds b ≡ (fresh_all fds, b)
unfolding init_all
init_all_lem p laws [] b h = refl
init_all_lem p laws (fd ∷ fds) b h =
    ap
      (λ (r : Option BenchClient × Bench). elim r.0 as (λ x. List BenchClient × Bench) [
        | none ↦ init_all p fds r.1
        | some c ↦ (c ∷ (init_all p fds r.1).0, (init_all p fds r.1).1)
      ])
      (laws.opens fd b h.0)
    ∙ ap (λ (s : List BenchClient × Bench). (fresh ∷ s.0, s.1)) (init_all_lem p laws fds b h.1)

pub fresh_all-rounds :
    (fds : List ℤ) → (rounds (fresh_all fds) ≡ 0) × (length (fresh_all fds) ≡ length fds)
fresh_all-rounds [] = (refl, refl)
fresh_all-rounds (fd ∷ fds) = let r = fresh_all-rounds fds in (omega arith, ap suc r.1)

pub fresh_all-AllClients :
    (repeats : ℕ) (fds : List ℤ) → 0 < repeats → AllClients repeats (fresh_all fds)
fresh_all-AllClients repeats [] h = tt
fresh_all-AllClients repeats (fd ∷ fds) h = (
  record { counted = omega arith; open_until = ground arith; one_thing = refl },
  fresh_all-AllClients repeats fds h,
)

-- What `main` sets before it creates the clients.
abbrev pub begin : Bool → ℕ → ℕ → Bench
begin framed requests concurrency = record {
  framed = framed;
  requests = requests;
  repeats = requests / concurrency;
  total = 0;
  success = 0;
  read_bytes = 0;
  write_bytes = pos 0;
  number = 0;
  looping = true;
}

pub quotient : (r c : ℕ) → 0 < c → c * (r / c) + r % c ≡ r
quotient r c h = grind arith

pub some_repeats : (r c : ℕ) → 0 < c → c ≤ r → 0 < r / c
some_repeats r c h k = grind (arith, quotient r c h)

-- A run of the program, up to these wake-ups.
abbrev pub ran_by :
    Program → Bool → ℕ → ℕ → List ℤ → List (ℕ × BenchWakeup) → List BenchClient × Bench
ran_by p framed requests concurrency fds wakeups =
    run_all p wakeups (init_all p fds (begin framed requests concurrency))

-- The state of a run, with the totals in terms of the command line.
record IsRun (requests concurrency : ℕ) (s : List BenchClient × Bench) : Type 0 where
  sound : AllClients (requests / concurrency) s.0
  as_many : length s.0 ≡ concurrency
  counted : s.1.total ≡ rounds s.0
  wins : s.1.success ≤ s.1.total
  ends : s.1.looping ≡ not (s.1.total == requests)

begin-IsBench :
    (framed : Bool) (requests concurrency : ℕ) (fds : List ℤ)
    → 0 < concurrency
    → concurrency ≤ requests
    → length fds ≡ concurrency
    → IsBench (fresh_all fds) (begin framed requests concurrency)
begin-IsBench framed requests concurrency fds positive enough each = record {
  sound =
      fresh_all-AllClients (requests / concurrency) fds
        (some_repeats requests concurrency positive enough);
  counted = sym (fresh_all-rounds fds).0;
  room =
      rw ((fresh_all-rounds fds).1, each) (grind (arith, quotient requests concurrency positive));
  wins = omega arith;
  ends = ground arith;
}

ran-IsRun :
    (p : Program) (laws : IsProgram p) (framed : Bool) (requests concurrency : ℕ) (fds : List ℤ)
    (wakeups : List (ℕ × BenchWakeup))
    → 0 < concurrency
    → concurrency ≤ requests
    → length fds ≡ concurrency
    → AllOpened fds
    → IsRun requests concurrency (ran_by p framed requests concurrency fds wakeups)
ran-IsRun p laws framed requests concurrency fds wakeups positive enough each opened =
    subst (λ (s : List BenchClient × Bench). IsRun requests concurrency (run_all p wakeups s))
      (sym (init_all_lem p laws fds b opened))
      (record {
        sound = subst (λ (n : ℕ). AllClients n s.0) k.repeats v.sound;
        as_many = k.as_many ∙ (fresh_all-rounds fds).1 ∙ each;
        counted = v.counted;
        wins = v.wins;
        ends = v.ends ∙ ap (λ (n : ℕ). not (s.1.total == n)) k.requests;
      })
  where
    b : Bench
    b = begin framed requests concurrency

    s : List BenchClient × Bench
    s = run_all p wakeups (fresh_all fds, b)

    v : IsBench s.0 s.1
    v =
        run_all-IsBench p laws wakeups (fresh_all fds) b
          (begin-IsBench framed requests concurrency fds positive enough each)

    k : Kept (fresh_all fds) s.0 b s.1
    k =
        run_all-Kept p laws wakeups (fresh_all fds) b
          (begin-IsBench framed requests concurrency fds positive enough each)

pub ran_by-looping :
    (p : Program) (laws : IsProgram p) (framed : Bool) (requests concurrency : ℕ) (fds : List ℤ)
    (wakeups : List (ℕ × BenchWakeup))
    → 0 < concurrency
    → concurrency ≤ requests
    → length fds ≡ concurrency
    → AllOpened fds
    → let b = (ran_by p framed requests concurrency fds wakeups).1 in
      (b.success ≤ b.total)
      × (b.total ≤ concurrency * (requests / concurrency))
      × (b.looping ≡ not (b.total == requests))
ran_by-looping p laws framed requests concurrency fds wakeups positive enough each opened =
    let v = ran-IsRun p laws framed requests concurrency fds wakeups positive enough each opened in
    let s = ran_by p framed requests concurrency fds wakeups in
    let few = rounds-le (requests / concurrency) s.0 v.sound in
    (
      v.wins,
      omega (arith, v.counted, few, ap (λ (n : ℕ). n * (requests / concurrency)) v.as_many),
      v.ends,
    )

pub ran_by-closed :
    (p : Program) (laws : IsProgram p) (framed : Bool) (requests concurrency : ℕ) (fds : List ℤ)
    (wakeups : List (ℕ × BenchWakeup))
    → 0 < concurrency
    → concurrency ≤ requests
    → length fds ≡ concurrency
    → AllOpened fds
    → AllClosed (ran_by p framed requests concurrency fds wakeups).0
    → (ran_by p framed requests concurrency fds wakeups).1.looping
      ≡ not (requests % concurrency == 0)
ran_by-closed p laws framed requests concurrency fds wakeups positive enough each opened closed =
    let v = ran-IsRun p laws framed requests concurrency fds wakeups positive enough each opened in
    let s = ran_by p framed requests concurrency fds wakeups in
    let all : s.1.total ≡ concurrency * (requests / concurrency) =
      v.counted
      ∙ rounds_closed (requests / concurrency) s.0 v.sound closed
      ∙ ap (λ (n : ℕ). n * (requests / concurrency)) v.as_many in
    let q = quotient requests concurrency positive in v.ends ∙ ground (arith, all, q)

-- A run of a TCP program.
abbrev pub ran : Bool → ℕ → ℕ → List ℤ → List (ℕ × BenchWakeup) → List BenchClient × Bench
ran framed requests concurrency fds wakeups =
    ran_by tcp_program framed requests concurrency fds wakeups

-- With at least one request for each client, and all sockets opened: after any wake-ups there are
-- no more successes than rounds counted, no more rounds than `requests / concurrency` for each
-- client, and the loop has been told to end exactly if as many rounds as requests are counted.
pub ran-looping :
    (framed : Bool) (requests concurrency : ℕ) (fds : List ℤ) (wakeups : List (ℕ × BenchWakeup))
    → 0 < concurrency
    → concurrency ≤ requests
    → length fds ≡ concurrency
    → AllOpened fds
    → let b = (ran framed requests concurrency fds wakeups).1 in
      (b.success ≤ b.total)
      × (b.total ≤ concurrency * (requests / concurrency))
      × (b.looping ≡ not (b.total == requests))
ran-looping = ran_by-looping tcp_program tcp_program-IsProgram

-- So too, once all clients have closed their sockets: the loop has been told to end exactly if the
-- concurrency divides the number of requests; otherwise it runs on, with nothing to wake it.
pub ran-closed :
    (framed : Bool) (requests concurrency : ℕ) (fds : List ℤ) (wakeups : List (ℕ × BenchWakeup))
    → 0 < concurrency
    → concurrency ≤ requests
    → length fds ≡ concurrency
    → AllOpened fds
    → AllClosed (ran framed requests concurrency fds wakeups).0
    → (ran framed requests concurrency fds wakeups).1.looping ≡ not (requests % concurrency == 0)
ran-closed = ran_by-closed tcp_program tcp_program-IsProgram
