-- ===== src/Bench/Udp/End.antt =====
-- When a UDP load generator's loop ends, also where sockets could not be opened.
use mathlib.Core.Path.{subst}
use serverlib.Prelude.{
  ℕ, suc, ◌%◌, ◌+◌, ◌*◌, ◌/◌, ◌≤◌, ◌<◌, ◌≡◌, refl, sym, ap, ◌∙◌, Bool, true, not, Bool-cases, inl,
  inr, List, [], ◌∷◌, ◌==◌, if◌then◌else◌, Option, none, some, length, arith,
}
use serverlib.Prelude.Int.{ℤ, negsuc, eqb_ℤ}
use serverlib.Bench.{Bench, BenchClient, BenchWakeup, init_all}
use serverlib.Bench.Runs.{
  AllClients, rounds-le, IsBench, run_all, run_all-IsBench, Kept, run_all-Kept,
}
use serverlib.Bench.End.{
  fresh_all, fresh_all-rounds, fresh_all-AllClients, begin, quotient, some_repeats, ran_by,
}
use serverlib.Bench.Programs.{fresh}
use serverlib.Bench.Udp.{init, udp_program}
use serverlib.Bench.Udp.Rounds.{udp_program-IsProgram}

-- The sockets that were opened.
abbrev pub opened : List ℤ → List ℤ
opened [] = []
opened (fd ∷ fds) = let rest = opened fds in if eqb_ℤ fd (negsuc 0) then rest else fd ∷ rest

opened-le : (fds : List ℤ) → length (opened fds) ≤ length fds
opened-le [] = omega arith
opened-le (fd ∷ fds) = elim (Bool-cases (eqb_ℤ fd (negsuc 0))) [
  | inl failed ↦ rw failed (omega (arith, opened-le fds))
  | inr fine ↦ rw fine (omega (arith, opened-le fds))
]

init_failed : (fd : ℤ) (b : Bench) → eqb_ℤ fd (negsuc 0) ≡ true → init fd b ≡ (none, b)
unfolding init
init_failed fd b h = rw h refl

init_all-opened :
    (fds : List ℤ) (b : Bench) → init_all udp_program fds b ≡ (fresh_all (opened fds), b)
unfolding init_all
init_all-opened [] b = refl
init_all-opened (fd ∷ fds) b = elim (Bool-cases (eqb_ℤ fd (negsuc 0))) [
  | inl failed ↦ ap (added fds) (init_failed fd b failed) ∙ rw failed (init_all-opened fds b)
  | inr fine ↦
      ap (added fds) (udp_program-IsProgram.opens fd b fine)
      ∙ rw fine (ap (λ (s : List BenchClient × Bench). (fresh ∷ s.0, s.1)) (init_all-opened fds b))
]
  where
    added : List ℤ → Option BenchClient × Bench → List BenchClient × Bench
    added fds r = elim r.0 as (λ x. List BenchClient × Bench) [
      | none ↦ init_all udp_program fds r.1
      | some c ↦ (c ∷ (init_all udp_program fds r.1).0, (init_all udp_program fds r.1).1)
    ]

-- A run of a UDP program.
abbrev pub ran : Bool → ℕ → ℕ → List ℤ → List (ℕ × BenchWakeup) → List BenchClient × Bench
ran framed requests concurrency fds wakeups =
    ran_by udp_program framed requests concurrency fds wakeups

share : (k c q r requests : ℕ) → k ≤ c → c * q + r ≡ requests → k * q ≤ requests
share k c q r requests h e = grind arith

below : (k c q r requests : ℕ) → k < c → 0 < q → c * q + r ≡ requests → k * q < requests
below k c q r requests h positive e =
    let more : suc k * q ≤ c * q = share (suc k) c q 0 (c * q) h (omega arith) in grind arith

begin-IsBench :
    (framed : Bool) (requests concurrency : ℕ) (fds : List ℤ)
    → 0 < concurrency
    → concurrency ≤ requests
    → length fds ≡ concurrency
    → IsBench (fresh_all (opened fds)) (begin framed requests concurrency)
begin-IsBench framed requests concurrency fds positive enough each = record {
  sound =
      fresh_all-AllClients (requests / concurrency) (opened fds)
        (some_repeats requests concurrency positive enough);
  counted = sym (fresh_all-rounds (opened fds)).0;
  room = rw (fresh_all-rounds (opened fds)).1 (
      share (length (opened fds)) concurrency (requests / concurrency) (requests % concurrency)
        requests (omega (arith, opened-le fds, each)) (quotient requests concurrency positive));
  wins = omega arith;
  ends = ground arith;
}

-- With at least one request for each client, whether its socket was opened or not: after any
-- wake-ups there are no more successes than rounds counted, no more rounds than `requests /
-- concurrency` for each socket that was opened, and the loop has been told to end exactly if as
-- many rounds as requests are counted.
pub udp-looping :
    (framed : Bool) (requests concurrency : ℕ) (fds : List ℤ) (wakeups : List (ℕ × BenchWakeup))
    → 0 < concurrency
    → concurrency ≤ requests
    → length fds ≡ concurrency
    → let b = (ran framed requests concurrency fds wakeups).1 in
      (b.success ≤ b.total)
      × (b.total ≤ length (opened fds) * (requests / concurrency))
      × (b.looping ≡ not (b.total == requests))
udp-looping framed requests concurrency fds wakeups positive enough each =
    subst
      (λ (s : List BenchClient × Bench).
        let b = (run_all udp_program wakeups s).1 in
        (b.success ≤ b.total)
        × (b.total ≤ length (opened fds) * (requests / concurrency))
        × (b.looping ≡ not (b.total == requests)))
      (sym (init_all-opened fds b))
      (v.wins, few, v.ends ∙ ap (λ (n : ℕ). not (s.1.total == n)) k.requests)
  where
    b : Bench
    b = begin framed requests concurrency

    s : List BenchClient × Bench
    s = run_all udp_program wakeups (fresh_all (opened fds), b)

    start : IsBench (fresh_all (opened fds)) b
    start = begin-IsBench framed requests concurrency fds positive enough each

    v : IsBench s.0 s.1
    v = run_all-IsBench udp_program udp_program-IsProgram wakeups (fresh_all (opened fds)) b start

    k : Kept (fresh_all (opened fds)) s.0 b s.1
    k = run_all-Kept udp_program udp_program-IsProgram wakeups (fresh_all (opened fds)) b start

    few : s.1.total ≤ length (opened fds) * (requests / concurrency)
    few =
        let sound = subst (λ (n : ℕ). AllClients n s.0) k.repeats v.sound in
        omega (
          arith,
          v.counted,
          rounds-le (requests / concurrency) s.0 sound,
          ap (λ (n : ℕ). n * (requests / concurrency))
              (k.as_many ∙ (fresh_all-rounds (opened fds)).1),
        )

-- So too, if a socket could not be opened: the loop is never told to end, whatever happens.
pub udp-stuck :
    (framed : Bool) (requests concurrency : ℕ) (fds : List ℤ) (wakeups : List (ℕ × BenchWakeup))
    → 0 < concurrency
    → concurrency ≤ requests
    → length fds ≡ concurrency
    → length (opened fds) < concurrency
    → (ran framed requests concurrency fds wakeups).1.looping ≡ true
udp-stuck framed requests concurrency fds wakeups positive enough each short =
    let (wins, few, ends) =
      udp-looping framed requests concurrency fds wakeups positive enough each in
    let less =
      below (length (opened fds)) concurrency (requests / concurrency) (requests % concurrency)
        requests short (some_repeats requests concurrency positive enough)
        (quotient requests concurrency positive) in
    ends ∙ ground (arith, few, less)
