-- ===== src/Bench/Runs.antt =====
-- All clients of a load generator, over any wake-ups.

use serverlib.Prelude.{
  ℕ, zero, suc, ◌+◌, ◌*◌, ◌≤◌, ◌≡◌, refl, sym, ap, ◌∙◌, true, false, not, inl, inr, List, [], ◌∷◌,
  ◌==◌, length, arith,
}
use serverlib.Bench.{Bench, BenchClient, BenchWakeup, Program, wake, wake_at}
use serverlib.Bench.Moves.{IsBenchClient, Moves}
use serverlib.Bench.Programs.{IsProgram, wake-Steps}

-- The rounds that these clients have counted.
abbrev pub rounds : List BenchClient → ℕ
rounds [] = 0
rounds (c ∷ clients) = c.count + rounds clients

abbrev pub AllClients : ℕ → List BenchClient → Type 0
AllClients repeats [] = Unit {0}
AllClients repeats (c ∷ clients) = IsBenchClient repeats c × AllClients repeats clients

abbrev pub AllClosed : List BenchClient → Type 0
AllClosed [] = Unit {0}
AllClosed (c ∷ clients) = (c.active ≡ false) × AllClosed clients

pub rounds_closed :
    (repeats : ℕ) (clients : List BenchClient)
    → AllClients repeats clients
    → AllClosed clients
    → rounds clients ≡ length clients * repeats
rounds_closed repeats [] v h = grind arith
rounds_closed repeats (c ∷ clients) v h =
    let rest = rounds_closed repeats clients v.1 h.1 in
    let one : c.count ≡ repeats = ground (arith, v.0.open_until, h.0) in grind (arith, rest, one)

pub rounds-le :
    (repeats : ℕ) (clients : List BenchClient)
    → AllClients repeats clients
    → rounds clients ≤ length clients * repeats
rounds-le repeats [] v = grind arith
rounds-le repeats (c ∷ clients) v =
    let rest = rounds-le repeats clients v.1 in grind (arith, rest, v.0.counted)

-- The same move, of a sum that grows by as much.
as_much : (n n' m m' : ℕ) (b b' : Bench) → m' + n ≡ m + n' → Moves n n' b b' → Moves m m' b b'
as_much n n' m m' b b' e k = record {
  requests = k.requests;
  repeats = k.repeats;
  wins = k.wins;
  counts = elim k.counts [
    | inl (t, same, l) ↦ inl (t, omega arith, l)
    | inr (t, more, l) ↦ inr (t, omega arith, l)
  ];
}

-- One wake-up among the clients.
record Woken (clients : List BenchClient) (b : Bench) (r : List BenchClient × Bench) : Type 0 where
  sound : AllClients b.repeats r.0
  as_many : length r.0 ≡ length clients
  moves : Moves (rounds clients) (rounds r.0) b r.1

wake_at-Woken :
    (p : Program) (laws : IsProgram p) (i : ℕ) (w : BenchWakeup) (clients : List BenchClient)
    (b : Bench)
    → AllClients b.repeats clients
    → Woken clients b (wake_at p i w clients b)
unfolding wake_at
wake_at-Woken p laws i w [] b v = record {
  sound = tt;
  as_many = refl;
  moves = record {
    requests = refl;
    repeats = refl;
    wins = omega arith;
    counts = inl (refl, refl, refl);
  };
}
wake_at-Woken p laws zero w (c ∷ clients) b v =
    let (sound, moves) = wake-Steps p w c b laws v.0 in
    record {
      sound = (sound, v.1);
      as_many = refl;
      moves = as_much c.count (wake p w c b).0.count _ _ b (wake p w c b).1 (omega arith) moves;
    }
wake_at-Woken p laws (suc i) w (c ∷ clients) b v =
    let k = wake_at-Woken p laws i w clients b v.1 in
    let r = wake_at p i w clients b in
    record {
      sound = (v.0, k.sound);
      as_many = ap suc k.as_many;
      moves = as_much (rounds clients) (rounds r.0) _ _ b r.1 (omega arith) k.moves;
    }

-- What is the case throughout, once the sockets are opened.
pub record IsBench (clients : List BenchClient) (b : Bench) : Type 0 where
  pub sound : AllClients b.repeats clients
  pub counted : b.total ≡ rounds clients
  pub room : length clients * b.repeats ≤ b.requests
  pub wins : b.success ≤ b.total
  pub ends : b.looping ≡ not (b.total == b.requests)

counted_after : (n n' : ℕ) (b b' : Bench) → b.total ≡ n → Moves n n' b b' → b'.total ≡ n'
counted_after n n' b b' e m = elim m.counts [
  | inl (t, same, l) ↦ omega arith
  | inr (t, more, l) ↦ omega arith
]

ends_after :
    (n n' : ℕ) (b b' : Bench)
    → b'.total ≤ b.requests
    → b.looping ≡ not (b.total == b.requests)
    → Moves n n' b b'
    → b'.looping ≡ not (b'.total == b'.requests)
ends_after n n' b b' h e m = elim m.counts [
  | inl (t, same, l) ↦ rw (t, m.requests, l) e
  | inr (t, more, l) ↦
      let on : b.looping ≡ true = ground (arith, e, h, t) in
      rw (t, m.requests, l, on) (ground arith)
]

woken-IsBench :
    (p : Program) (laws : IsProgram p) (i : ℕ) (w : BenchWakeup) (clients : List BenchClient)
    (b : Bench)
    → IsBench clients b
    → IsBench (wake_at p i w clients b).0 (wake_at p i w clients b).1
woken-IsBench p laws i w clients b v = record {
  sound = rw m.repeats k.sound;
  counted = counted;
  room = rw (k.as_many, m.repeats, m.requests) v.room;
  wins = omega (arith, m.wins, v.wins);
  ends =
      ends_after (rounds clients) (rounds r.0) b r.1 (omega (arith, counted, few, v.room)) v.ends m;
}
  where
    r : List BenchClient × Bench
    r = wake_at p i w clients b

    k : Woken clients b r
    k = wake_at-Woken p laws i w clients b v.sound

    m : Moves (rounds clients) (rounds r.0) b r.1
    m = k.moves

    counted : r.1.total ≡ rounds r.0
    counted = counted_after (rounds clients) (rounds r.0) b r.1 v.counted m

    few : rounds r.0 ≤ length clients * b.repeats
    few = rw (ap (λ (n : ℕ). n * b.repeats) (sym k.as_many)) (rounds-le b.repeats r.0 k.sound)

-- A history of wake-ups, each of the client at a place.
abbrev pub run_all :
    Program → List (ℕ × BenchWakeup) → List BenchClient × Bench → List BenchClient × Bench
run_all p [] s = s
run_all p ((i, w) ∷ wakeups) s = run_all p wakeups (wake_at p i w s.0 s.1)

pub run_all-IsBench :
    (p : Program) (laws : IsProgram p) (wakeups : List (ℕ × BenchWakeup))
    (clients : List BenchClient) (b : Bench)
    → IsBench clients b
    → IsBench (run_all p wakeups (clients, b)).0 (run_all p wakeups (clients, b)).1
run_all-IsBench p laws [] clients b v = v
run_all-IsBench p laws ((i, w) ∷ wakeups) clients b v =
    run_all-IsBench p laws wakeups (wake_at p i w clients b).0 (wake_at p i w clients b).1
      (woken-IsBench p laws i w clients b v)

-- What a history keeps.
pub record Kept (clients clients' : List BenchClient) (b b' : Bench) : Type 0 where
  pub as_many : length clients' ≡ length clients
  pub requests : b'.requests ≡ b.requests
  pub repeats : b'.repeats ≡ b.repeats

pub run_all-Kept :
    (p : Program) (laws : IsProgram p) (wakeups : List (ℕ × BenchWakeup))
    (clients : List BenchClient) (b : Bench)
    → IsBench clients b
    → Kept clients (run_all p wakeups (clients, b)).0 b (run_all p wakeups (clients, b)).1
run_all-Kept p laws [] clients b v = record { as_many = refl; requests = refl; repeats = refl }
run_all-Kept p laws ((i, w) ∷ wakeups) clients b v =
    let k = wake_at-Woken p laws i w clients b v.sound in
    let m = k.moves in
    let r =
      run_all-Kept p laws wakeups (wake_at p i w clients b).0 (wake_at p i w clients b).1
        (woken-IsBench p laws i w clients b v) in
    record {
      as_many = r.as_many ∙ k.as_many;
      requests = r.requests ∙ m.requests;
      repeats = r.repeats ∙ m.repeats;
    }
