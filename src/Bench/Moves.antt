-- ===== src/Bench/Moves.antt =====
-- A client that is sound, and what a wake-up may count: no round, or one, for it and in all.
use serverlib.Prelude.{
  ℕ, ◌+◌, ◌≤◌, ◌<◌, ◌≡◌, refl, sym, ap, ◌∙◌, true, false, not, ◌&&◌, Bool-cases, ◌⊎◌, inl, inr,
  ◌==◌, if◌then◌else◌, arith,
}
use serverlib.Bench.{Bench, BenchClient, stats}

-- A client is closed once it has counted all its rounds, and waits for one thing at a time.
pub record IsBenchClient (repeats : ℕ) (c : BenchClient) : Type 0 where
  pub counted : c.count ≤ repeats
  pub open_until : c.active ≡ not (c.count == repeats)
  pub one_thing : c.reads && c.writes ≡ false

-- No round is counted, or one is, of `before` and `after` rounds of some clients.
pub record Moves (before after : ℕ) (b b' : Bench) : Type 0 where
  pub requests : b'.requests ≡ b.requests
  pub repeats : b'.repeats ≡ b.repeats
  pub wins : b'.success + b.total ≤ b.success + b'.total
  pub counts :
      ((b'.total ≡ b.total) × (after ≡ before) × (b'.looping ≡ b.looping))
      ⊎ ((b'.total ≡ b.total + 1)
          × (after ≡ before + 1)
          × (b'.looping ≡ (if b.total + 1 == b.requests then false else b.looping)))

abbrev pub Steps : BenchClient → Bench → BenchClient × Bench → Type 0
Steps c b r = IsBenchClient b.repeats r.0 × Moves c.count r.0.count b r.1

-- What has been counted is as before, but for a request that is now answered.
pub record Alike (b b' : Bench) : Type 0 where
  pub requests : b'.requests ≡ b.requests
  pub repeats : b'.repeats ≡ b.repeats
  pub total : b'.total ≡ b.total
  pub looping : b'.looping ≡ b.looping
  pub wins : b'.success ≤ b.success + 1

pub round-Moves :
    (n n' : ℕ) (b b' : Bench)
    → n' ≡ n
    → Alike b b'
    → Moves n (n' + 1) b (record b' {
      total = b'.total + 1;
      looping = if b'.total + 1 == b'.requests then false else b'.looping;
    })
round-Moves n n' b b' same k = record {
  requests = k.requests;
  repeats = k.repeats;
  wins = omega (arith, k.wins, k.total);
  counts = inr (
    ap (λ (t : ℕ). t + 1) k.total,
    ap (λ (t : ℕ). t + 1) same,
    rw (k.total, k.requests, k.looping) refl,
  );
}

-- A round that is over, well or not.
pub stats-Steps :
    (c c' : BenchClient) (b b' : Bench)
    → c.count < b.repeats
    → c'.count ≡ c.count
    → c'.active ≡ true
    → c'.reads && c'.writes ≡ false
    → Alike b b'
    → Steps c b (stats c' b')
unfolding stats
stats-Steps c c' b b' more same on one k = elim (Bool-cases (c'.count + 1 == b'.repeats)) [
  | inl last ↦ rw last (
    record {
      counted = omega (arith, same, more);
      open_until = ap not (sym (ap (λ (n : ℕ). c'.count + 1 == n) (sym k.repeats) ∙ last));
      one_thing = one;
    },
    round-Moves c.count c'.count b b' same k,
  )
  | inr other ↦ rw other (
    record {
      counted = omega (arith, same, more);
      open_until = on ∙ ap not (sym (ap (λ (n : ℕ). c'.count + 1 == n) (sym k.repeats) ∙ other));
      one_thing = refl;
    },
    round-Moves c.count c'.count b b' same k,
  )
]

-- A client that goes on with the same round.
pub quiet-Moves :
    (n n' : ℕ) (b b' : Bench) → n' ≡ n → b'.success ≡ b.success → Alike b b' → Moves n n' b b'
quiet-Moves n n' b b' same wins k = record {
  requests = k.requests;
  repeats = k.repeats;
  wins = omega (arith, wins, k.total);
  counts = inl (k.total, same, k.looping);
}

pub same-Alike : (b : Bench) → Alike b b
same-Alike b = record {
  requests = refl;
  repeats = refl;
  total = refl;
  looping = refl;
  wins = omega arith;
}

-- An open client with rounds to go.
pub record IsOpen (b : Bench) (c : BenchClient) : Type 0 where
  pub sound : IsBenchClient b.repeats c
  pub more : c.count < b.repeats
  pub on : c.active ≡ true
