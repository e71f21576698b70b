-- ===== src/Bench/Programs.antt =====
-- One wake-up of a client, whichever of the programs it is of.
use serverlib.Prelude.{◌≡◌, refl, Bool, true, false, ◌&&◌, if◌then◌else◌, some, [], arith}
use serverlib.Prelude.Int.{ℤ, negsuc, eqb_ℤ}
use serverlib.Bench.{Bench, BenchClient, BenchWakeup, Program, wake, init, tcp_program}
use serverlib.Bench.Moves.{IsBenchClient, Steps, IsOpen, quiet-Moves, same-Alike}
use serverlib.Bench.Rounds.{io_callback-Steps}

abbrev pub fresh : BenchClient
fresh = record {
  active = true;
  reads = false;
  writes = true;
  count = 0;
  write_len = 0;
  read_buf = [];
  write_buf = [];
}

-- What the accounting needs of a program: an opened socket makes a new client, and a callback
-- counts at most one round.
pub record IsProgram (p : Program) : Type 0 where
  pub opens :
      (fd : ℤ) (b : Bench) → eqb_ℤ fd (negsuc 0) ≡ false → p.init_client fd b ≡ (some fresh, b)
  pub steps :
      (w : BenchWakeup) (c : BenchClient) (b : Bench)
      → IsOpen b c
      → w.revents.read && w.revents.write ≡ false
      → Steps c b (p.io w c b)

init_lem : (fd : ℤ) (b : Bench) → eqb_ℤ fd (negsuc 0) ≡ false → init fd b ≡ (some fresh, b)
unfolding init
init_lem fd b h = rw h refl

pub tcp_program-IsProgram : IsProgram tcp_program
tcp_program-IsProgram = record { opens = init_lem; steps = io_callback-Steps }

masked : (r w reads writes : Bool) → reads && writes ≡ false → (r && reads) && (w && writes) ≡ false
masked r w reads writes h = ground arith

-- One wake-up keeps the client sound and counts a round for it and in all, or none.
pub wake-Steps :
    (p : Program) (w : BenchWakeup) (c : BenchClient) (b : Bench)
    → IsProgram p
    → IsBenchClient b.repeats c
    → Steps c b (wake p w c b)
unfolding wake
wake-Steps p w c b laws v = from c.active refl
  where
    awake : BenchWakeup
    awake = record w {
      revents = record (w.revents) {
        read = w.revents.read && c.reads;
        write = w.revents.write && c.writes;
      };
    }

    from : (on : Bool) → c.active ≡ on → Steps c b (if on then p.io awake c b else (c, b))
    from true e =
        laws.steps awake c b
          (record { sound = v; more = ground (arith, v.open_until, v.counted, e); on = e })
          (masked w.revents.read w.revents.write c.reads c.writes v.one_thing)
    from false e = (v, quiet-Moves c.count c.count b b refl refl (same-Alike b))
