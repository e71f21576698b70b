-- ===== src/Bench/Udp/Rounds.antt =====
-- The callbacks of a client of the UDP load generators, and the rounds that they count.
use serverlib.Prelude.{
  ℕ, ◌+◌, ◌≡◌, refl, Bool, true, false, ◌&&◌, Bool-cases, inl, inr, List, [], ◌∷◌, ◌==◌,
  if◌then◌else◌, length, some, arith,
}
use serverlib.Prelude.Int.{ℤ, pos, negsuc, eqb_ℤ, add_ℤ}
use serverlib.Tcp.Connection.{Recv, received, recv_failed, Written, written, write_failed, eagain}
use serverlib.Bench.{Bench, BenchClient, BenchWakeup}
use serverlib.Bench.Moves.{
  IsBenchClient, Moves, Steps, IsOpen, Alike, round-Moves, quiet-Moves, same-Alike,
}
use serverlib.Bench.Programs.{fresh, IsProgram}
use serverlib.Bench.Udp.{
  init, next_round, datagram, numbered, fill, read_callback, after_send, write_callback,
  io_callback, udp_program,
}

-- The events that a client watches do not count.
watching :
    (repeats : ℕ) (c : BenchClient) (reads writes : Bool)
    → IsBenchClient repeats c
    → reads && writes ≡ false
    → IsBenchClient repeats (record c { reads = reads; writes = writes })
watching repeats c reads writes v one = record {
  counted = v.counted;
  open_until = v.open_until;
  one_thing = one;
}

-- Nor does what is written.
writing :
    (n n' : ℕ) (b b' : Bench) (bytes : ℤ)
    → Moves n n' b b'
    → Moves n n' b (record b' { write_bytes = bytes })
writing n n' b b' bytes m = record {
  requests = m.requests;
  repeats = m.repeats;
  wins = m.wins;
  counts = m.counts;
}

next_round-Steps :
    (c c' : BenchClient) (b b' : Bench)
    → IsOpen b c'
    → c'.count ≡ c.count
    → Alike b b'
    → Steps c b (next_round c' b')
unfolding next_round
next_round-Steps c c' b b' o same k = (
  record {
    counted = omega (arith, o.more);
    open_until =
        rw (k.repeats, o.on)
          (elim (Bool-cases (c'.count + 1 == b.repeats)) [
            | inl last ↦ rw last refl
            | inr other ↦ rw other refl
          ]);
    one_thing = o.sound.one_thing;
  },
  round-Moves c.count c'.count b b' same k,
)

watched-Steps :
    (c : BenchClient) (b : Bench) (r : BenchClient × Bench) (reads writes : Bool)
    → Steps c b r
    → reads && writes ≡ false
    → Steps c b (record (r.0) { reads = reads; writes = writes }, r.1)
watched-Steps c b r reads writes (v, m) one = (watching b.repeats r.0 reads writes v one, m)

sent-Steps :
    (c : BenchClient) (b : Bench) (r : BenchClient × Bench) (n : ℤ)
    → Steps c b r
    → Steps c b (
      record (r.0) { reads = true; writes = false },
      record (r.1) { write_bytes = add_ℤ r.1.write_bytes n },
    )
sent-Steps c b r n (v, m) = (
  watching b.repeats r.0 true false v refl,
  writing c.count r.0.count b r.1 (add_ℤ r.1.write_bytes n) m,
)

read_callback-Steps :
    (r : Recv) (c : BenchClient) (b : Bench) → IsOpen b c → Steps c b (read_callback r c b)
unfolding read_callback
read_callback-Steps (recv_failed e) c b o =
    watched-Steps c b (next_round c b) false true (next_round-Steps c c b b o refl (same-Alike b))
      refl
read_callback-Steps (received bytes) c b o =
    elim (Bool-cases (length bytes == length (datagram b c))) [
      | inl whole ↦
          let b' : Bench = record b {
            success = b.success + 1;
            read_bytes = b.read_bytes + length bytes;
          } in
          rw whole (
            watched-Steps c b (next_round c b') false true
              (next_round-Steps c c b b' o refl (record {
                requests = refl;
                repeats = refl;
                total = refl;
                looping = refl;
                wins = omega arith;
              }))
              refl)
      | inr other ↦ rw other (
          watched-Steps c b (next_round c b) false true
            (next_round-Steps c c b b o refl (same-Alike b)) refl)
    ]

after_send-Steps :
    (n e : ℤ) (c c' : BenchClient) (b b' : Bench)
    → IsOpen b c'
    → c'.count ≡ c.count
    → b'.success ≡ b.success
    → Alike b b'
    → Steps c b (after_send n e c' b')
unfolding after_send
after_send-Steps n e c c' b b' o same wins k =
    elim (Bool-cases (eqb_ℤ n (pos (length (datagram b' c'))))) [
      | inl whole ↦ rw whole (sent-Steps c b (c', b') n quiet)
      | inr failed ↦ elim (Bool-cases (eqb_ℤ e eagain)) [
        | inl again ↦ rw (failed, again) quiet
        | inr lost ↦
            rw (failed, lost)
              (sent-Steps c b (next_round c' b') n (next_round-Steps c c' b b' o same k))
      ]
    ]
  where
    quiet : Steps c b (c', b')
    quiet = (o.sound, quiet-Moves c.count c'.count b b' same wins k)

-- A client with its datagram, which is the same client otherwise.
record Filled (c : BenchClient) (b : Bench) (r : BenchClient × Bench) : Type 0 where
  is_open : IsOpen b r.0
  count : r.0.count ≡ c.count
  wins : r.1.success ≡ b.success
  alike : Alike b r.1

same-Filled : (c : BenchClient) (b : Bench) → IsOpen b c → Filled c b (c, b)
same-Filled c b o = record { is_open = o; count = refl; wins = refl; alike = same-Alike b }

fill-Filled : (c : BenchClient) (b : Bench) → IsOpen b c → Filled c b (fill c b)
unfolding fill
fill-Filled c b o = from c.write_buf b.framed
  where
    from :
        (buf : List ℕ) (framed : Bool)
        → Filled c b (elim buf as (λ x. BenchClient × Bench) [
          | [] ↦
              if framed
              then (
                record c { write_buf = numbered (b.number + 1) },
                record b { number = b.number + 1 },
              )
              else (c, b)
          | x ∷ xs ↦ (c, b)
        ])
    from [] true = record {
      is_open = record {
        sound = record {
          counted = o.sound.counted;
          open_until = o.sound.open_until;
          one_thing = o.sound.one_thing;
        };
        more = o.more;
        on = o.on;
      };
      count = refl;
      wins = refl;
      alike = record {
        requests = refl;
        repeats = refl;
        total = refl;
        looping = refl;
        wins = omega arith;
      };
    }
    from [] false = same-Filled c b o
    from (x ∷ xs) framed = same-Filled c b o

write_callback-Steps :
    (w : Written) (e : ℤ) (c : BenchClient) (b : Bench)
    → IsOpen b c
    → Steps c b (write_callback w e c b)
unfolding write_callback
write_callback-Steps (written n) e c b o =
    let f = fill-Filled c b o in
    after_send-Steps (pos n) e c (fill c b).0 b (fill c b).1 f.is_open f.count f.wins f.alike
write_callback-Steps (write_failed e') e c b o =
    let f = fill-Filled c b o in
    after_send-Steps (negsuc 0) e' c (fill c b).0 b (fill c b).1 f.is_open f.count f.wins f.alike

io_callback-Steps :
    (w : BenchWakeup) (c : BenchClient) (b : Bench)
    → IsOpen b c
    → w.revents.read && w.revents.write ≡ false
    → Steps c b (io_callback w c b)
unfolding io_callback
io_callback-Steps w c b o one = elim (Bool-cases w.revents.error) [
  | inl error ↦ rw error (next_round-Steps c c b b o refl (same-Alike b))
  | inr fine ↦ elim (Bool-cases w.revents.read) [
    | inl reads ↦
        let quiet : w.revents.write ≡ false = rw reads at one in
        rw (fine, reads, quiet) (read_callback-Steps w.recv c b o)
    | inr unread ↦ elim (Bool-cases w.revents.write) [
      | inl writes ↦ rw (fine, unread, writes) (write_callback-Steps w.write w.errno c b o)
      | inr quiet ↦
          rw (fine, unread, quiet)
            (o.sound, quiet-Moves c.count c.count b b refl refl (same-Alike b))
    ]
  ]
]

init_lem : (fd : ℤ) (b : Bench) → eqb_ℤ fd (negsuc 0) ≡ false → init fd b ≡ (some fresh, b)
unfolding init
init_lem fd b h = rw h refl

pub udp_program-IsProgram : IsProgram udp_program
udp_program-IsProgram = record { opens = init_lem; steps = io_callback-Steps }
