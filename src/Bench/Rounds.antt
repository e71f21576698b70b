-- ===== src/Bench/Rounds.antt =====
-- The callbacks of a client of the TCP load generators, and the rounds that they count.
use serverlib.Prelude.{
  ℕ, zero, suc, ◌+◌, ◌≡◌, refl, Bool, true, false, ◌&&◌, Bool-cases, inl, inr, List, [], ◌∷◌, ◌++◌,
  leb, ◌==◌, length, arith,
}
use serverlib.Prelude.Int.{ℤ, pos, add_ℤ, eqb_ℤ}
use serverlib.Tcp.Connection.{Recv, received, recv_failed, Written, written, write_failed, eagain}
use serverlib.Bench.{
  Bench, BenchClient, BenchWakeup, request, no_bytes, read_callback, fill, write_callback,
  io_callback,
}
use serverlib.Bench.Moves.{Steps, stats-Steps, quiet-Moves, same-Alike, IsOpen}

no_bytes-Steps :
    (e : ℤ) (c c' : BenchClient) (b : Bench)
    → IsOpen b c'
    → c'.count ≡ c.count
    → Steps c b (no_bytes e c' b)
unfolding no_bytes
no_bytes-Steps e c c' b o same = elim (Bool-cases (eqb_ℤ e eagain)) [
  | inl again ↦ rw again (o.sound, quiet-Moves c.count c'.count b b same refl (same-Alike b))
  | inr lost ↦ rw lost (
      stats-Steps c c' b b (omega (arith, o.more, same)) same o.on o.sound.one_thing (same-Alike b))
]

read_callback-Steps :
    (r : Recv) (e : ℤ) (c : BenchClient) (b : Bench)
    → IsOpen b c
    → Steps c b (read_callback r e c b)
unfolding read_callback
read_callback-Steps (received []) e c b o = no_bytes-Steps e c c b o refl
read_callback-Steps (recv_failed e') e c b o = no_bytes-Steps e' c c b o refl
read_callback-Steps (received (x ∷ xs)) e c b o =
    elim (Bool-cases (length (c.read_buf ++ x ∷ xs) == length c.write_buf)) [
      | inl whole ↦ rw whole (
          stats-Steps c (record c { read_buf = c.read_buf ++ x ∷ xs }) b
            (record b { read_bytes = b.read_bytes + length (x ∷ xs); success = b.success + 1 })
            o.more refl o.on o.sound.one_thing
            (record {
              requests = refl;
              repeats = refl;
              total = refl;
              looping = refl;
              wins = omega arith;
            }))
      | inr part ↦ rw part (
        record {
          counted = o.sound.counted;
          open_until = o.sound.open_until;
          one_thing = o.sound.one_thing;
        },
        quiet-Moves c.count c.count b _ refl refl (record {
          requests = refl;
          repeats = refl;
          total = refl;
          looping = refl;
          wins = omega arith;
        }),
      )
    ]

fill_lem :
    (c : BenchClient) (b : Bench) → IsOpen b c → IsOpen b (fill c b) × ((fill c b).count ≡ c.count)
unfolding fill
fill_lem c b o = from c.write_buf
  where
    from :
        (buf : List ℕ)
        → let f : BenchClient = elim buf [ [] ↦ record c { write_buf = request b } | x ∷ xs ↦ c ] in
          IsOpen b f × (f.count ≡ c.count)
    from [] = (
      record {
        sound = record {
          counted = o.sound.counted;
          open_until = o.sound.open_until;
          one_thing = o.sound.one_thing;
        };
        more = o.more;
        on = o.on;
      },
      refl,
    )
    from (x ∷ xs) = (o, refl)

-- Bytes that were written, by a client that now watches this.
written-Steps :
    (c c' : BenchClient) (b : Bench) (reads writes : Bool) (len : ℕ) (n : ℤ)
    → IsOpen b c'
    → c'.count ≡ c.count
    → reads && writes ≡ false
    → Steps c b (
      record c' { write_len = len; reads = reads; writes = writes },
      record b { write_bytes = add_ℤ b.write_bytes n },
    )
written-Steps c c' b reads writes len n o same one = (
  record { counted = o.sound.counted; open_until = o.sound.open_until; one_thing = one },
  quiet-Moves c.count c'.count b _ same refl (record {
    requests = refl;
    repeats = refl;
    total = refl;
    looping = refl;
    wins = omega arith;
  }),
)

write_callback-Steps :
    (w : Written) (e : ℤ) (c : BenchClient) (b : Bench)
    → IsOpen b c
    → Steps c b (write_callback w e c b)
unfolding write_callback
write_callback-Steps (written zero) e c b o =
    let (o', same) = fill_lem c b o in no_bytes-Steps e c (fill c b) b o' same
write_callback-Steps (write_failed e') e c b o =
    let (o', same) = fill_lem c b o in no_bytes-Steps e' c (fill c b) b o' same
write_callback-Steps (written (suc n)) e c b o =
    let (o', same) = fill_lem c b o in
    let f = fill c b in
    elim (Bool-cases (leb (length f.write_buf) (f.write_len + suc n))) [
      | inl whole ↦
          rw whole (written-Steps c f b true false (f.write_len + suc n) (pos (suc n)) o' same refl)
      | inr part ↦ rw part (
          written-Steps c f b f.reads f.writes (f.write_len + suc n) (pos (suc n)) o' same
            o'.sound.one_thing)
    ]

pub io_callback-Steps :
    (w : BenchWakeup) (c : BenchClient) (b : Bench)
    → IsOpen b c
    → w.revents.read && w.revents.write ≡ false
    → Steps c b (io_callback w c b)
unfolding io_callback
io_callback-Steps w c b o one = elim (Bool-cases w.revents.error) [
  | inl error ↦ rw error (stats-Steps c c b b o.more refl o.on o.sound.one_thing (same-Alike b))
  | inr fine ↦ elim (Bool-cases w.revents.read) [
    | inl reads ↦
        let quiet : w.revents.write ≡ false = rw reads at one in
        rw (fine, reads, quiet) (read_callback-Steps w.recv w.errno c b o)
    | inr unread ↦ elim (Bool-cases w.revents.write) [
      | inl writes ↦ rw (fine, unread, writes) (write_callback-Steps w.write w.errno c b o)
      | inr quiet ↦
          rw (fine, unread, quiet)
            (o.sound, quiet-Moves c.count c.count b b refl refl (same-Alike b))
    ]
  ]
]
