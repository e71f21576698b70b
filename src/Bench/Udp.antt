-- ===== src/Bench/Udp.antt =====
-- The UDP load generators of test/: udpechoclient.cpp, and udpproxytest.cpp, which puts a length
-- and a number into its datagram. A client sends one datagram and counts a round for whatever it
-- then reads.
pub mod Rounds
pub mod End
use serverlib.Prelude.{
  ℕ, zero, suc, ◌+◌, ◌≡◌, Bool, true, false, List, [], ◌∷◌, ◌++◌, Option, none, some, ◌==◌,
  if◌then◌else◌, length,
}
use serverlib.Prelude.Int.{ℤ, pos, negsuc, eqb_ℤ, add_ℤ}
use serverlib.Prelude.Words.{bytes32}
use serverlib.Tcp.Connection.{Recv, received, recv_failed, Written, written, write_failed, eagain}
use serverlib.Bench.{Bench, BenchClient, BenchWakeup, Program, testdata, digits}

-- `Init()`, with what `socket()` returned: if it failed, nothing is counted.
unfoldable pub init : ℤ → Bench → Option BenchClient × Bench
init fd b = if eqb_ℤ fd (negsuc 0) then (none, b) else (
  some (record {
    active = true;
    reads = false;
    writes = true;
    count = 0;
    write_len = 0;
    read_buf = [];
    write_buf = [];
  }),
  b,
)

-- A round is over, well or not. `io.stop()` is all that is closed.
unfoldable pub next_round : BenchClient → Bench → BenchClient × Bench
next_round c b = (
  record c { count = c.count + 1; active = if c.count + 1 == b.repeats then false else c.active },
  record b {
    total = b.total + 1;
    looping = if b.total + 1 == b.requests then false else b.looping;
  },
)

-- `watcher.set(ev::WRITE)` and `watcher.set(ev::READ)`: a stopped watcher stays so.
abbrev pub watch_write : BenchClient × Bench → BenchClient × Bench
watch_write r = (record (r.0) { reads = false; writes = true }, r.1)

abbrev pub watch_read : BenchClient × Bench → BenchClient × Bench
watch_read r = (record (r.0) { reads = true; writes = false }, r.1)

-- What is sent: `testdata`, or `writebuf`, which udpproxytest.cpp fills once for each client.
abbrev pub datagram : Bench → BenchClient → List ℕ
datagram b c = if b.framed then c.write_buf else testdata

unfoldable pub numbered : ℕ → List ℕ
numbered n = let text = testdata ++ digits 20 n in bytes32 (length text) ++ text

unfoldable pub fill : BenchClient → Bench → BenchClient × Bench
fill c b = elim c.write_buf [
  | [] ↦
      if b.framed
      then (record c { write_buf = numbered (b.number + 1) }, record b { number = b.number + 1 })
      else (c, b)
  | x ∷ xs ↦ (c, b)
]

-- `__ReadCallback()`: an answer of the right length is a success; a round is over in any case.
unfoldable pub read_callback : Recv → BenchClient → Bench → BenchClient × Bench
read_callback (received bytes) c b =
    if length bytes == length (datagram b c)
    then watch_write (
        next_round c
          (record b { success = b.success + 1; read_bytes = b.read_bytes + length bytes }))
    else watch_write (next_round c b)
read_callback (recv_failed e) c b = watch_write (next_round c b)

-- What follows the `sendto` that returned `n`: a number other than the whole length is a failure,
-- unless `errno` says `EAGAIN`. A -1 is added to `writebytes` as it is.
unfoldable pub after_send : ℤ → ℤ → BenchClient → Bench → BenchClient × Bench
after_send n errno c b =
    let sent = λ (r : BenchClient × Bench).
      watch_read (r.0, record (r.1) { write_bytes = add_ℤ r.1.write_bytes n }) in
    if eqb_ℤ n (pos (length (datagram b c)))
    then sent (c, b)
    else if eqb_ℤ errno eagain
    then (c, b)
    else sent (next_round c b)

-- `__WriteCallback()`
unfoldable pub write_callback : Written → ℤ → BenchClient → Bench → BenchClient × Bench
write_callback (written n) errno c b = let r = fill c b in after_send (pos n) errno r.0 r.1
write_callback (write_failed e) errno c b = let r = fill c b in after_send (negsuc 0) e r.0 r.1

-- `__IoCallback()`
unfoldable pub io_callback : BenchWakeup → BenchClient → Bench → BenchClient × Bench
io_callback w c b =
    let r = if w.revents.read then read_callback w.recv c b else (c, b) in
    if w.revents.error
    then next_round c b
    else if w.revents.write
    then write_callback w.write w.errno r.0 r.1
    else r

abbrev pub udp_program : Program
udp_program = record { init_client = init; io = io_callback }
