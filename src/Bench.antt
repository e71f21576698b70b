-- ===== src/Bench.antt =====
-- The load generators of test/: tcpechoclient.cpp, and tcpproxytest.cpp, which puts a length before
-- each request; udpechoclient.cpp and udpproxytest.cpp, over datagrams, are in Bench/Udp. Clients
-- with one socket each send a request, wait for as many bytes, and count a round; when all rounds
-- are counted, the loop ends. The counts of the command line are not negative, and the counters
-- stay below 2 ^ 31.
pub mod Moves
pub mod Rounds
pub mod Programs
pub mod Runs
pub mod End
pub mod Udp
pub mod Main
use serverlib.Prelude.{
  ℕ, zero, suc, ◌+◌, ◌-◌, ◌/◌, ◌%◌, ◌≡◌, Bool, true, false, ◌&&◌, List, [], ◌∷◌, ◌++◌, Option, none,
  some, leb, ◌==◌, if◌then◌else◌, length,
}
use serverlib.Prelude.Int.{ℤ, pos, negsuc, eqb_ℤ, add_ℤ}
use serverlib.Prelude.Words.{bytes32}
use serverlib.Tcp.Connection.{
  Recv, received, recv_failed, Written, written, write_failed, Revents, eagain,
}

-- The globals; `framed` tells the programs with a length from the others. `number` is a global of
-- udpproxytest.cpp only.
pub record Bench : Type 0 where
  pub framed : Bool
  pub requests : ℕ
  pub repeats : ℕ
  pub total : ℕ
  pub success : ℕ
  pub read_bytes : ℕ
  pub write_bytes : ℤ
  pub number : ℕ
  pub looping : Bool

-- `active` while the watcher is started; `reads` and `writes` are what it watches.
pub record BenchClient : Type 0 where
  pub active : Bool
  pub reads : Bool
  pub writes : Bool
  pub count : ℕ
  pub write_len : ℕ
  pub read_buf : List ℕ
  pub write_buf : List ℕ

-- What libev reports, what `recv` and `write` return, and `errno` as it stands before.
pub record BenchWakeup : Type 0 where
  pub revents : Revents
  pub recv : Recv
  pub write : Written
  pub errno : ℤ

-- `"helloworld"`
abbrev pub testdata : List ℕ
testdata = 104 ∷ 101 ∷ 108 ∷ 108 ∷ 111 ∷ 119 ∷ 111 ∷ 114 ∷ 108 ∷ 100 ∷ []

-- The digits that `%d` prints, with fuel for one round for each.
unfoldable pub digits : ℕ → ℕ → List ℕ
digits zero n = []
digits (suc fuel) n =
    let front = digits fuel (n / 10) in
    if leb n 9 then (48 + n) ∷ [] else front ++ (48 + n % 10) ∷ []

-- The next request. A number of 20 digits or more would be cut; `int`s have ten.
unfoldable pub request : Bench → List ℕ
unfolding digits
request b =
    let text = testdata ++ digits 20 b.total in
    if b.framed then bytes32 (length text) ++ text else text

-- `Init()`, with what `socket()` returned: no client if it failed, and then its rounds count as
-- done.
unfoldable pub init : ℤ → Bench → Option BenchClient × Bench
init fd b =
    let total = b.total + b.repeats in
    if eqb_ℤ fd (negsuc 0)
    then (
      none,
      record b { total = total; looping = if total == b.requests then false else b.looping },
    )
    else (
      some (record {
        active = true;
        reads = false;
        writes = true;
        count = 0;
        write_len = 0;
        read_buf = [];
        write_buf = [];
      }),
      b,
    )

-- `__Stats()`: a round is over, well or not.
unfoldable pub stats : BenchClient → Bench → BenchClient × Bench
stats c b =
    let c' = record c { count = c.count + 1; write_len = 0; read_buf = []; write_buf = [] } in
    let b' = record b {
      total = b.total + 1;
      looping = if b.total + 1 == b.requests then false else b.looping;
    } in
    if c.count + 1 == b.repeats
    then (record c' { active = false }, b')
    else (record c' { reads = false; writes = true }, b')

-- What `recv` or `write` without a byte leads to: `EAGAIN` is ignored.
unfoldable pub no_bytes : ℤ → BenchClient → Bench → BenchClient × Bench
no_bytes errno c b = if eqb_ℤ errno eagain then (c, b) else stats c b

-- `__ReadCallback()`
unfoldable pub read_callback : Recv → ℤ → BenchClient → Bench → BenchClient × Bench
read_callback (received []) errno c b = no_bytes errno c b
read_callback (recv_failed e) errno c b = no_bytes e c b
read_callback (received (x ∷ xs)) errno c b =
    let bytes = c.read_buf ++ x ∷ xs in
    let c' = record c { read_buf = bytes } in
    let b' = record b { read_bytes = b.read_bytes + length (x ∷ xs) } in
    if length bytes == length c.write_buf
    then stats c' (record b' { success = b.success + 1 })
    else (c', b')

-- A request is made if there is none.
unfoldable pub fill : BenchClient → Bench → BenchClient
fill c b = elim c.write_buf [ [] ↦ record c { write_buf = request b } | x ∷ xs ↦ c ]

-- `__WriteCallback()`
unfoldable pub write_callback : Written → ℤ → BenchClient → Bench → BenchClient × Bench
write_callback (written zero) errno c b = no_bytes errno (fill c b) b
write_callback (write_failed e) errno c b = no_bytes e (fill c b) b
write_callback (written (suc n)) errno c b =
    let c' = fill c b in
    let len = c'.write_len + suc n in
    let b' = record b { write_bytes = add_ℤ b.write_bytes (pos (suc n)) } in
    if leb (length c'.write_buf) len
    then (record c' { write_len = len; reads = true; writes = false }, b')
    else (record c' { write_len = len }, b')

-- `__IoCallback()`
unfoldable pub io_callback : BenchWakeup → BenchClient → Bench → BenchClient × Bench
io_callback w c b =
    let r = if w.revents.read then read_callback w.recv w.errno c b else (c, b) in
    if w.revents.error
    then stats c b
    else if w.revents.write
    then write_callback w.write w.errno r.0 r.1
    else r

-- What the programs differ in: how a client is made, and its callback.
pub record Program : Type 0 where
  pub init_client : ℤ → Bench → Option BenchClient × Bench
  pub io : BenchWakeup → BenchClient → Bench → BenchClient × Bench

abbrev pub tcp_program : Program
tcp_program = record { init_client = init; io = io_callback }

module _ (p : Program) where
  -- libev wakes an active client only, and with the events that it watches.
  unfoldable pub wake : BenchWakeup → BenchClient → Bench → BenchClient × Bench
  wake w c b =
      let revents = record (w.revents) {
        read = w.revents.read && c.reads;
        write = w.revents.write && c.writes;
      } in
      if c.active then p.io (record w { revents = revents }) c b else (c, b)

  -- The client at this place is woken.
  unfoldable pub wake_at : ℕ → BenchWakeup → List BenchClient → Bench → List BenchClient × Bench
  wake_at i w [] b = ([], b)
  wake_at zero w (c ∷ clients) b = let r = wake w c b in (r.0 ∷ clients, r.1)
  wake_at (suc i) w (c ∷ clients) b = let r = wake_at i w clients b in (c ∷ r.0, r.1)

  -- The clients of `main`, one for each descriptor that `socket()` returned.
  unfoldable pub init_all : List ℤ → Bench → List BenchClient × Bench
  init_all [] b = ([], b)
  init_all (fd ∷ fds) b =
      let r = p.init_client fd b in
      let rest = init_all fds r.1 in elim r.0 [ none ↦ rest | some c ↦ (c ∷ rest.0, rest.1) ]
