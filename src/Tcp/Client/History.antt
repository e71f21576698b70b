-- ===== src/Tcp/Client/History.antt =====
-- Any history of a client: calls of its users, from whichever thread, and callbacks of the loop, in
-- any order, over any number of connections.
use serverlib.Prelude.{
  ℕ, suc, ◌+◌, ◌≤◌, ◌≡◌, refl, ◌∙◌, List, [], ◌∷◌, ◌++◌, Option, none, some, length, take,
  append_assoc, arith,
}
use serverlib.Prelude.Int.{ℤ, pos, negsuc}
use serverlib.Prelude.Run.{Run, ok, Returns, ◌>>=◌}
use serverlib.Tcp.Connection.{IoWatcher, write_queue_max_size}
use serverlib.Tcp.Connection.Queue.{Takes}
use serverlib.Tcp.Client.{
  TcpClient, Wakeup, new_tcp_client, set_data_handle, start, stop, post_send, async_callback,
  io_callback,
}
use serverlib.Tcp.Client.Members.{
  IsClient, async_callback-IsClient, io_callback-IsClient, Rests-IsClient, start-Rests,
  post_send-IsClient, nothing_sent,
}

-- What can happen to a client.
pub data Input : Type 0 where
  sets_data_handle : ℕ → Input
  starts : ℕ → ℕ → ℤ → Input
  stops asyncs : Input
  sends : List ℕ → ℤ → Input
  wakes : Wakeup → Input

-- libev wakes the client only while its watcher is started.
unfoldable pub step : TcpClient → Input → Run TcpClient
step c (sets_data_handle h) = ok (set_data_handle h c)
step c (starts ip port fd) = ok (start ip port fd c).0
step c stops = ok (stop c).0
step c asyncs = ok (async_callback c)
step c (sends bytes len) = post_send bytes len c >>= λ r. ok r.0
step c (wakes w) = elim c.io [ none ↦ ok c | some io ↦ ok (io_callback w io.fd c) ]

unfoldable pub run : TcpClient → List Input → Run TcpClient
run c [] = ok c
run c (i ∷ inputs) = step c i >>= λ d. run d inputs

-- The users pass as many bytes as they say, and `write` takes no more than it is offered.
abbrev pub IsProper : TcpClient → Input → Type 0
IsProper c (sends bytes len) = (n : ℕ) × (len ≡ pos n) × (n ≤ length bytes)
IsProper c (wakes w) = Takes w.write c.write_queue
IsProper c (_) = Unit {0}

abbrev pub AllProper : TcpClient → List Input → Type 0
AllProper c [] = Unit {0}
AllProper c (i ∷ inputs) = IsProper c i × ((d : TcpClient) → step c i ≡ ok d → AllProper d inputs)

-- The bytes that a history gives to `Send()`, and how often it calls it.
abbrev pub sent_by : Input → List ℕ
sent_by (sends bytes (pos n)) = take n bytes
sent_by (_) = []

abbrev pub sent : List Input → List ℕ
sent [] = []
sent (i ∷ inputs) = sent_by i ++ sent inputs

abbrev pub calls_by : Input → ℕ
calls_by (sends bytes len) = 1
calls_by (_) = 0

abbrev pub calls : List Input → ℕ
calls [] = 0
calls (i ∷ inputs) = calls_by i + calls inputs

step-IsClient :
    (total : List ℕ) (count : ℕ) (c : TcpClient) (i : Input)
    → count ≤ suc write_queue_max_size
    → IsClient total count c
    → IsProper c i
    → Returns (step c i) (IsClient (total ++ sent_by i) (count + calls_by i))
unfolding step set_data_handle stop
step-IsClient total count c (sets_data_handle h) few v p = (
  set_data_handle h c,
  refl,
  nothing_sent (
      Rests-IsClient {c = c} total count (record { functions = refl; queue = refl; written = refl })
        v),
)
step-IsClient total count c (starts ip port fd) few v p = (
  (start ip port fd c).0,
  refl,
  nothing_sent (Rests-IsClient total count (start-Rests ip port fd c) v),
)
step-IsClient total count c stops few v p = (
  (stop c).0,
  refl,
  nothing_sent (
      Rests-IsClient {c = c} total count (record { functions = refl; queue = refl; written = refl })
        v),
)
step-IsClient total count c asyncs few v p =
    (async_callback c, refl, nothing_sent (async_callback-IsClient total count c few v))
step-IsClient total count c (sends bytes (pos n)) few v p =
    post_send-IsClient total count bytes n c (ground (arith, p)) v
step-IsClient total count c (sends bytes (negsuc n)) few v p = absurd (ground (arith, p))
step-IsClient total count c (wakes w) few v p = from c.io
  where
    from :
        (io : Option IoWatcher)
        → Returns
            (elim io [ none ↦ ok c | some io ↦ ok (io_callback w io.fd c) ])
            (IsClient (total ++ []) (count + 0))
    from none = (c, refl, nothing_sent v)
    from (some io) =
        (io_callback w io.fd c, refl, nothing_sent (io_callback-IsClient total count w io.fd c p v))

run_from :
    (total : List ℕ) (count : ℕ) (c : TcpClient) (inputs : List Input)
    → count + calls inputs ≤ suc write_queue_max_size
    → IsClient total count c
    → AllProper c inputs
    → Returns (run c inputs) (IsClient (total ++ sent inputs) (count + calls inputs))
unfolding run
run_from total count c [] few v p = (c, refl, nothing_sent v)
run_from total count c (i ∷ inputs) few v p =
    let (d, ran, w) = step-IsClient total count c i (omega arith) v p.0 in
    let (e, ran', w') =
      run_from (total ++ sent_by i) (count + calls_by i) d inputs (omega arith) w (p.1 d ran) in
    (
      e,
      rw ran ran',
      record {
        queued = w'.queued;
        posted = w'.posted;
        bounded = omega (arith, w'.bounded);
        adds_up = w'.adds_up ∙ append_assoc total (sent_by i) (sent inputs);
      },
    )

-- While at most 1000001 calls of `Send()` are made, no proper history of a new client throws, and
-- the bytes that it wrote to its sockets, then those queued, then those put off, are exactly those
-- that were given to `Send()`, in order, however often the connection was lost and made again.
pub run-IsClient :
    (inputs : List Input)
    → calls inputs ≤ suc write_queue_max_size
    → AllProper new_tcp_client inputs
    → Returns (run new_tcp_client inputs) (IsClient (sent inputs) (calls inputs))
unfolding new_tcp_client
run-IsClient inputs few p =
    let (c, ran, v) =
      run_from [] 0 new_tcp_client inputs (omega arith)
        (record { queued = tt; posted = tt; bounded = omega arith; adds_up = refl }) p in
    (
      c,
      ran,
      record {
        queued = v.queued;
        posted = v.posted;
        bounded = omega (arith, v.bounded);
        adds_up = v.adds_up;
      },
    )
