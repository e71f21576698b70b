-- ===== src/Common/Server/Receive.antt =====
-- `CCommonServer::__AddContent` on the bytes of one client.
use serverlib.Prelude.{
  ℕ, ◌+◌, ◌%◌, ◌^◌, ◌≤◌, ◌<◌, ◌≡◌, refl, ◌∙◌, false, Bool-cases, inl, inr, List, [], ◌∷◌, get_or,
  set, length, length-set, length-take, take, ◌==◌, if◌then◌else◌, arith,
}
use serverlib.Prelude.Int.{pos}
use serverlib.Prelude.Map
use serverlib.Prelude.Map.{same, same_refl, find-assign}
use serverlib.Prelude.Run.{Run, ok, Run-cases, Returns, ◌>>=◌}
use serverlib.Socket.{SocketClientData}
use serverlib.Socket.Order.{client_order}
use serverlib.OutputBuffer.{OutputBuffer, new_output_buffer}
use serverlib.Framing.{feed, feed_all}
use serverlib.Framing.Cut.{stream, join, IsSized, IsBounded}
use serverlib.Framing.Stream.{puts_by, feed_all-stream}
use serverlib.Tcp.Channels.View.{get_elem?-get_or}
use serverlib.Tcp.Server.{tell, on_client_data_received}
use serverlib.Common.Threads.{new_thread, add_pkt}
use serverlib.Common.Server.{
  Dispatcher, CommonServer, next_thread, handle_pkt, content, add_content,
}

-- One call for each chunk of bytes that arrives from the client.
pub receive_all : SocketClientData → List (List ℕ) → CommonServer → Run CommonServer
receive_all client [] s = ok s
receive_all client (chunk ∷ chunks) s = add_content client chunk s >>= receive_all client chunks

abbrev pub packet_buffer : List ℕ → OutputBuffer
packet_buffer bytes = record { data_bytes = bytes; len = length bytes; position = 0 }

-- What one packet does: it goes to the data handle, or to the end of the next thread's queue.
abbrev pub dispatch : SocketClientData → Dispatcher → List ℕ → Dispatcher
dispatch client d bytes =
    if d.thread_num == 0
    then record d { tcp = tell (on_client_data_received d.tcp.data_handle client bytes) d.tcp }
    else record d {
      count = (d.count + 1) % 2 ^ 64;
      threads =
          set d.threads (next_thread d)
            (add_pkt (client, packet_buffer bytes) (get_or d.threads (next_thread d) new_thread));
    }

-- There are as many threads as the server believes.
abbrev pub HasThreads : Dispatcher → Type 0
HasThreads d = length d.threads ≡ d.thread_num

pub dispatch-HasThreads :
    (client : SocketClientData) (d : Dispatcher) (bytes : List ℕ)
    → HasThreads d
    → HasThreads (dispatch client d bytes)
dispatch-HasThreads client d bytes h = elim (Bool-cases (d.thread_num == 0)) [
  | inl alone ↦ rw alone h
  | inr more ↦ rw more (length-set d.threads (next_thread d) _ ∙ h)
]

pub next_thread-lt :
    (d : Dispatcher) → HasThreads d → (d.thread_num == 0) ≡ false → next_thread d < length d.threads
unfolding next_thread
next_thread-lt d h more = ground arith

pub handle_pkt-dispatch :
    (client : SocketClientData) (d : Dispatcher) (bytes : List ℕ) (n : ℕ)
    → HasThreads d
    → n ≤ length bytes
    → handle_pkt client d bytes (pos n) ≡ ok (dispatch client d (take n bytes))
unfolding handle_pkt new_output_buffer
handle_pkt-dispatch client d bytes n h fits = elim (Bool-cases (d.thread_num == 0)) [
  | inl alone ↦ rw alone
  | inr more ↦
      rw (
        more,
        get_elem?-get_or d.threads (next_thread d) new_thread (next_thread-lt d h more),
        exact,
      )
]
  where
    exact : length (take n bytes) ≡ n
    exact = omega (arith, length-take n bytes)

-- What is the case when a client's chunks are all received.
pub record Received (client : SocketClientData) (s : CommonServer) (d : Dispatcher) (left : List ℕ)
    (t : CommonServer) : Type 0 where
  pub dispatcher : t.dispatcher ≡ d
  pub kept : content client t ≡ left
  pub others :
      (other : SocketClientData) → same client other ≡ false → content other t ≡ content other s

content-assign :
    (client other : SocketClientData) (bytes : List ℕ) (s : CommonServer) (d : Dispatcher)
    → content other (record { dispatcher = d; contents = Map.assign client bytes s.contents })
      ≡ (if same client other then bytes else content other s)
unfolding content
content-assign client other bytes s d = elim (Bool-cases (same client other)) [
  | inl one ↦ rw (find-assign other client bytes s.contents, content, one)
  | inr two ↦ rw (find-assign other client bytes s.contents, content, two)
]

-- The calls for the chunks of one client are the packet loop over that client's own buffer; no other
-- client's bytes are touched.
receive_all-feed_all :
    (client : SocketClientData) (chunks : List (List ℕ)) (s : CommonServer) (d : Dispatcher)
    (left : List ℕ)
    → feed_all (handle_pkt client) s.dispatcher (content client s) chunks ≡ ok (d, left)
    → Returns (receive_all client chunks s) (Received client s d left)
unfolding receive_all add_content feed_all
receive_all-feed_all client [] s d left e =
    (s, refl, record { dispatcher = cc; kept = cc; others = λ other apart. refl })
receive_all-feed_all client (c ∷ chunks) s d left e =
    elim (Run-cases (feed (handle_pkt client) s.dispatcher (content client s) c)) [
      | inr (f, threw) ↦ absurd (cc (rw threw at e))
      | inl ((d₁, left₁), ran) ↦
          let s₁ : CommonServer = record {
            dispatcher = d₁;
            contents = Map.assign client left₁ s.contents;
          } in
          let same₁ : content client s₁ ≡ left₁ =
            content-assign client client left₁ s d₁ ∙ rw (same_refl client) in
          let (t, ran', r) =
            receive_all-feed_all client chunks s₁ d left (rw same₁ (rw ran at e)) in
          (
            t,
            rw ran ran',
            record {
              dispatcher = r.dispatcher;
              kept = r.kept;
              others = λ other apart.
                  r.others other apart ∙ content-assign client other left₁ s d₁ ∙ rw apart;
            },
          )
    ]

-- Of a server with as many threads as it believes, that holds nothing of the client, and for bodies
-- that are not empty and chunks that are short enough for an `int`: however the client's packets
-- are cut into chunks, each is dispatched once, whole, header included, and in order; nothing is
-- left over, and the other clients' bytes stay.
pub receive_all-stream :
    (most chunk : ℕ) (client : SocketClientData) (bodies chunks : List (List ℕ)) (s : CommonServer)
    → HasThreads s.dispatcher
    → content client s ≡ []
    → IsSized most bodies
    → IsBounded chunk chunks
    → most + 4 + chunk < 2 ^ 31
    → join chunks ≡ stream bodies
    → Returns
        (receive_all client chunks s)
        (Received client s (puts_by (dispatch client) s.dispatcher bodies) [])
receive_all-stream most chunk client bodies chunks s threads empty sized bounded fits e =
    receive_all-feed_all client chunks s (puts_by (dispatch client) s.dispatcher bodies) [] (
      rw empty (
        feed_all-stream (handle_pkt client) (dispatch client) HasThreads
          (λ d bytes. dispatch-HasThreads client d bytes)
          (λ d bytes n h e. handle_pkt-dispatch client d bytes (n + 4) h) most chunk s.dispatcher
          bodies chunks threads sized bounded fits e))
