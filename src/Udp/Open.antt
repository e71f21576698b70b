-- ===== src/Udp/Open.antt =====
-- `Start()`, `Send()` and `Stop()` of `CUdpServer`, one after the other.
use serverlib.Prelude.{ℕ, ◌%◌, ◌^◌, ◌≡◌, refl, sym, ap, ◌∙◌, true, false, List, [], ◌∷◌}
use serverlib.Prelude.Int.{ℤ, pos, ltb_ℤ}
use serverlib.Udp.{Event, sent, binds, set_nonblock, closed}
use serverlib.Udp.Server
use serverlib.Udp.Server.{UdpServer}

-- A datagram to send: its address, port, bytes and length.
abbrev pub Order : Type 0
Order = ℕ × ℕ × List ℕ × ℤ

abbrev pub send_all : List Order → UdpServer → UdpServer
send_all [] s = s
send_all ((ip, port, bytes, len) ∷ orders) s = send_all orders (Server.send ip port bytes len s)

-- What `sendto` is called with for these orders, newest first, on top of a log.
abbrev pub sendings : ℤ → List Order → List Event → List Event
sendings fd [] log = log
sendings fd ((ip, port, bytes, len) ∷ orders) log =
    sendings fd orders (sent fd bytes len (ip % 2 ^ 32) port ∷ log)

send_all_closed :
    (orders : List Order) (s : UdpServer) → ltb_ℤ (pos 0) s.socket ≡ false → send_all orders s ≡ s
unfolding Server.send
send_all_closed [] s h = refl
send_all_closed ((ip, port, bytes, len) ∷ orders) s h = rw h (send_all_closed orders s h)

send_all_open :
    (orders : List Order) (s : UdpServer)
    → ltb_ℤ (pos 0) s.socket ≡ true
    → send_all orders s ≡ record s { log = sendings s.socket orders s.log }
unfolding Server.send
send_all_open [] s h = refl
send_all_open ((ip, port, bytes, len) ∷ orders) s h =
    rw h (
      send_all_open orders (record s { log = sent s.socket bytes len (ip % 2 ^ 32) port ∷ s.log })
        h)

-- What `Start()` tells the system.
abbrev pub opening : ℕ → ℕ → ℤ → List Event → List Event
opening ip port fd log = binds fd (ip % 2 ^ 32) port ∷ (set_nonblock fd ∷ log)

-- A started server that has sent these datagrams, and is then stopped.
abbrev stopped : ℕ → ℕ → ℤ → List Order → UdpServer → UdpServer
stopped ip port fd orders s = record {
  data_handle = s.data_handle;
  socket = pos 0;
  reading = false;
  looping = false;
  log = closed fd ∷ sendings fd orders (opening ip port fd s.log);
}

started_lem :
    (ip port : ℕ) (fd : ℤ) (s : UdpServer)
    → (Server.start ip port fd (pos 0) s).0
      ≡ record s { socket = fd; reading = true; looping = true; log = opening ip port fd s.log }
unfolding Server.start
started_lem ip port fd s = refl

stop_open :
    (s : UdpServer)
    → ltb_ℤ (pos 0) s.socket ≡ true
    → (Server.stop s).0
      ≡ record s { socket = pos 0; reading = false; looping = false; log = closed s.socket ∷ s.log }
unfolding Server.stop
stop_open s h = rw h refl

stopped_lem :
    (ip port : ℕ) (fd : ℤ) (orders : List Order) (s : UdpServer)
    → ltb_ℤ (pos 0) fd ≡ true
    → (Server.stop (send_all orders (Server.start ip port fd (pos 0) s).0)).0
      ≡ stopped ip port fd orders s
stopped_lem ip port fd orders s h =
    ap (λ (u : UdpServer). (Server.stop (send_all orders u)).0) (started_lem ip port fd s)
    ∙ ap (λ (u : UdpServer). (Server.stop u).0) (send_all_open orders _ h)
    ∙ stop_open _ h

stop-stopped :
    (ip port : ℕ) (fd : ℤ) (orders : List Order) (s : UdpServer)
    → (Server.stop (stopped ip port fd orders s)).0 ≡ stopped ip port fd orders s
unfolding Server.stop
stop-stopped ip port fd orders s = refl

-- A server that is started on a descriptor above 0, sends, and is stopped, and sends again, calls
-- `sendto` once for each datagram before the stop, in order, then closes the socket, once however
-- often it is stopped, and sends nothing more.
pub stop-send_all :
    (ip port : ℕ) (fd : ℤ) (before after : List Order) (s : UdpServer)
    → ltb_ℤ (pos 0) fd ≡ true
    → let started = (Server.start ip port fd (pos 0) s).0 in
      let stopped = (Server.stop (send_all before started)).0 in
      (send_all after stopped).log ≡ closed fd ∷ sendings fd before (opening ip port fd s.log)
      × ((Server.stop stopped).0 ≡ stopped)
stop-send_all ip port fd before after s h = (
  ap (λ (u : UdpServer). (send_all after u).log) (stopped_lem ip port fd before s h)
      ∙ ap (λ (u : UdpServer). u.log) (send_all_closed after (stopped ip port fd before s) refl),
  ap (λ (u : UdpServer). (Server.stop u).0) (stopped_lem ip port fd before s h)
      ∙ stop-stopped ip port fd before s
      ∙ sym (stopped_lem ip port fd before s h),
)
