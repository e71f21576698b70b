-- ===== src/Tests/OtherRuns.antt =====
-- The theorems on the client, the UDP server and the proxies at concrete inputs.
use serverlib.Prelude.{
  ℕ, ◌≡◌, refl, true, false, List, [], ◌∷◌, ◌++◌, map, some, length, ◌%◌, ◌==◌, if◌then◌else◌,
  arith,
}
use serverlib.Prelude.Int.{ℤ, pos}
use serverlib.Prelude.Words.{bytes32}
use serverlib.Prelude.Run.{ok, Returns, ◌>>=◌}
use serverlib.Socket.{IsSocketClientData}
use serverlib.Socket.Order.{client_order}
use serverlib.Framing.Rounds.{packet}
use serverlib.Framing.Cut.{stream, join}
use serverlib.Tcp.Connection.{received, write_failed}
use serverlib.Tcp.Client.{Wakeup, new_tcp_client}
use serverlib.Tcp.Client.History
use serverlib.Tcp.Client.Members.{IsClient}
use serverlib.Tcp.Client.History.{
  Input, starts, stops, asyncs, wakes, AllProper, sent, calls, run-IsClient,
}
use serverlib.Udp
use serverlib.Udp.{binds, set_nonblock, closed}
use serverlib.Udp.Server
use serverlib.Udp.Server.{UdpServer}
use serverlib.Udp.Open.{Order, send_all, sendings, stop-send_all}
use serverlib.Proxy.Wire.{client_bytes, bytes16}
use serverlib.Proxy.Tcp.{Proxy, content}
use serverlib.Proxy.TcpTrip.{wrap}
use serverlib.Proxy.TcpRound.{
  client_sends, target_answers, content-nil, forwarded, returned, round_trip,
}
use serverlib.Proxy.Main.{defaults, init_pool, set_up, main}
use serverlib.Proxy.Main.Settings.{Setting, concurrency_is, target_is, rendered, applied, AllPlain}
use serverlib.Proxy.Main.Pool.{put_off, whole}
use serverlib.Proxy.Main.Forwards.{conversation, conversation-put_off}
use serverlib.Proxy.UdpTrip
use serverlib.Proxy.UdpMain
use serverlib.Tests.{alice, bob}

-- The connection is lost, and the client gets a new one.
abbrev lost : Wakeup
lost = record {
  revents = record { error = false; read = true; write = false; timer = false };
  recv = received [];
  write = write_failed (pos 11);
  errno = pos 0;
  opened = pos 6;
}

abbrev inputs : List Input
inputs = starts 1 80 (pos 5) ∷ History.sends (7 ∷ 8 ∷ []) (pos 2) ∷ asyncs ∷ wakes lost ∷ stops ∷ []

inputs-AllProper : AllProper new_tcp_client inputs
inputs-AllProper = (
  tt,
  λ c₁ e₁. ((2, refl, omega arith), λ c₂ e₂. (tt, λ c₃ e₃. (tt, λ c₄ e₄. (tt, λ c₅ e₅. tt)))),
)

run-IsClient_example :
    Returns (History.run new_tcp_client inputs) (IsClient (sent inputs) (calls inputs))
run-IsClient_example = run-IsClient inputs (omega arith) inputs-AllProper

abbrev idle_server : UdpServer
idle_server = record {
  data_handle = some 1;
  socket = pos 0;
  reading = false;
  looping = false;
  log = [];
}

abbrev first : List Order
first = (1, 80, 7 ∷ [], pos 1) ∷ []

stop-send_all_example :
    let started = (Server.start 0 80 (pos 5) (pos 0) idle_server).0 in
    let stopped = (Server.stop (send_all first started)).0 in
    (send_all first stopped).log
      ≡ closed (pos 5) ∷ sendings (pos 5) first (binds (pos 5) 0 80 ∷ (set_nonblock (pos 5) ∷ []))
    × ((Server.stop stopped).0 ≡ stopped)
stop-send_all_example = stop-send_all 0 80 (pos 5) first first idle_server refl

abbrev bodies : List (List ℕ)
bodies = (7 ∷ []) ∷ []

abbrev chunks : List (List ℕ)
chunks = (1 ∷ 0 ∷ 0 ∷ 0 ∷ []) ∷ (7 ∷ []) ∷ []

abbrev echoes : List (List ℕ)
echoes = (11 ∷ 0 ∷ 0 ∷ 0 ∷ 1 ∷ 0 ∷ 0 ∷ []) ∷ (0 ∷ 2 ∷ 0 ∷ 5 ∷ 0 ∷ 0 ∷ 0 ∷ 7 ∷ []) ∷ []

abbrev proxy : Proxy
proxy = record { concurrency = 4; requests = []; replies = []; calls = [] }

alice-IsSocketClientData : IsSocketClientData alice
alice-IsSocketClientData = record {
  ip = omega arith;
  port = omega arith;
  socket_low = omega arith;
  socket_high = omega arith;
}

echoes_lem : join echoes ≡ stream (map (wrap alice) bodies)
unfolding client_bytes bytes32 bytes16
echoes_lem = refl

chunks_lem : join chunks ≡ stream bodies
unfolding bytes32
chunks_lem = refl

round_trip_example : Returns (client_sends alice chunks proxy >>= target_answers bob echoes) (λ q.
    (q.calls ≡ ([] ++ forwarded 1 alice bodies) ++ returned alice bodies)
    × (content alice q.requests ≡ [])
    × (content bob q.replies ≡ []))
round_trip_example =
    round_trip 1 8 3 5 alice bob bodies chunks echoes proxy alice-IsSocketClientData refl refl
      (content-nil alice) (content-nil bob) (omega arith, omega arith, tt)
      (omega arith, (omega arith, tt)) (omega arith, (omega arith, tt)) (omega arith) chunks_lem
      echoes_lem

-- `-d host:80 -c 4`
abbrev settings : List Setting
settings = target_is (b'h' ∷ []) 80 ∷ concurrency_is 4 ∷ []

settings-AllPlain : AllPlain settings
settings-AllPlain = (((refl, tt), omega arith), (omega arith, tt))

conversation-put_off_example :
    let running =
      set_up (λ text. 0) (applied settings defaults) (4, init_pool 4 0) (pos 9) (pos 0) in
    (main (λ text. 0) (rendered settings) (pos 9) (pos 0) ≡ ok (some running))
    × Returns (conversation alice bob chunks echoes running) (λ r.
      (length r.pool ≡ 4)
      × ((i : ℕ)
          → put_off i r.pool
            ≡ (if i == 5 % 4 then map (λ body. whole (packet (wrap alice body))) bodies else []))
      × (r.server.functions ≡ map (λ body. (alice, whole (packet body))) bodies))
conversation-put_off_example =
    conversation-put_off (λ text. 0) 1 8 3 5 settings (pos 9) alice bob bodies chunks echoes
      settings-AllPlain (omega arith) refl alice-IsSocketClientData refl
      (omega arith, omega arith, tt) (omega arith, (omega arith, tt))
      (omega arith, (omega arith, tt)) (omega arith) chunks_lem echoes_lem

-- The descriptors of the pool's four clients.
abbrev others : List ℤ
others = pos 6 ∷ pos 7 ∷ pos 8 ∷ []
