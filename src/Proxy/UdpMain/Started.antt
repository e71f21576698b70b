-- ===== src/Proxy/UdpMain/Started.antt =====
-- What the command line of the UDP proxy starts: its pool, once its threads have started the clients.
use serverlib.Prelude.{
  ℕ, zero, suc, ◌+◌, ◌%◌, ◌^◌, ◌<◌, ◌≡◌, refl, ap, ◌∙◌, true, false, List, [], ◌∷◌, Option, none,
  some, get_elem?, length, arith,
}
use serverlib.Prelude.Int.{ℤ, pos}
use serverlib.Prelude.Run.{ok}
use serverlib.Arguments.{is_flag, to_u16}
use serverlib.Arguments.Numbers.{atoi-digits}
use serverlib.Arguments.Addresses.{HasNoColon, url, address-url, port_number-url, url-flag}
use serverlib.Arguments.Loop.{read_arguments}
use serverlib.Bench.{digits}
use serverlib.Udp.{set_nonblock}
use serverlib.Udp.Client
use serverlib.Udp.Client.{UdpClient}
use serverlib.Udp.Server
use serverlib.Udp.Server.{UdpServer}
use serverlib.Proxy.UdpMain.{
  Options, set_flag, set_url, init_client, init_pool, new_pool, run_thread_client, set_up, main,
  start_pool,
}

-- `-c k host:port`
abbrev pub command : ℕ → List ℕ → ℕ → List (List ℕ)
command k host port = (b'-' ∷ b'c' ∷ []) ∷ (digits 20 k ∷ (url host port ∷ []))

abbrev pub asked : ℕ → List ℕ → ℕ → Options
asked k host port = record { target_ip = host; target_port = pos port; concurrency = pos k }

pub main-command :
    (garbage : ℕ → ℤ) (own fd bound : ℤ) (k port : ℕ) (host : List ℕ)
    → k < 2 ^ 31
    → port < 2 ^ 16
    → is_flag host ≡ false
    → HasNoColon host
    → main garbage own (command k host port) fd bound
      ≡ ok (some (set_up (asked k host port) (init_pool garbage k 0) (Server.new own) fd bound))
unfolding main read_arguments set_flag set_url new_pool
main-command garbage own fd bound k port host h h' name whole =
    rw
      (
        atoi-digits 20 k (omega (arith, h)),
        url-flag host port name,
        address-url host port whole,
        port_number-url host port whole (omega (arith, h')),
      )
      refl

-- A client of the pool whose thread has started it.
abbrev pub started : ℕ → ℕ → ℕ → ℤ → UdpClient
started i ip port fd = record {
  data_handle = some i;
  ip = ip;
  port = port;
  socket = fd;
  reading = true;
  looping = true;
  log = set_nonblock fd ∷ [];
}

module _ (garbage : ℕ → ℤ) (resolve : List ℕ → ℕ) (o : Options) where
  pub start_pool-length :
      (fds : List ℤ) (i : ℕ)
      → length (start_pool resolve o fds (init_pool garbage (length fds) i)) ≡ length fds
  unfolding start_pool init_pool
  start_pool-length [] i = refl
  start_pool-length (fd ∷ fds) i = ap suc (start_pool-length fds (i + 1))

  place :
      (i j : ℕ) (fd : ℤ)
      → i ≡ j
      → some (started i (resolve o.target_ip) (to_u16 o.target_port) fd)
        ≡ some (started j (resolve o.target_ip) (to_u16 o.target_port) fd)
  place i j fd e = ap (λ n. some (started n (resolve o.target_ip) (to_u16 o.target_port) fd)) e

  pub get_elem?-start_pool :
      (fds : List ℤ) (i j : ℕ) (fd : ℤ)
      → get_elem? fds j ≡ some fd
      → get_elem? (start_pool resolve o fds (init_pool garbage (length fds) i)) j
        ≡ some (started (j + i) (resolve o.target_ip) (to_u16 o.target_port) fd)
  unfolding start_pool init_pool run_thread_client init_client Client.start Client.set_data_handle
      Client.new
  get_elem?-start_pool [] i j fd e = absurd (cc e)
  get_elem?-start_pool (fd' ∷ fds) i zero fd e =
      ap
        (λ (x : Option ℤ). elim x as (λ y. Option UdpClient) [
          | none ↦ none
          | some fd ↦ some (started i (resolve o.target_ip) (to_u16 o.target_port) fd)
        ])
        e
      ∙ place i (0 + i) fd (omega arith)
  get_elem?-start_pool (fd' ∷ fds) i (suc j) fd e =
      get_elem?-start_pool fds (i + 1) j fd e ∙ place (j + (i + 1)) (suc j + i) fd (omega arith)

pub started_port :
    (m ip target : ℕ) (fd : ℤ)
    → target < 2 ^ 16
    → some (started (m + 0) ip (target % 2 ^ 16) fd) ≡ some (started m ip target fd)
started_port m ip target fd h =
    let low : target % 2 ^ 16 ≡ target = omega (arith, h) in
    let same : m + 0 ≡ m = omega arith in rw (low, same) refl
