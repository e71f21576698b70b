-- ===== src/Tcp/Channels.antt =====
-- `CSocketInfoChannel` and `CSocketInfoManager` of tcpserver.h, for any kind of entry. Each
-- operation of a channel holds the channel's spinlock from beginning to end, and is one step here.
pub mod View
pub mod Refines
use serverlib.Prelude.{
  ℕ, zero, suc, ◌+◌, ◌-◌, ◌%◌, ◌≡◌, List, [], ◌∷◌, Option, none, some, get_elem?, set, replicate,
  ◌==◌, if◌then◌else◌,
}
use serverlib.Prelude.Int.{ℤ, pos, negsuc}
use serverlib.Prelude.Run.{Run, ok, fault, out_of_bounds, ◌>>=◌}
use serverlib.Prelude.Map
use serverlib.Prelude.Map.{Map}
use serverlib.Socket.{SocketClientData}
use serverlib.Socket.Order.{client_order}

abbrev pub socket_channel_num : ℕ
socket_channel_num = 256

-- `m_Channels`
pub record SocketInfoManager {ℓ} (V : Type ℓ) : Type ℓ where
  pub channels : List (Map SocketClientData V)

rem : ℤ → ℤ
rem (pos n) = pos (n % socket_channel_num)
rem (negsuc n) = let r = suc n % socket_channel_num in if r == 0 then pos 0 else negsuc (r - 1)

-- `__Hash`: the remainder of an `int` has its sign.
unfoldable pub hash : SocketClientData → ℤ
unfolding rem
hash client = rem client.socket

module _ {ℓ} {V : Type ℓ} where
  -- `m_Channels[i]`, with its index
  unfoldable pub channel_at : List (Map SocketClientData V) → ℤ → Run (ℕ × Map SocketClientData V)
  channel_at channels (negsuc n) = fault out_of_bounds
  channel_at channels (pos n) = elim (get_elem? channels n) [
    | none ↦ fault out_of_bounds
    | some channel ↦ ok (n, channel)
  ]

  -- `Add`
  unfoldable pub add : SocketClientData → V → SocketInfoManager V → Run (SocketInfoManager V)
  add client conn m = channel_at m.channels (hash client) >>= λ r.
      ok (record { channels = set m.channels r.0 (Map.assign client conn r.1) })

  -- `Get`: `none` is the null pointer.
  unfoldable pub get : SocketClientData → SocketInfoManager V → Run (Option V)
  get client m = channel_at m.channels (hash client) >>= λ r. ok (Map.find client r.1)

  -- `Remove`
  unfoldable pub remove : SocketClientData → SocketInfoManager V → Run (SocketInfoManager V)
  remove client m = channel_at m.channels (hash client) >>= λ r.
      ok (record { channels = set m.channels r.0 (Map.erase client r.1) })

  -- The manager of a new server.
  unfoldable pub new_manager : SocketInfoManager V
  new_manager = record { channels = replicate socket_channel_num [] }
