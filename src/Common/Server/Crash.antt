-- ===== src/Common/Server/Crash.antt =====
-- The length field that overflows in `CCommonServer::handlePkt`.
use serverlib.Prelude.{
  ℕ, ◌+◌, ◌<◌, ◌≤◌, ◌^◌, ◌≡◌, refl, inl, inr, Bool-cases, List, ◌++◌, length, ◌==◌,
}
use serverlib.Prelude.Int.{pos}
use serverlib.Prelude.Run.{Fault, fault, out_of_range, bad_alloc}
use serverlib.Socket.{SocketClientData}
use serverlib.OutputBuffer.{new_output_buffer}
use serverlib.Framing.{pkt_len, feed}
use serverlib.Framing.Rounds.{drain_overflow}
use serverlib.Tcp.Server.{tcp_virtual}
use serverlib.Common.Server.{CommonServer, handle_pkt, content, add_content, common_virtual}
use serverlib.Common.Server.Keeps.{BadLength}

-- Whatever a sound server holds, a client's buffer that starts with a length of 2 ^ 31 - 4 or more
-- and has a fifth byte ends the process by `std::out_of_range` or `std::bad_alloc`.
pub add_content-crash :
    (client : SocketClientData) (bytes : List ℕ) (n : ℕ) (s : CommonServer)
    → 4 < length (content client s ++ bytes)
    → length (content client s ++ bytes) < 2 ^ 31
    → pkt_len (content client s ++ bytes) ≡ pos n
    → n < 2 ^ 31
    → 2 ^ 31 ≤ n + 4
    → (f : Fault) × (add_content client bytes s ≡ fault f) × BadLength f
unfolding add_content feed handle_pkt new_output_buffer
add_content-crash client bytes n s long small e high wraps =
    rw
      (drain_overflow (handle_pkt client) (length (content client s ++ bytes)) s.dispatcher
        (content client s ++ bytes) n long small e high wraps)
      (elim (Bool-cases (s.dispatcher.thread_num == 0)) [
        | inl alone ↦ rw alone (out_of_range, refl, inl refl)
        | inr more ↦ rw more (bad_alloc, refl, inr refl)
      ])
