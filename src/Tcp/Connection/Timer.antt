-- ===== src/Tcp/Connection/Timer.antt =====
-- `__TimerCallback` of `CTcpConnection`.
use serverlib.Prelude.{
  ℕ, ◌+◌, ◌-◌, ◌≤◌, ◌<◌, ◌^◌, ◌≡◌, true, false, [], ◌∷◌, leb, if◌then◌else◌, arith,
}
use serverlib.Prelude.Words.{to_int, sub_int-to_int}
use serverlib.Tcp.Connection.{Connection, client_timeout, Wakeup, timer_callback}

-- A tick without an error drops the connection exactly if it has been idle for 600 seconds or more,
-- `seen` and `now` being the times of its last traffic and of the tick, less than 2 ^ 31 seconds
-- apart; also where `(int)time(0)` wraps between them.
pub timer_callback-idle :
    (w : Wakeup) (c : Connection) (seen now : ℕ)
    → w.revents.error ≡ false
    → w.revents.timer ≡ true
    → c.last_time ≡ to_int seen
    → w.now ≡ to_int now
    → seen ≤ now
    → now < seen + 2 ^ 31
    → timer_callback w c ≡ (if leb 600 (now - seen) then client_timeout ∷ [] else [])
unfolding timer_callback
timer_callback-idle w c seen now no_error fired last time h k =
    rw (no_error, fired, last, time, sub_int-to_int seen now h k) (ground arith)
