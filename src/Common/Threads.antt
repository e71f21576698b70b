-- ===== src/Common/Threads.antt =====
-- `CPktHandleThread` of commonserver.h and commonserver.cpp: a queue of packets and the thread that
-- hands them to the data handle. What a mutex guards is one step; between steps any other thread may
-- run.
pub mod Order
pub mod Progress
pub mod Stop
use serverlib.Prelude.{
  ℕ, zero, suc, ◌≡◌, Bool, true, false, List, [], ◌∷◌, ◌++◌, Option, none, some, length,
  if◌then◌else◌,
}
use serverlib.Socket.{SocketClientData}
use serverlib.OutputBuffer.{OutputBuffer}

abbrev pub PktData : Type 0
PktData = SocketClientData × OutputBuffer

-- Where the thread stands in `HandlePkt`: at the outer test, behind a reading of the queue's size,
-- in the wait, with `nSize` packets to take, in the handler with a packet, or at the end.
pub data Pc : Type 0 where
  testing waiting ended : Pc
  sized taking : ℕ → Pc
  handling : ℕ → PktData → Pc

-- `handled` is what the data handle has been given.
pub record PktHandleThread : Type 0 where
  pub data_handle : Option ℕ
  pub running : Bool
  pub queue : List PktData
  pub pc : Pc
  pub handled : List PktData

unfoldable pub new_thread : PktHandleThread
new_thread = record { data_handle = none; running = false; queue = []; pc = ended; handled = [] }

-- `Init()`
unfoldable pub init : Option ℕ → PktHandleThread → PktHandleThread
init handle t = record t { data_handle = handle; running = true; pc = testing }

-- `Stop()`, up to the join, which waits for the thread to end.
unfoldable pub stop : PktHandleThread → PktHandleThread
stop t = record t { running = false }

-- `AddPkt()`
unfoldable pub add_pkt : PktData → PktHandleThread → PktHandleThread
add_pkt p t = record t { queue = t.queue ++ p ∷ [] }

-- `front()` and `pop()`. On an empty queue they are undefined; the thread is then `ended`.
unfoldable pub take_pkt : ℕ → List PktData → PktHandleThread → PktHandleThread
take_pkt n [] t = record t { pc = ended }
take_pkt n (p ∷ queue) t = record t { queue = queue; pc = handling n p }

-- One step of `HandlePkt()`.
unfoldable pub work : Pc → PktHandleThread → PktHandleThread
work testing t =
    if t.running then record t { pc = sized (length t.queue) } else record t { pc = ended }
work (sized zero) t = if t.running then record t { pc = waiting } else record t { pc = taking 0 }
work (sized (suc n)) t = record t { pc = taking (suc n) }
work waiting t = record t { pc = sized (length t.queue) }
work (taking zero) t = record t { pc = testing }
work (taking (suc n)) t = take_pkt n t.queue t
work (handling n p) t = record t { pc = taking n; handled = t.handled ++ p ∷ [] }
work ended t = t

abbrev pub handle_pkt : PktHandleThread → PktHandleThread
handle_pkt t = work t.pc t
