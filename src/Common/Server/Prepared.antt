-- ===== src/Common/Server/Prepared.antt =====
-- A common server as its users prepare it, and any history of it.
use serverlib.Prelude.{
  zero, some, Option, replicate, sym, [], append-nil, ◌||◌, length-replicate, ℕ, suc, ◌≡◌, refl,
  inl, inr, Bool-cases, List, arith,
}
use serverlib.Prelude.Int.{ℤ, pos, pos_part, leb_ℤ, ltb_ℤ}
use serverlib.Tcp.Server.{set_data_handle, new_tcp_server, tcp_virtual}
use serverlib.Tcp.Server.Invariant.{ready-IsServer}
use serverlib.Common.Threads.{new_thread, init}
use serverlib.Tcp.Server.Loop.{Ends}
use serverlib.Tcp.Server.History.{Input, run, AllProper, run-Ends}
use serverlib.Common.Server.{
  with_tcp, set_thread_num, max_thread_num, new_common_server, CommonServer, common_virtual,
}
use serverlib.Common.Server.Held.{AllClaim, held_num}
use serverlib.Common.Server.Receive.{HasThreads}
use serverlib.Common.Server.Keeps.{IsCommonServer, BadLength, common_virtual-Keeps}

-- A new server whose users have set a data handle and a number of threads.
abbrev pub prepared : ℕ → ℤ → CommonServer
prepared handle threads =
    let s = with_tcp (set_data_handle handle new_tcp_server) new_common_server in
    record s { dispatcher = set_thread_num threads s.dispatcher }

-- New threads have no packets.
replicate_new :
    (handle : Option ℕ) (n : ℕ)
    → AllClaim (replicate n (init handle new_thread))
      × (held_num (replicate n (init handle new_thread)) ≡ 0)
unfolding init new_thread
replicate_new handle zero = (tt, refl)
replicate_new handle (suc n) =
    ((omega arith, (replicate_new handle n).0), omega (arith, (replicate_new handle n).1))

prepared_from :
    (handle : ℕ) (threads : ℤ)
    → (HasThreads (prepared handle threads).dispatcher)
      × (AllClaim (prepared handle threads).dispatcher.threads)
      × (held_num (prepared handle threads).dispatcher.threads ≡ 0)
      × ((prepared handle threads).dispatcher.count ≡ 0)
unfolding new_common_server set_data_handle set_thread_num
prepared_from handle threads =
    elim (Bool-cases (leb_ℤ threads (pos 0) || ltb_ℤ (pos max_thread_num) threads)) [
      | inl ignored ↦ rw (ignored, set_thread_num) (refl, tt, refl, refl)
      | inr taken ↦
          rw (taken, set_thread_num)
            (
              length-replicate (pos_part threads) (init (some handle) new_thread),
              (replicate_new (some handle) (pos_part threads)).0,
              (replicate_new (some handle) (pos_part threads)).1,
              refl,
            )
    ]

prepared-tcp :
    (handle : ℕ) (threads : ℤ)
    → (prepared handle threads).dispatcher.tcp ≡ set_data_handle handle new_tcp_server
unfolding new_common_server set_data_handle set_thread_num
prepared-tcp handle threads = ground arith

pub prepared-IsCommonServer :
    (handle : ℕ) (threads : ℤ)
    → IsCommonServer (prepared handle threads).dispatcher (prepared handle threads)
prepared-IsCommonServer handle threads =
    let (h, claims, none_yet, zero_yet) = prepared_from handle threads in
    (
      rw (prepared-tcp handle threads) (ready-IsServer handle),
      h,
      record {
        claims = claims;
        counted = rw (none_yet, zero_yet) refl;
        grown = λ i. ([], sym (append-nil _));
      },
    )

-- Any proper history of a common server that was prepared with any number of threads, also one out
-- of range, ends with its invariant, or in one of the two exceptions that a bad length causes: no
-- access is out of bounds, and the packet loop ends.
pub run-IsCommonServer :
    (handle : ℕ) (threads : ℤ) (inputs : List Input)
    → AllProper (prepared handle threads) inputs
    → Ends common_virtual
        (IsCommonServer (prepared handle threads).dispatcher)
        BadLength
        (run (prepared handle threads) inputs)
run-IsCommonServer handle threads inputs p =
    run-Ends common_virtual (IsCommonServer (prepared handle threads).dispatcher) BadLength
      (common_virtual-Keeps (prepared handle threads).dispatcher) (prepared handle threads) inputs
      (prepared-IsCommonServer handle threads) p
