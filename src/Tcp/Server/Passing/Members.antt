-- ===== src/Tcp/Server/Passing/Members.antt =====
-- What the members of a server do to the bytes that wait for a client.
use mathlib.Core.Option
use serverlib.Prelude.{
  ℕ, ◌≡◌, refl, sym, ap, ◌∙◌, Bool, true, false, Bool-cases, inl, inr, List, [], ◌∷◌, ◌++◌,
  append-nil, Option-cases, take, drop, if◌then◌else◌, arith,
}
use serverlib.Prelude.Int.{ℤ, pos, eqb_ℤ}
use serverlib.Prelude.Run.{Returns}
use serverlib.Prelude.Map.{same}
use serverlib.Socket.{SocketClientData}
use serverlib.Socket.Order.{client_order}
use serverlib.OutputBuffer.{OutputBuffer, new_output_buffer}
use serverlib.OutputBuffer.Pending.{pending}
use serverlib.Tcp.Channels.View.{Descriptor, lookup, get-lookup, add-Writes}
use serverlib.Tcp.Connection
use serverlib.Tcp.Connection.{Connection, Call, Wakeup, io_callback, timer_callback, new_connection}
use serverlib.Tcp.Server.Handled.{IsLive, call_handle_lem}
use serverlib.Tcp.Server.{
  on_client_connected, push_calls, destroyed, TcpServer, accept, post_send, close_client, start,
}
use serverlib.Tcp.Server.Delivery.{AllOwned}
use serverlib.Tcp.Server.Invariant.{AllPosted, ℤ-cases}
use serverlib.Tcp.Server.Passing.Passes.{posted, quiet, unmoved, Passes, put_connection-Passes}
use serverlib.Tcp.Server.Passing.Account.{Account, known_cases}

pub AllPosted-AllOwned :
    (functions : List (SocketClientData × OutputBuffer)) → AllPosted functions → AllOwned functions
AllPosted-AllOwned [] h = tt
AllPosted-AllOwned ((owner, buffer) ∷ functions) h = (h.0, AllPosted-AllOwned functions h.2)

pub start-kept :
    (ip port : ℕ) (fd bound : ℤ) (s : TcpServer)
    → ((start ip port fd bound s).0.manager ≡ s.manager)
      × ((start ip port fd bound s).0.functions ≡ s.functions)
      × ((start ip port fd bound s).0.data_handle ≡ s.data_handle)
unfolding start
start-kept ip port fd bound s = elim (Bool-cases (eqb_ℤ bound (pos 0))) [
  | inl bound_here ↦ rw bound_here (refl, refl, refl)
  | inr failed ↦ rw failed (refl, refl, refl)
]

pub posted_one :
    (client owner : SocketClientData) (b : OutputBuffer)
    → posted client ((owner, b) ∷ [])
      ≡ (if same owner client then drop b.position b.data_bytes else [])
posted_one client owner b = elim (Bool-cases (same owner client)) [
  | inl one ↦ rw one (append-nil (drop b.position b.data_bytes))
  | inr two ↦ rw two refl
]

pub post_send-Passes :
    (client owner : SocketClientData) (n k : ℕ) (bytes : List ℕ) (s : TcpServer)
    → IsLive s
    → Returns (post_send owner bytes (pos k) s) (λ r.
      Passes client n [] []
        ((owner, record { data_bytes = take k bytes; len = k; position = 0 }) ∷ [])
        s
        r.0)
unfolding post_send new_output_buffer
post_send-Passes client owner n k bytes s v = (
  (_, _),
  refl,
  record {
    valid = v;
    functions = refl;
    queue = λ c' found. (c', found, sym (append-nil (pending c'.write_queue)));
  },
)

pub accept-Passes :
    (client owner : SocketClientData) (n : ℕ) (error : Bool) (now : ℤ) (s : TcpServer)
    → IsLive s
    → Descriptor client n
    → same owner client ≡ false
    → Returns (accept error owner now s) (Passes client n [] [] [] s)
unfolding accept
accept-Passes client owner n true now s v d apart = (s, refl, quiet client n s s v refl refl)
accept-Passes client owner n false now s v d apart = elim (ℤ-cases owner.socket) [
  | inl below ↦ (s, rw below, quiet client n s s v refl refl)
  | inr (k, e, above) ↦
      let (m, ran, w) = add-Writes owner k (new_connection s.timeout now owner).0 s.manager v.0 e in
      let accepted : TcpServer = record s {
        manager = m;
        log =
            on_client_connected s.data_handle owner
            ∷ destroyed (lookup owner k s.manager)
                (push_calls (new_connection s.timeout now owner).1 s.log);
      } in
      rw (above, get-lookup owner k s.manager v.0 e, ran)
        (
          accepted,
          call_handle_lem (λ h. on_client_connected h owner)
              (record s {
                manager = m;
                log =
                    destroyed (lookup owner k s.manager)
                      (push_calls (new_connection s.timeout now owner).1 s.log);
              })
              v.1,
          record {
            valid = (w.valid, v.1);
            functions = sym (append-nil s.functions);
            queue = λ c' found. (
              c',
              sym (w.reads client n d ∙ rw apart) ∙ found,
              sym (append-nil (pending c'.write_queue)),
            );
          },
        )
]

close-queue : (c : Connection) → (Connection.close c).0.write_queue ≡ c.write_queue
unfolding Connection.close
close-queue c = ground arith

pub close_client-Passes :
    (client owner : SocketClientData) (n k : ℕ) (s : TcpServer)
    → IsLive s
    → Descriptor client n
    → Descriptor owner k
    → Returns (close_client owner s) (λ r. Passes client n [] [] [] s r.0)
unfolding close_client
close_client-Passes client owner n k s v d e = elim (Option-cases (lookup owner k s.manager)) [
  | inl unknown ↦
      ((s, true), rw (get-lookup owner k s.manager v.0 e, unknown), quiet client n s s v refl refl)
  | inr (c, known) ↦
      let (s', ran, p) = unmoved client n (same owner client) (same owner client) [] s (
        put_connection-Passes client owner n k c (Connection.close c).0 (Connection.close c).1 [] []
          s v d e known (ap pending (close-queue c) ∙ sym (append-nil (pending c.write_queue)))) in
      ((s', true), rw (get-lookup owner k s.manager v.0 e, known, ran), p)
]

-- What the deferred sends add to a queue was put off before.
pub delivered-Account :
    (client : SocketClientData) (n : ℕ) (s s' : TcpServer)
    → Passes client n [] (posted client s.functions) [] (record s { functions = [] }) s'
    → Account client n [] [] s s'
delivered-Account client n s s' p left h =
    let (c', known, e) = known_cases client n s' left h in
    let (c, known', q) = p.queue c' known in
    (
      pending c.write_queue ++ posted client s.functions,
      ap (Option.map (λ (c : Connection). pending c.write_queue ++ posted client s.functions))
          known',
      sym e
          ∙ ap
              (λ (fs : List (SocketClientData × OutputBuffer)).
                pending c'.write_queue ++ posted client fs)
              p.functions
          ∙ append-nil (pending c'.write_queue)
          ∙ q
          ∙ sym (append-nil (pending c.write_queue ++ posted client s.functions)),
    )
