-- ===== src/Tcp/Server/Passing/Deliver.antt =====
-- What the deferred sends do to the bytes that wait for a client.
use serverlib.Prelude.{
  Bool, append_assoc, ℕ, ◌≡◌, refl, sym, ◌∙◌, true, false, Bool-cases, inl, inr, List, [], ◌∷◌,
  ◌++◌, append-nil, Option-cases, none, some, length, ltb, if◌then◌else◌,
}
use serverlib.Prelude.Int.{pos}
use serverlib.Prelude.Run.{Run, Fault, ok, ◌>>=◌}
use serverlib.Prelude.Map.{same}
use serverlib.Socket.{SocketClientData}
use serverlib.Socket.Order.{client_order}
use serverlib.OutputBuffer.{OutputBuffer}
use serverlib.OutputBuffer.Pending.{pending, pending-append}
use serverlib.Tcp.Channels.View.{Descriptor, lookup, get-lookup}
use serverlib.Tcp.Connection
use serverlib.Tcp.Connection.{Connection, client_send_error, watch_read_write, write_queue_max_size}
use serverlib.Tcp.Server.Handled.{IsLive}
use serverlib.Tcp.Server.{TcpServer, Virtual, run_call, run_calls, settle, deliver, deliver_all}
use serverlib.Tcp.Server.Given.{lookup-same}
use serverlib.Tcp.Server.Delivery.{AllOwned}
use serverlib.Tcp.Server.Passing.Passes.{posted, quiet, unmoved, Passes, put_connection-Passes}
use serverlib.Tcp.Server.Passing.Kept.{Answers, PassesOn, IsPassing, then_on, rebased_on}
use serverlib.Tcp.Server.Passing.Calls.{settle-PassesOn}

posted-cons :
    (client owner : SocketClientData) (buffer : OutputBuffer)
    (functions : List (SocketClientData × OutputBuffer))
    → posted client ((owner, buffer) ∷ functions)
      ≡ (if same owner client then pending (buffer ∷ []) else []) ++ posted client functions
posted-cons client owner buffer functions = elim (Bool-cases (same owner client)) [
  | inl one ↦ rw one (sym (append_assoc _ [] (posted client functions)))
  | inr two ↦ rw two refl
]

module _ {S : Type 0} (v : Virtual S) (Inv : S → Type 0) (Allowed : Fault → Type 0)
    (answers : Answers) (passing : IsPassing v Inv Allowed answers) (client : SocketClientData)
    (n : ℕ) (d : Descriptor client n) where
  none_gone :
      (b : Bool) (added : List ℕ) (s : S) {r : Run S}
      → PassesOn v Inv Allowed client n (if b then [] else []) added [] s r
      → PassesOn v Inv Allowed client n [] added [] s r
  none_gone true added s p = p
  none_gone false added s p = p

  module _ (owner : SocketClientData) (k : ℕ) (e : Descriptor owner k) where
    refused :
        (added : List ℕ) (c : Connection) (s : S)
        → lookup owner k (v.base s).manager ≡ some c
        → Inv s
        → PassesOn v Inv Allowed client n []
            (if same owner client then added else [])
            []
            s
            (settle ⦃v = v⦄ owner (c, client_send_error (pos 0) ∷ []) s)
    unfolding settle run_calls run_call
    refused added c s known w =
        let (t, ran, p) = unmoved client n (same owner client) (same owner client) [] (v.base s) (
          put_connection-Passes client owner n k c c [] [] [] (v.base s) (passing.sound s w) d e
            known (sym (append-nil (pending c.write_queue)))) in
        rw ran (
          then_on v Inv Allowed client n [] [] [] (if same owner client then added else []) [] [] s
            (ok (v.with_base t s)) (λ u. v.send_error owner (pos 0) u >>= λ x. ok x)
            (rebased_on v Inv Allowed answers passing client n [] [] [] t s w p)
            (λ u w'. ended (passing.send_error (pos 0) client owner n k added u d e w')))
      where
        ended :
            {u : S} {r : Run S}
            → PassesOn v Inv Allowed client n [] (if same owner client then added else []) [] u r
            → PassesOn v Inv Allowed client n []
                (if same owner client then added else [])
                []
                u
                (r >>= λ x. ok x)
        ended (inl (x, ran, p)) = inl (x, rw ran refl, p)
        ended (inr (why, threw, allowed)) = inr (why, rw threw refl, allowed)

    unsent :
        (buffer : OutputBuffer) (s : TcpServer)
        → IsLive s
        → lookup owner k s.manager ≡ none
        → Passes client n [] (if same owner client then pending (buffer ∷ []) else []) [] s s
    unsent buffer s w unknown = record {
      valid = w;
      functions = sym (append-nil s.functions);
      queue = λ c found. elim (Bool-cases (same owner client)) [
        | inl one ↦
            let lost : none ≡ some c =
              sym unknown ∙ sym (lookup-same owner client k n s e d one) ∙ found in
            absurd (cc)
        | inr two ↦ rw two (c, found, sym (append-nil (pending c.write_queue)))
      ];
    }

    deliver-PassesOn :
        (buffer : OutputBuffer) (s : S)
        → Inv s
        → PassesOn v Inv Allowed client n []
            (if same owner client then pending (buffer ∷ []) else [])
            []
            s
            (deliver ⦃v = v⦄ owner buffer s)
    unfolding deliver Connection.send
    deliver-PassesOn buffer s w = elim (Option-cases (lookup owner k (v.base s).manager)) [
      | inl unknown ↦
          rw (get-lookup owner k (v.base s).manager (passing.sound s w).0 e, unknown)
            (inl (s, refl, (w, unsent buffer (v.base s) (passing.sound s w) unknown)))
      | inr (c, known) ↦
          rw (get-lookup owner k (v.base s).manager (passing.sound s w).0 e, known)
            (elim (Bool-cases (ltb write_queue_max_size (length c.write_queue))) [
              | inl full ↦ rw full (refused (pending (buffer ∷ [])) c s known w)
              | inr room ↦ rw room (
                  none_gone (same owner client)
                    (if same owner client then pending (buffer ∷ []) else []) s
                    (settle-PassesOn v Inv Allowed answers passing client owner n k c
                      (watch_read_write (record c { write_queue = c.write_queue ++ buffer ∷ [] }))
                      [] [] (pending (buffer ∷ [])) s d e known
                      (pending-append c.write_queue (buffer ∷ [])) w))
            ])
    ]

  pub deliver_all-PassesOn :
      (functions : List (SocketClientData × OutputBuffer)) (s : S)
      → AllOwned functions
      → Inv s
      → PassesOn v Inv Allowed client n []
          (posted client functions)
          []
          s
          (deliver_all ⦃v = v⦄ functions s)
  unfolding deliver_all
  deliver_all-PassesOn [] s owners w =
      inl (s, refl, (w, quiet client n (v.base s) (v.base s) (passing.sound s w) refl refl))
  deliver_all-PassesOn ((owner, buffer) ∷ functions) s owners w =
      rw (posted-cons client owner buffer functions) (
        then_on v Inv Allowed client n [] []
          (if same owner client then pending (buffer ∷ []) else []) (posted client functions) [] []
          s (deliver ⦃v = v⦄ owner buffer s) (deliver_all ⦃v = v⦄ functions)
          (deliver-PassesOn owner owners.0.0 owners.0.1 buffer s w)
          (λ t w'. deliver_all-PassesOn functions t owners.1 w'))
