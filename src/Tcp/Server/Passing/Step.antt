-- ===== src/Tcp/Server/Passing/Step.antt =====
-- What each input does to the bytes that wait for a client.
use mathlib.Core.Path.{subst}
use serverlib.Prelude.{
  ℕ, ◌≡◌, refl, sym, ◌∙◌, Bool, true, false, inl, inr, List, [], ◌∷◌, append-nil, Option-cases,
  some, take, if◌then◌else◌, arith,
}
use serverlib.Prelude.Int.{ℤ, pos}
use serverlib.Prelude.Run.{Run, Fault, Returns, ok, ◌>>=◌}
use serverlib.Prelude.Map.{same}
use serverlib.Socket.{SocketClientData}
use serverlib.Socket.Order.{client_order}
use serverlib.OutputBuffer.Pending.{pending}
use serverlib.Tcp.Channels.View.{Descriptor, lookup, get-lookup}
use serverlib.Tcp.Connection.{Connection, Wakeup, io_callback, timer_callback}
use serverlib.Tcp.Connection.Queue.{Takes}
use serverlib.Tcp.Connection.Stream.{wrote_bytes, io_callback-pending}
use serverlib.Tcp.Server.{
  TcpServer, Virtual, start, stop, set_data_handle, set_connection_timeout, wake_io, wake_timer,
  async_callback, post_send, close_client, accept,
}
use serverlib.Tcp.Server.Loop.{Ends}
use serverlib.Tcp.Server.Invariant.{IsServer}
use serverlib.Tcp.Server.History.{
  Input, sets_data_handle, sets_timeout, starts, stops, sends, closes, accepts, wakes_io,
  wakes_timer, asyncs, step, on_base, IsProper,
}
use serverlib.Tcp.Server.Passing.Passes.{posted, quiet, Passes}
use serverlib.Tcp.Server.Passing.Kept.{Functions, Answers, PassesOn, IsPassing}
use serverlib.Tcp.Server.Passing.Calls.{answers_to, settle-PassesOn, run_calls-PassesOn}
use serverlib.Tcp.Server.Passing.Deliver.{deliver_all-PassesOn}
use serverlib.Tcp.Server.Passing.Account.{Account, Passes-Account, gone_at, given_at, renews}
use serverlib.Tcp.Server.Passing.Members.{
  AllPosted-AllOwned, accept-Passes, close_client-Passes, delivered-Account, post_send-Passes,
  posted_one, start-kept,
}

timer-answers :
    (answers : Answers) (owner : SocketClientData) (w : Wakeup) (c : Connection)
    → answers_to answers owner (timer_callback w c) ≡ []
unfolding timer_callback
timer-answers answers owner w c = ground arith

module _ {S : Type 0} (v : Virtual S) (Inv : S → Type 0) (Allowed : Fault → Type 0) where
  -- A run that a fault may end, and that otherwise keeps the invariant and an account.
  abbrev pub Accounts : SocketClientData → ℕ → List ℕ → List ℕ → S → Run S → Type 0
  Accounts client n gone given s r =
      Ends v (λ s'. Inv s' × Account client n gone given (v.base s) (v.base s')) Allowed r

  accounted :
      (client : SocketClientData) (n : ℕ) (gone : List ℕ) (more : Functions) (s : S) {r : Run S}
      → PassesOn v Inv Allowed client n gone [] more s r
      → Accounts client n gone (posted client more) s r
  accounted client n gone more s (inl (s', ran, (w, p))) =
      inl (s', ran, (w, Passes-Account client n gone more (v.base s) (v.base s') p))
  accounted client n gone more s (inr threw) = inr threw

  none_added :
      (client : SocketClientData) (n : ℕ) (b : Bool) (gone : List ℕ) (more : Functions) (s : S)
      {r : Run S}
      → PassesOn v Inv Allowed client n (if b then gone else []) (if b then [] else []) more s r
      → PassesOn v Inv Allowed client n (if b then gone else []) [] more s r
  none_added client n true gone more s p = p
  none_added client n false gone more s p = p

  unmoved :
      (client : SocketClientData) (n : ℕ) (b : Bool) (s : S) {r : Run S}
      → Accounts client n [] [] s r
      → Accounts client n (if b then [] else []) [] s r
  unmoved client n true s p = p
  unmoved client n false s p = p

  module _ (answers : Answers) (passing : IsPassing v Inv Allowed answers)
      (client : SocketClientData) (n : ℕ) (s : S) (w : Inv s) where
    still : Account client n [] [] (v.base s) (v.base s)
    still =
        Passes-Account client n [] [] (v.base s) (v.base s)
          (quiet client n (v.base s) (v.base s) (passing.sound s w) refl refl)

    -- A member of the base class.
    on_base-Accounts :
        (member : TcpServer → Run TcpServer) (more : Functions)
        → Returns (member (v.base s)) (Passes client n [] [] more (v.base s))
        → Accounts client n [] (posted client more) s (on_base ⦃v = v⦄ member s)
    on_base-Accounts member more (t, ran, p) = inl (
      v.with_base t s,
      rw ran refl,
      (
        passing.rebased t s p.valid w,
        subst (Account client n [] (posted client more) (v.base s)) (sym (passing.base_of t s))
            (Passes-Account client n [] more (v.base s) t p),
      ),
    )

    module _ (owner : SocketClientData) (k : ℕ) (wakeup : Wakeup) (d : Descriptor client n)
        (e : Descriptor owner k) where
      wake_timer-Accounts : Accounts client n [] [] s (wake_timer ⦃v = v⦄ owner wakeup s)
      unfolding wake_timer
      wake_timer-Accounts = elim (Option-cases (lookup owner k (v.base s).manager)) [
        | inl unknown ↦
            rw (get-lookup owner k (v.base s).manager (passing.sound s w).0 e, unknown)
              (inl (s, refl, (w, still)))
        | inr (c, known) ↦
            rw (get-lookup owner k (v.base s).manager (passing.sound s w).0 e, known)
              (accounted client n [] [] s (
                rw (← timer-answers answers owner wakeup c) (
                  run_calls-PassesOn v Inv Allowed answers passing client owner n k
                    (timer_callback wakeup c) s d e w)))
      ]

      wake_io-Accounts :
          IsServer (v.base s)
          → ((c : Connection)
              → lookup owner k (v.base s).manager ≡ some c
              → Takes wakeup.write c.write_queue)
          → Accounts client n
              (gone_at client (v.base s) (wakes_io owner wakeup))
              (given_at answers client (v.base s) (wakes_io owner wakeup))
              s
              (wake_io ⦃v = v⦄ owner wakeup s)
      unfolding wake_io
      wake_io-Accounts server takes = elim (Option-cases (lookup owner k (v.base s).manager)) [
        | inl unknown ↦
            rw (get-lookup owner k (v.base s).manager (passing.sound s w).0 e, unknown)
              (unmoved client n (same owner client) s (inl (s, refl, (w, still))))
        | inr (c, known) ↦
            rw (get-lookup owner k (v.base s).manager (passing.sound s w).0 e, known)
              (accounted client n
                (if same owner client then wrote_bytes (io_callback wakeup c).1 else [])
                (answers_to answers owner (io_callback wakeup c).1) s
                (none_added client n (same owner client) (wrote_bytes (io_callback wakeup c).1)
                  (answers_to answers owner (io_callback wakeup c).1) s
                  (settle-PassesOn v Inv Allowed answers passing client owner n k c
                    (io_callback wakeup c).0 (io_callback wakeup c).1
                    (wrote_bytes (io_callback wakeup c).1) [] s d e known
                    (io_callback-pending wakeup c (server.entries owner k c e known).sound
                        (takes c known)
                      ∙ sym (append-nil (pending c.write_queue)))
                    w)))
      ]

    async_callback-Accounts :
        IsServer (v.base s)
        → Descriptor client n
        → Accounts client n [] [] s (async_callback ⦃v = v⦄ s)
    unfolding async_callback
    async_callback-Accounts server d =
        let t : TcpServer = record (v.base s) { functions = [] } in
        elim (deliver_all-PassesOn v Inv Allowed answers passing client n d (v.base s).functions
          (v.with_base t s) (AllPosted-AllOwned (v.base s).functions server.posted)
          (passing.rebased t s (passing.sound s w) w)) [
            | inl (s', ran, (w', p)) ↦ inl (
              s',
              ran,
              (
                w',
                delivered-Account client n (v.base s) (v.base s') (
                    subst
                      (λ (u : TcpServer).
                        Passes client n [] (posted client (v.base s).functions) [] u (v.base s'))
                      (passing.base_of t s) p),
              ),
            )
            | inr threw ↦ inr threw
          ]

    sends-Accounts :
        (owner : SocketClientData) (bytes : List ℕ) (len : ℤ) (k : ℕ)
        → len ≡ pos k
        → Accounts client n []
            (given_at answers client (v.base s) (sends owner bytes len))
            s
            (on_base ⦃v = v⦄ (λ t. post_send owner bytes len t >>= λ r. ok r.0) s)
    sends-Accounts owner bytes len k e =
        let (t, ran, p) = post_send-Passes client owner n k bytes (v.base s) (passing.sound s w) in
        rw
          (
            e,
            ← posted_one client owner (record { data_bytes = take k bytes; len = k; position = 0 }),
          )
          (on_base-Accounts (λ t. post_send owner bytes (pos k) t >>= λ r. ok r.0)
            ((owner, record { data_bytes = take k bytes; len = k; position = 0 }) ∷ [])
            (t.0, rw ran refl, p))

    -- What one proper input does, if it accepts no connection of the client.
    pub step-Accounts :
        (i : Input)
        → IsServer (v.base s)
        → Descriptor client n
        → IsProper (v.base s) i
        → renews client i ≡ false
        → Accounts client n
            (gone_at client (v.base s) i)
            (given_at answers client (v.base s) i)
            s
            (step ⦃v = v⦄ s i)
    unfolding step set_data_handle set_connection_timeout stop
    step-Accounts (sets_data_handle h) server d p r =
        on_base-Accounts (λ t. ok (set_data_handle h t)) []
          (_, refl, quiet client n (v.base s) _ ((passing.sound s w).0, (h, refl)) refl refl)
    step-Accounts (sets_timeout seconds) server d p r =
        on_base-Accounts (λ t. ok (set_connection_timeout seconds t)) []
          (_, refl, quiet client n (v.base s) _ (passing.sound s w) refl refl)
    step-Accounts (starts ip port fd bound) server d p r =
        let (m, f, h) = start-kept ip port fd bound (v.base s) in
        on_base-Accounts (λ t. ok (start ip port fd bound t).0) []
          (_, refl, quiet client n (v.base s) _ (rw (m, h) (passing.sound s w)) m f)
    step-Accounts stops server d p r =
        on_base-Accounts (λ t. ok (stop t).0) []
          (_, refl, quiet client n (v.base s) _ (passing.sound s w) refl refl)
    step-Accounts (sends owner bytes len) server d p r = sends-Accounts owner bytes len p.1.0 p.1.1
    step-Accounts (closes owner) server d p r =
        let (t, ran, a) =
          close_client-Passes client owner n p.0 (v.base s) (passing.sound s w) d p.1 in
        on_base-Accounts (λ t. close_client owner t >>= λ x. ok x.0) [] (t.0, rw ran refl, a)
    step-Accounts (accepts error owner now) server d p r =
        on_base-Accounts (accept error owner now) []
          (accept-Passes client owner n error now (v.base s) (passing.sound s w) d r)
    step-Accounts (wakes_io owner wakeup) server d p r =
        wake_io-Accounts owner p.0 wakeup d p.1 server p.2
    step-Accounts (wakes_timer owner wakeup) server d p r =
        wake_timer-Accounts owner p.0 wakeup d p.1
    step-Accounts asyncs server d p r = async_callback-Accounts server d
