-- ===== src/Tcp/Server/Passing/Balances.antt =====
-- A history of a server: what is sent to a client, and what is written to it.
use serverlib.Prelude.{
  ◌⊎◌, none, Option-cases, ℕ, ◌≡◌, refl, sym, Bool, true, false, inl, inr, List, [], ◌∷◌, ◌++◌,
  append-nil, some, ◌&&◌, not, arith,
}
use mathlib.Core.Path.{subst}
use serverlib.Prelude.Run.{Run, Fault, ok, fault}
use serverlib.Socket.{SocketClientData}
use serverlib.Tcp.Channels.View.{Descriptor}
use serverlib.Tcp.Server.{TcpServer, Virtual}
use serverlib.Tcp.Server.Loop.{Ends, Keeps}
use serverlib.Tcp.Server.History.{Input, IsProper, step, step-Ends, run, AllProper}
use serverlib.Tcp.Server.Passing.Passes.{middle}
use serverlib.Tcp.Server.Passing.Kept.{Answers, IsPassing}
use serverlib.Tcp.Server.Passing.Account.{Account, gone_at, given_at, renews, to_write}
use serverlib.Tcp.Server.Passing.Step.{step-Accounts}

-- A list that depends on the state that a run ends in.
abbrev pub after {ℓ} : {S : Type 0} {A : Type ℓ} → Run S → (S → List A) → List A
after (ok s) f = f s
after (fault why) f = []

module _ {S : Type 0} (v : Virtual S) (answers : Answers) (client : SocketClientData) where
  -- What is written to the client in a history, and what is sent to it, in order.
  abbrev pub gone_in : S → List Input → List ℕ
  gone_in s [] = []
  gone_in s (i ∷ inputs) =
      gone_at client (v.base s) i ++ after (step ⦃v = v⦄ s i) (λ t. gone_in t inputs)

  abbrev pub given_in : S → List Input → List ℕ
  given_in s [] = []
  given_in s (i ∷ inputs) =
      given_at answers client (v.base s) i ++ after (step ⦃v = v⦄ s i) (λ t. given_in t inputs)

-- The client is unknown in the end, or what was `gone` and what is left are what there was to write
-- and what was `given`.
abbrev pub Balances : SocketClientData → ℕ → List ℕ → List ℕ → TcpServer → TcpServer → Type 0
Balances client n gone given s t =
    (to_write client n t ≡ none)
    ⊎ ((had left : List ℕ) × (to_write client n s ≡ some had)
        × (to_write client n t ≡ some left)
        × (gone ++ left ≡ had ++ given))

-- No connection of this client is accepted.
abbrev pub stays : SocketClientData → List Input → Bool
stays client [] = true
stays client (i ∷ inputs) = not (renews client i) && stays client inputs

pub Account-refl : (client : SocketClientData) (n : ℕ) (s : TcpServer) → Account client n [] [] s s
Account-refl client n s left known = (left, known, sym (append-nil left))

pub Account-trans :
    (client : SocketClientData) (n : ℕ) (g g' a a' : List ℕ) (s t u : TcpServer)
    → Account client n g a s t
    → Account client n g' a' t u
    → Account client n (g ++ g') (a ++ a') s u
Account-trans client n g g' a a' s t u p q left h =
    let (between, h', e') = q left h in
    let (had, h'', e) = p between h' in (had, h'', middle g g' had between left a a' e e')

pub Account-Balances :
    (client : SocketClientData) (n : ℕ) (gone given : List ℕ) (s t : TcpServer)
    → Account client n gone given s t
    → Balances client n gone given s t
Account-Balances client n gone given s t a = elim (Option-cases (to_write client n t)) [
  | inl unknown ↦ inl unknown
  | inr (left, known) ↦ let (had, before, e) = a left known in inr (had, left, before, known, e)
]

module _ {S : Type 0} (v : Virtual S) (Allowed : Fault → Type 0) where
  -- Two things that hold of one run.
  pub both :
      (r : Run S) (P Q : S → Type 0)
      → Ends v P Allowed r
      → Ends v Q Allowed r
      → Ends v (λ s. P s × Q s) Allowed r
  both r P Q (inl (s, ran, p)) (inl (t, ran', q)) =
      let e : t ≡ s = cc in inl (s, ran, (p, subst Q e q))
  both r P Q (inl (s, ran, p)) (inr (why, threw, allowed)) = inr (why, threw, allowed)
  both r P Q (inr threw) q = inr threw

  -- An invariant `Sound` that the server keeps in all, and one, `Inv`, under which its members pass
  -- bytes on.
  module _ (Sound Inv : S → Type 0) (answers : Answers) (keeps : Keeps v Sound Allowed)
      (passing : IsPassing v Inv Allowed answers) (client : SocketClientData) (n : ℕ)
      (d : Descriptor client n) where
    pub step-both :
        (s : S) (i : Input)
        → Sound s
        → Inv s
        → IsProper (v.base s) i
        → renews client i ≡ false
        → Ends v
            (λ t.
              Sound t
              × (Inv t
                  × Account client n
                      (gone_at client (v.base s) i)
                      (given_at answers client (v.base s) i)
                      (v.base s)
                      (v.base t)))
            Allowed
            (step ⦃v = v⦄ s i)
    step-both s i sound w p r =
        both (step ⦃v = v⦄ s i) Sound _ (step-Ends v Sound Allowed keeps s i sound p)
          (step-Accounts v Inv Allowed answers passing client n s w i (keeps.sound s sound) d p r)

    pub run-Accounts :
        (s : S) (inputs : List Input)
        → Sound s
        → Inv s
        → AllProper ⦃v = v⦄ s inputs
        → stays client inputs ≡ true
        → Ends v
            (λ t.
              Sound t
              × Account client n
                  (gone_in v answers client s inputs)
                  (given_in v answers client s inputs)
                  (v.base s)
                  (v.base t))
            Allowed
            (run ⦃v = v⦄ s inputs)
    unfolding run
    run-Accounts s [] sound w p r = inl (s, refl, (sound, Account-refl client n (v.base s)))
    run-Accounts s (i ∷ inputs) sound w p r = elim (step-both s i sound w p.0 (ground arith)) [
      | inl (t, ran, (sound', (w', a))) ↦
          rw ran (elim (run-Accounts t inputs sound' w' (p.1 t ran) (ground arith)) [
            | inl (u, ran', (sound'', a')) ↦ inl (
              u,
              ran',
              (
                sound'',
                Account-trans client n (gone_at client (v.base s) i)
                    (gone_in v answers client t inputs) (given_at answers client (v.base s) i)
                    (given_in v answers client t inputs) (v.base s) (v.base t) (v.base u) a a',
              ),
            )
            | inr threw ↦ inr threw
          ])
      | inr (why, threw, allowed) ↦ inr (why, rw threw refl, allowed)
    ]
