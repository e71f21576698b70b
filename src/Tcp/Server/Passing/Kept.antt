-- ===== src/Tcp/Server/Passing/Kept.antt =====
-- What is asked of a server's virtual members.
use mathlib.Core.Path.{subst}
use serverlib.Prelude.{
  ℕ, ◌≡◌, refl, sym, Bool, true, false, inl, inr, List, [], ◌++◌, if◌then◌else◌,
}
use serverlib.Prelude.Int.{ℤ}
use serverlib.Prelude.Run.{Run, Fault, ok, ◌>>=◌}
use serverlib.Prelude.Map.{same}
use serverlib.Socket.{SocketClientData}
use serverlib.Socket.Order.{client_order}
use serverlib.OutputBuffer.{OutputBuffer}
use serverlib.Tcp.Channels.View.{Descriptor}
use serverlib.Tcp.Server.Handled.{IsLive}
use serverlib.Tcp.Server.{TcpServer, Virtual}
use serverlib.Tcp.Server.Loop.{Ends}
use serverlib.Tcp.Server.Passing.Passes.{Passes, Passes-then}

abbrev pub Functions : Type 0
Functions = List (SocketClientData × OutputBuffer)

-- The calls of `Send()` that are put off where a client's bytes arrive.
abbrev pub Answers : Type 0
Answers = SocketClientData → List ℕ → Functions

module _ {S : Type 0} (v : Virtual S) (Inv : S → Type 0) (Allowed : Fault → Type 0) where
  -- A run that a fault may end, and that otherwise keeps the invariant and passes bytes on so.
  abbrev pub PassesOn : SocketClientData → ℕ → List ℕ → List ℕ → Functions → S → Run S → Type 0
  PassesOn client n gone added more s r =
      Ends v (λ s'. Inv s' × Passes client n gone added more (v.base s) (v.base s')) Allowed r

  -- A member that destroys the connection of `owner`.
  abbrev pub LetsGo : (SocketClientData → S → Run S) → Type 0
  LetsGo member =
      (client owner : SocketClientData) (n k : ℕ) (added : List ℕ) (s : S)
      → Descriptor client n
      → Descriptor owner k
      → Inv s
      → PassesOn client n [] (if same owner client then added else []) [] s (member owner s)

  pub record IsPassing (answers : Answers) : Type 0 where
    pub base_of : (t : TcpServer) (s : S) → v.base (v.with_base t s) ≡ t
    pub sound : (s : S) → Inv s → IsLive (v.base s)
    pub rebased : (t : TcpServer) (s : S) → IsLive t → Inv s → Inv (v.with_base t s)
    pub disconnected : (error : ℤ) → LetsGo (λ owner. v.disconnected owner error)
    pub recv_error : (error : ℤ) → LetsGo (λ owner. v.recv_error owner error)
    pub send_error : (error : ℤ) → LetsGo (λ owner. v.send_error owner error)
    pub timed_out : LetsGo v.timed_out
    pub data_received :
        (client owner : SocketClientData) (n : ℕ) (bytes : List ℕ) (s : S)
        → Inv s
        → PassesOn client n [] [] (answers owner bytes) s (v.data_received owner bytes s)

  pub then_on :
      (client : SocketClientData) (n : ℕ) (g g' a a' : List ℕ) (m m' : Functions) (s : S)
      (r : Run S) (f : S → Run S)
      → PassesOn client n g a m s r
      → ((t : S) → Inv t → PassesOn client n g' a' m' t (f t))
      → PassesOn client n (g ++ g') (a ++ a') (m ++ m') s (r >>= f)
  then_on client n g g' a a' m m' s r f (inl (t, ran, (w, p))) next = elim (next t w) [
    | inl (u, ran', (w', q)) ↦ inl (
      u,
      rw ran ran',
      (w', Passes-then client n g g' a a' m m' (v.base s) (v.base t) (v.base u) p q),
    )
    | inr (why, threw, allowed) ↦ inr (why, rw ran threw, allowed)
  ]
  then_on client n g g' a a' m m' s r f (inr (why, threw, allowed)) next =
      inr (why, rw threw, allowed)

  pub nothing_added :
      (client : SocketClientData) (n : ℕ) (b : Bool) (s : S) {r : Run S}
      → PassesOn client n [] (if b then [] else []) [] s r
      → PassesOn client n [] [] [] s r
  nothing_added client n true s p = p
  nothing_added client n false s p = p

  module _ (answers : Answers) (passing : IsPassing answers) where
    -- A change of the base class's state.
    pub rebased_on :
        (client : SocketClientData) (n : ℕ) (g a : List ℕ) (m : Functions) (t : TcpServer) (s : S)
        → Inv s
        → Passes client n g a m (v.base s) t
        → PassesOn client n g a m s (ok (v.with_base t s))
    rebased_on client n g a m t s w p = inl (
      v.with_base t s,
      refl,
      (
        passing.rebased t s p.valid w,
        subst (Passes client n g a m (v.base s)) (sym (passing.base_of t s)) p,
      ),
    )
