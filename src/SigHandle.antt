-- ===== src/SigHandle.antt =====
-- `CSigHandle` of sighandle.h: the one handler of SIGPIPE of a process. `Start()` of a TCP server, once
-- its socket is bound, and of a TCP client, once it has a socket, gets it with its own loop; the UDP
-- objects never do. It is made at the first call, and destroyed when the process exits. A loop is a
-- number.
use serverlib.Prelude.{
  ℕ, ◌≡◌, refl, ap, ◌∙◌, Bool, true, false, not, ◌||◌, Bool-cases, inl, inr, List, [], ◌∷◌, Option,
  none, some, ◌==◌, if◌then◌else◌, arith,
}
use serverlib.Prelude.Int.{ℤ, pos, eqb_ℤ, leb_ℤ}
use serverlib.Tcp
use serverlib.Tcp.Server.{TcpServer}
use serverlib.Tcp.Client.{TcpClient}

-- `m_Sig`: the loop that it is set to, and whether it is started.
pub record SigHandle : Type 0 where
  pub loop : ℕ
  pub active : Bool

-- The static object of `GetInstance`, and the loops whose objects have been deleted.
pub record Process : Type 0 where
  pub instance_object : Option SigHandle
  pub deleted : List ℕ

abbrev pub new_process : Process
new_process = record { instance_object = none; deleted = [] }

-- The constructor.
abbrev pub new_sig_handle : ℕ → SigHandle
new_sig_handle loop = record { loop = loop; active = true }

-- `GetInstance()`: the loop of every call but the first is ignored.
unfoldable pub get_instance : ℕ → Process → Process
get_instance loop p = elim p.instance_object [
  | none ↦ record p { instance_object = some (new_sig_handle loop) }
  | some h ↦ p
]

abbrev pub elem : ℕ → List ℕ → Bool
elem n [] = false
elem n (m ∷ ms) = m == n || elem n ms

-- The destructor, which the exit of the process calls: `m_Sig.stop()` goes to the loop, which must
-- still be there.
unfoldable pub exits_well : Process → Bool
exits_well p = elim p.instance_object [ none ↦ true | some h ↦ not (elem h.loop p.deleted) ]

-- A TCP server or client with a loop is started, with the address and the port, with what `socket()`
-- and, for a server, `bind()` return; or an object is deleted together with its loop.
pub data Life : Type 0 where
  server_starts : ℕ → TcpServer → ℕ → ℕ → ℤ → ℤ → Life
  client_starts : ℕ → TcpClient → ℕ → ℕ → ℤ → Life
  deletes : ℕ → Life

-- `CSigHandle::GetInstance(m_Loop)` is the last call of both `Start()` before the loop runs.
unfoldable pub live : Life → Process → Process
live (server_starts loop s ip port fd bound) p =
    if (Tcp.Server.start ip port fd bound s).1 then get_instance loop p else p
live (client_starts loop c ip port fd) p =
    if (Tcp.Client.start ip port fd c).1 then get_instance loop p else p
live (deletes loop) p = record p { deleted = loop ∷ p.deleted }

abbrev pub live_all : List Life → Process → Process
live_all [] p = p
live_all (l ∷ ls) p = live_all ls (live l p)

-- The loop of the first server that is bound or client that has a descriptor above 0.
abbrev pub first_started : List Life → Option ℕ
first_started [] = none
first_started (server_starts loop s ip port fd bound ∷ ls) =
    if eqb_ℤ bound (pos 0) then some loop else first_started ls
first_started (client_starts loop c ip port fd ∷ ls) =
    if leb_ℤ fd (pos 0) then first_started ls else some loop
first_started (deletes loop ∷ ls) = first_started ls

-- This loop is deleted at some time.
abbrev pub deletes_loop : ℕ → List Life → Bool
deletes_loop n [] = false
deletes_loop n (server_starts loop s ip port fd bound ∷ ls) = deletes_loop n ls
deletes_loop n (client_starts loop c ip port fd ∷ ls) = deletes_loop n ls
deletes_loop n (deletes loop ∷ ls) = loop == n || deletes_loop n ls

-- What a start does to the handler, by what it is given.
live-server :
    (loop : ℕ) (s : TcpServer) (ip port : ℕ) (fd bound : ℤ) (p : Process)
    → live (server_starts loop s ip port fd bound) p
      ≡ (if eqb_ℤ bound (pos 0) then get_instance loop p else p)
unfolding live Tcp.Server.start
live-server loop s ip port fd bound p = elim (Bool-cases (eqb_ℤ bound (pos 0))) [
  | inl got ↦ rw got refl
  | inr failed ↦ rw failed refl
]

live-client :
    (loop : ℕ) (c : TcpClient) (ip port : ℕ) (fd : ℤ) (p : Process)
    → live (client_starts loop c ip port fd) p
      ≡ (if leb_ℤ fd (pos 0) then p else get_instance loop p)
unfolding live Tcp.Client.start Tcp.Client.connect
live-client loop c ip port fd p = elim (Bool-cases (leb_ℤ fd (pos 0))) [
  | inl failed ↦ rw failed refl
  | inr got ↦ rw got refl
]

live-deletes :
    (loop : ℕ) (p : Process) → live (deletes loop) p ≡ record p { deleted = loop ∷ p.deleted }
unfolding live
live-deletes loop p = refl

-- A process whose handler is made, and one without a handler.
abbrev made : SigHandle → List ℕ → Process
made h deleted = record { instance_object = some h; deleted = deleted }

abbrev bare : List ℕ → Process
bare deleted = record { instance_object = none; deleted = deleted }

get_instance-made :
    (loop : ℕ) (h : SigHandle) (deleted : List ℕ)
    → get_instance loop (made h deleted) ≡ made h deleted
unfolding get_instance
get_instance-made loop h deleted = refl

get_instance-bare :
    (loop : ℕ) (deleted : List ℕ)
    → get_instance loop (bare deleted) ≡ made (new_sig_handle loop) deleted
unfolding get_instance
get_instance-bare loop deleted = refl

-- A handler that is made stays as it is, whoever starts.
stays-made :
    (b : Bool) (loop : ℕ) (h : SigHandle) (deleted : List ℕ)
    → ((if b then get_instance loop (made h deleted) else made h deleted) ≡ made h deleted)
      × ((if b then made h deleted else get_instance loop (made h deleted)) ≡ made h deleted)
stays-made true loop h deleted = (get_instance-made loop h deleted, refl)
stays-made false loop h deleted = (refl, get_instance-made loop h deleted)

handled :
    (h : SigHandle) (ls : List Life) (deleted : List ℕ)
    → exits_well (live_all ls (made h deleted))
      ≡ not (elem h.loop deleted || deletes_loop h.loop ls)
unfolding exits_well
handled h [] deleted = ground arith
handled h (server_starts loop s ip port fd bound ∷ ls) deleted =
    ap (λ (p : Process). exits_well (live_all ls p))
      (live-server loop s ip port fd bound (made h deleted)
        ∙ (stays-made (eqb_ℤ bound (pos 0)) loop h deleted).0)
    ∙ handled h ls deleted
handled h (client_starts loop c ip port fd ∷ ls) deleted =
    ap (λ (p : Process). exits_well (live_all ls p))
      (live-client loop c ip port fd (made h deleted)
        ∙ (stays-made (leb_ℤ fd (pos 0)) loop h deleted).1)
    ∙ handled h ls deleted
handled h (deletes loop ∷ ls) deleted =
    ap (λ (p : Process). exits_well (live_all ls p)) (live-deletes loop (made h deleted))
    ∙ handled h ls (loop ∷ deleted)
    ∙ ground arith

-- What the exit of the process meets, by the loop that was started first.
abbrev met : List Life → List ℕ → Option ℕ → Bool
met ls deleted none = true
met ls deleted (some loop) = not (elem loop deleted || deletes_loop loop ls)

deleted_first :
    (loop : ℕ) (ls : List Life) (deleted : List ℕ) (first : Option ℕ)
    → met ls (loop ∷ deleted) first ≡ met (deletes loop ∷ ls) deleted first
deleted_first loop ls deleted none = refl
deleted_first loop ls deleted (some n) = ground arith

server_first :
    (loop : ℕ) (s : TcpServer) (ip port : ℕ) (fd bound : ℤ) (ls : List Life) (deleted : List ℕ)
    (first : Option ℕ)
    → met ls deleted first ≡ met (server_starts loop s ip port fd bound ∷ ls) deleted first
server_first loop s ip port fd bound ls deleted none = refl
server_first loop s ip port fd bound ls deleted (some n) = refl

client_first :
    (loop : ℕ) (c : TcpClient) (ip port : ℕ) (fd : ℤ) (ls : List Life) (deleted : List ℕ)
    (first : Option ℕ)
    → met ls deleted first ≡ met (client_starts loop c ip port fd ∷ ls) deleted first
client_first loop c ip port fd ls deleted none = refl
client_first loop c ip port fd ls deleted (some n) = refl

exits :
    (ls : List Life) (deleted : List ℕ)
    → exits_well (live_all ls (bare deleted)) ≡ met ls deleted (first_started ls)
unfolding exits_well
exits [] deleted = refl
exits (deletes loop ∷ ls) deleted =
    ap (λ (p : Process). exits_well (live_all ls p)) (live-deletes loop (bare deleted))
    ∙ exits ls (loop ∷ deleted)
    ∙ deleted_first loop ls deleted (first_started ls)
exits (server_starts loop s ip port fd bound ∷ ls) deleted =
    ap (λ (p : Process). exits_well (live_all ls p))
      (live-server loop s ip port fd bound (bare deleted))
    ∙ (elim (Bool-cases (eqb_ℤ bound (pos 0))) [
      | inl got ↦
          rw (got, get_instance-bare loop deleted) (handled (new_sig_handle loop) ls deleted)
      | inr failed ↦
          rw failed
            (exits ls deleted ∙ server_first loop s ip port fd bound ls deleted (first_started ls))
    ])
exits (client_starts loop c ip port fd ∷ ls) deleted =
    ap (λ (p : Process). exits_well (live_all ls p)) (live-client loop c ip port fd (bare deleted))
    ∙ (elim (Bool-cases (leb_ℤ fd (pos 0))) [
      | inl failed ↦
          rw failed
            (exits ls deleted ∙ client_first loop c ip port fd ls deleted (first_started ls))
      | inr got ↦
          rw (got, get_instance-bare loop deleted) (handled (new_sig_handle loop) ls deleted)
    ])

-- Whatever TCP servers and clients are started, with whatever the system returns, and whatever
-- objects are deleted, in whatever order: the handler stays with the loop of the first server that
-- was bound or client that got a descriptor above 0, and at the exit of the process its watcher is
-- stopped in a loop that is still there exactly if the object of that loop was never deleted, or
-- there was no such start.
pub live_all-exits_well :
    (ls : List Life)
    → exits_well (live_all ls new_process)
      ≡ (elim (first_started ls) [ none ↦ true | some loop ↦ not (deletes_loop loop ls) ])
live_all-exits_well ls = exits ls []
