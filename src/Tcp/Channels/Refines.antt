-- ===== src/Tcp/Channels/Refines.antt =====
-- `CSocketInfoManager` against its specification: one map from clients to entries.
use serverlib.Prelude.{ℕ, ◌≡◌, refl, ap, ◌∙◌, List, [], ◌∷◌, Option, none, some, if◌then◌else◌}
use serverlib.Prelude.Int.{pos}
use serverlib.Prelude.Run.{Run, ok, ◌>>=◌}
use serverlib.Prelude.Map.{same}
use serverlib.Socket.{SocketClientData}
use serverlib.Socket.Order.{client_order}
use serverlib.Tcp.Channels.{SocketInfoManager, add, get, remove, new_manager}
use serverlib.Tcp.Channels.View.{
  Descriptor, IsManager, lookup, get-lookup, Writes, add-Writes, remove-Writes, new_manager-lookup,
}

pub data Operation {ℓ} (V : Type ℓ) : Type ℓ where
  adds : SocketClientData → V → Operation V
  removes gets : SocketClientData → Operation V

-- The specification.
abbrev pub OneMap {ℓ} : Type ℓ → Type ℓ
OneMap V = SocketClientData → Option V

module _ {ℓ} {V : Type ℓ} where
  -- The operations on a manager, and what `Get` returns.
  unfoldable pub operate :
      SocketInfoManager V → List (Operation V) → Run (SocketInfoManager V × List (Option V))
  operate m [] = ok (m, [])
  operate m (adds client conn ∷ ops) = add client conn m >>= λ m'. operate m' ops
  operate m (removes client ∷ ops) = remove client m >>= λ m'. operate m' ops
  operate m (gets client ∷ ops) = do
    found ← get client m
    rest ← operate m ops
    ok (rest.0, found ∷ rest.1)

  abbrev pub updated : SocketClientData → Option V → OneMap V → OneMap V
  updated client entry f other = if same client other then entry else f other

  abbrev pub answers : OneMap V → List (Operation V) → List (Option V)
  answers f [] = []
  answers f (adds client conn ∷ ops) = answers (updated client (some conn) f) ops
  answers f (removes client ∷ ops) = answers (updated client none f) ops
  answers f (gets client ∷ ops) = f client ∷ answers f ops

  abbrev pub final : OneMap V → List (Operation V) → OneMap V
  final f [] = f
  final f (adds client conn ∷ ops) = final (updated client (some conn) f) ops
  final f (removes client ∷ ops) = final (updated client none f) ops
  final f (gets client ∷ ops) = final f ops

  -- The clients have descriptors.
  abbrev pub AllNamed : List (Operation V) → Type ℓ
  AllNamed [] = Unit {ℓ}
  AllNamed (adds client conn ∷ ops) = ((n : ℕ) × Descriptor client n) × AllNamed ops
  AllNamed (removes client ∷ ops) = ((n : ℕ) × Descriptor client n) × AllNamed ops
  AllNamed (gets client ∷ ops) = ((n : ℕ) × Descriptor client n) × AllNamed ops

  -- A manager stands for a map.
  pub record StandsFor (f : OneMap V) (m : SocketInfoManager V) : Type ℓ where
    pub valid : IsManager m
    pub agrees :
        (client : SocketClientData) (n : ℕ) → Descriptor client n → lookup client n m ≡ f client

  -- What it does, against the map.
  pub record Refines (f : OneMap V) (ops : List (Operation V))
      (r : Run (SocketInfoManager V × List (Option V))) : Type ℓ where
    pub m' : SocketInfoManager V
    pub ran : r ≡ ok (m', answers f ops)
    pub stands : StandsFor (final f ops) m'

  written :
      (client : SocketClientData) (entry : Option V) (f : OneMap V) (m m' : SocketInfoManager V)
      → StandsFor f m
      → Writes client entry m m'
      → StandsFor (updated client entry f) m'
  written client entry f m m' s w = record {
    valid = w.valid;
    agrees = λ other n d.
        w.reads other n d
        ∙ ap (λ (e : Option V). if same client other then entry else e) (s.agrees other n d);
  }

  operate_from :
      (f : OneMap V) (m : SocketInfoManager V) (ops : List (Operation V))
      → StandsFor f m
      → AllNamed ops
      → Refines f ops (operate m ops)
  unfolding operate
  operate_from f m [] s named = record { m' = m; ran = refl; stands = s }
  operate_from f m (adds client conn ∷ ops) s named =
      let (m₁, ran, w) = add-Writes client named.0.0 conn m s.valid named.0.1 in
      let r =
        operate_from (updated client (some conn) f) m₁ ops (written client (some conn) f m m₁ s w)
          named.1 in
      record { m' = r.m'; ran = rw ran r.ran; stands = r.stands }
  operate_from f m (removes client ∷ ops) s named =
      let (m₁, ran, w) = remove-Writes client named.0.0 m s.valid named.0.1 in
      let r =
        operate_from (updated client none f) m₁ ops (written client none f m m₁ s w) named.1 in
      record { m' = r.m'; ran = rw ran r.ran; stands = r.stands }
  operate_from f m (gets client ∷ ops) s named =
      let r = operate_from f m ops s named.1 in
      record {
        m' = r.m';
        ran =
            rw
              (
                get-lookup client named.0.0 m s.valid named.0.1,
                r.ran,
                s.agrees client named.0.0 named.0.1,
              )
              refl;
        stands = r.stands;
      }

  -- Whatever is done to a new manager of 256 channels, for clients with descriptors that are not
  -- negative: no access is out of bounds, each `Get` answers as one map from clients to entries
  -- does, and the manager stands for that map in the end.
  pub operate-Refines :
      (ops : List (Operation V))
      → AllNamed ops
      → Refines (λ client. none) ops (operate new_manager ops)
  operate-Refines ops named =
      operate_from (λ client. none) new_manager ops
        (record {
          valid = (new_manager-lookup {V = V} (record { ip = 0; port = 0; socket = pos 0 }) 0).0;
          agrees = λ client n d. (new_manager-lookup {V = V} client n).1;
        })
        named
