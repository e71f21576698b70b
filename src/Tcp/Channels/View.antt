-- ===== src/Tcp/Channels/View.antt =====
-- The 256 channels of `CSocketInfoManager`, read as one map from clients to entries.
use serverlib.Prelude.{
  ℕ, zero, suc, ◌<◌, ◌%◌, ◌≡◌, refl, ap, ◌∙◌, true, Bool-cases, inl, inr, List, [], ◌∷◌, Option,
  none, some, length, set, get_or, get_elem?, replicate, if◌then◌else◌, arith, get_or-set_self,
  get_or-set_ne, length-set, length-replicate, ℕ_discrete,
}
use serverlib.Prelude.Int.{pos}
use serverlib.Prelude.Run.{ok, Returns}
use serverlib.Prelude.Map
use serverlib.Prelude.Map.{Map, same, same_iff, find-assign, find-erase, find-nil}
use serverlib.Socket.{SocketClientData}
use serverlib.Socket.Order.{client_order}
use serverlib.Tcp.Channels.{
  SocketInfoManager, socket_channel_num, hash, channel_at, add, get, remove, new_manager,
}

pub get_elem?-get_or {ℓ} :
    {A : Type ℓ} (xs : List A) (i : ℕ) (d : A)
    → i < length xs
    → get_elem? xs i ≡ some (get_or xs i d)
get_elem?-get_or [] i d h = absurd (omega arith)
get_elem?-get_or (x ∷ xs) zero d h = refl
get_elem?-get_or (x ∷ xs) (suc i) d h = get_elem?-get_or xs i d (omega arith)

get_or-replicate {ℓ} : {A : Type ℓ} (n i : ℕ) (a : A) → get_or (replicate n a) i a ≡ a
get_or-replicate zero i a = refl
get_or-replicate (suc n) zero a = refl
get_or-replicate (suc n) (suc i) a = get_or-replicate n i a

-- The descriptor of a client, which is not negative.
abbrev pub Descriptor : SocketClientData → ℕ → Type 0
Descriptor client n = client.socket ≡ pos n

pub Descriptor-same :
    (client other : SocketClientData) (n k : ℕ)
    → Descriptor client n
    → Descriptor other k
    → same client other ≡ true
    → n ≡ k
Descriptor-same client other n k e o h = ground (arith, same_iff client other)

hash_lem :
    (client : SocketClientData) (n : ℕ)
    → Descriptor client n
    → hash client ≡ pos (n % socket_channel_num)
unfolding hash
hash_lem client n e = rw e

module _ {ℓ} {V : Type ℓ} where
  abbrev pub IsManager : SocketInfoManager V → Type 0
  IsManager m = length m.channels ≡ socket_channel_num

  -- The entry of a client with the descriptor `n`.
  pub lookup : SocketClientData → ℕ → SocketInfoManager V → Option V
  lookup client n m = Map.find client (get_or m.channels (n % socket_channel_num) [])

  channel_at-hash :
      (client : SocketClientData) (n : ℕ) (m : SocketInfoManager V)
      → IsManager m
      → Descriptor client n
      → channel_at m.channels (hash client)
        ≡ ok (n % socket_channel_num, get_or m.channels (n % socket_channel_num) [])
  unfolding channel_at
  channel_at-hash client n m v e = rw (
    hash_lem client n e,
    channel_at,
    get_elem?-get_or m.channels (n % socket_channel_num) [] (omega arith),
  )

  pub get-lookup :
      (client : SocketClientData) (n : ℕ) (m : SocketInfoManager V)
      → IsManager m
      → Descriptor client n
      → get client m ≡ ok (lookup client n m)
  unfolding get lookup
  get-lookup client n m v e = rw (channel_at-hash client n m v e)

  -- What an operation on the manager does to the one map.
  pub record Writes (client : SocketClientData) (entry : Option V) (m m' : SocketInfoManager V)
      : Type ℓ where
    pub valid : IsManager m'
    pub reads :
        (other : SocketClientData) (k : ℕ)
        → Descriptor other k
        → lookup other k m' ≡ (if same client other then entry else lookup other k m)

  set-Writes :
      (client : SocketClientData) (n : ℕ) (m : SocketInfoManager V) (entry : Option V)
      (channel : Map SocketClientData V)
      → IsManager m
      → Descriptor client n
      → ((other : SocketClientData)
          → Map.find other channel ≡ (
              if same client other
              then entry
              else Map.find other (get_or m.channels (n % socket_channel_num) [])))
      → Writes client entry m
          (record { channels = set m.channels (n % socket_channel_num) channel })
  unfolding lookup
  set-Writes client n m entry channel v e h = record {
    valid = length-set m.channels (n % socket_channel_num) channel ∙ v;
    reads = λ other k o. elim (ℕ_discrete (n % socket_channel_num) (k % socket_channel_num)) [
      | yes here ↦
          rw (← here, get_or-set_self m.channels (n % socket_channel_num) channel [] (omega arith))
            (h other)
      | no apart ↦
          rw
            (get_or-set_ne m.channels (n % socket_channel_num) (k % socket_channel_num) channel []
              apart)
            (elim (Bool-cases (same client other)) [
              | inl one ↦
                  let n≡k : n ≡ k = Descriptor-same client other n k e o one in
                  absurd (apart (ap (λ (i : ℕ). i % socket_channel_num) n≡k))
              | inr two ↦ rw two
            ])
    ];
  }

  -- Of a client with a descriptor that is not negative, in a manager of 256 channels: `Add` stays
  -- within the array, and is assignment in the one map that `lookup` reads.
  pub add-Writes :
      (client : SocketClientData) (n : ℕ) (conn : V) (m : SocketInfoManager V)
      → IsManager m
      → Descriptor client n
      → Returns (add client conn m) (Writes client (some conn) m)
  unfolding add
  add-Writes client n conn m v e =
      let channel = get_or m.channels (n % socket_channel_num) [] in
      (
        record {
          channels = set m.channels (n % socket_channel_num) (Map.assign client conn channel);
        },
        rw (channel_at-hash client n m v e),
        set-Writes client n m (some conn) (Map.assign client conn channel) v e
            (λ other. find-assign other client conn channel),
      )

  -- Of a client with a descriptor that is not negative, in a manager of 256 channels: `Remove` stays
  -- within the array, and removes from the one map that `lookup` reads.
  pub remove-Writes :
      (client : SocketClientData) (n : ℕ) (m : SocketInfoManager V)
      → IsManager m
      → Descriptor client n
      → Returns (remove client m) (Writes client none m)
  unfolding remove
  remove-Writes client n m v e =
      let channel = get_or m.channels (n % socket_channel_num) [] in
      (
        record { channels = set m.channels (n % socket_channel_num) (Map.erase client channel) },
        rw (channel_at-hash client n m v e),
        set-Writes client n m none (Map.erase client channel) v e
            (λ other. find-erase other client channel),
      )

  pub new_manager-lookup :
      (client : SocketClientData) (n : ℕ)
      → IsManager new_manager × (lookup client n new_manager ≡ none)
  unfolding new_manager lookup
  new_manager-lookup client n = (
    length-replicate {A = Map SocketClientData V} 256 [],
    rw (get_or-replicate {A = Map SocketClientData V} 256 (n % 256) []) (find-nil client),
  )
