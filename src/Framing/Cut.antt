-- ===== src/Framing/Cut.antt =====
-- A stream of packets, and the chunks that it is cut into.
use serverlib.Prelude.{
  ℕ, suc, ◌+◌, ◌<◌, ◌≤◌, ◌^◌, ◌≡◌, refl, List, [], ◌∷◌, ◌++◌, arith, length, dec_le, append_assoc,
  ◌∙◌,
}
use serverlib.Prelude.Int.{ℤ}
use serverlib.Prelude.Words.{bytes32, length-bytes32}
use serverlib.Prelude.Run.{Run, ok}
use serverlib.Framing.{drain}
use serverlib.Framing.Rounds.{packet, pkt_len-bytes32, drain_short, drain_partial}

-- The bytes that a sender of these packets writes.
abbrev pub stream : List (List ℕ) → List ℕ
stream [] = []
stream (body ∷ bodies) = packet body ++ stream bodies

abbrev pub join : List (List ℕ) → List ℕ
join [] = []
join (c ∷ cs) = c ++ join cs

pub split_append :
    (xs ys zs ws : List ℕ)
    → xs ++ ys ≡ zs ++ ws
    → length zs ≤ length xs
    → (t : List ℕ) × (xs ≡ zs ++ t) × (t ++ ys ≡ ws)
split_append xs ys [] ws e h = (xs, refl, e)
split_append [] ys (z ∷ zs) ws e h = absurd (omega arith)
split_append (x ∷ xs) ys (z ∷ zs) ws e h =
    let (t, p, q) = split_append xs ys zs ws (cc) (omega arith) in (t, cc, q)

-- What is left in the buffer, `left`, when these packets are still to come.
abbrev pub Pending : List ℕ → List (List ℕ) → Type 0
Pending left [] = left ≡ []
Pending left (body ∷ bodies) = length left < length body + 4

-- Bodies are not empty and have at most `most` bytes.
abbrev pub IsSized : ℕ → List (List ℕ) → Type 0
IsSized most [] = Unit {0}
IsSized most (body ∷ bodies) = (0 < length body) × (length body ≤ most) × IsSized most bodies

abbrev pub IsBounded : ℕ → List (List ℕ) → Type 0
IsBounded most [] = Unit {0}
IsBounded most (c ∷ cs) = (length c ≤ most) × IsBounded most cs

-- A buffer that stops inside the packet at its front is kept.
pub drain_incomplete {ℓ} :
    {S : Type ℓ} (handle : S → List ℕ → ℤ → Run S) (fuel : ℕ) (s : S) (body buf rest more : List ℕ)
    → buf ++ rest ≡ packet body ++ more
    → 0 < length body
    → length body + 4 < 2 ^ 31
    → length buf < length body + 4
    → drain handle (suc fuel) s buf ≡ ok (s, buf)
drain_incomplete handle fuel s body buf rest more e p fits h = elim (dec_le (length buf) 4) [
  | yes short ↦ drain_short handle fuel s buf short
  | no long ↦
      let (t, q, _) =
        split_append buf rest (bytes32 (length body)) (body ++ more)
          (e ∙ append_assoc (bytes32 (length body)) body more)
          (omega (arith, length-bytes32 (length body))) in
      drain_partial handle fuel s buf (length body)
        (pkt_len-bytes32 (length body) buf t q (omega arith)) p fits h (omega arith)
]
