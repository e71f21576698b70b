-- ===== src/Framing/Rounds.antt =====
-- One round of the packet loop, and its fuel.
use serverlib.Prelude.{
  ℕ, zero, suc, ◌+◌, ◌-◌, ◌<◌, ◌≤◌, ◌^◌, ◌≡◌, refl, List, [], ◌∷◌, ◌++◌, arith, length, drop, take,
  true, length-append, dec_le, dec_lt, ◌⊎◌, inl, inr, lt→ltb, le→leb, lt→leb_false, le→ltb_false,
  append_assoc, ◌∙◌, ap,
}
use serverlib.Prelude.Int.{ℤ, pos, negsuc, leb_ℤ}
use serverlib.Prelude.Words.{
  read32, bytes32, read32-bytes32, signed32, to_int, add_int, length-bytes32,
}
use serverlib.Prelude.Run.{Run, ok, fault, out_of_range, ◌>>=◌}
use serverlib.Framing.{pkt_len, substr, drain}

-- A packet on the wire.
abbrev pub packet : List ℕ → List ℕ
packet body = bytes32 (length body) ++ body

pub length-packet : (body : List ℕ) → length (packet body) ≡ length body + 4
length-packet body =
    omega (arith, length-append (bytes32 (length body)) body, length-bytes32 (length body))

pub drop-append {ℓ} : {A : Type ℓ} (n : ℕ) (xs ys : List A) → length xs ≡ n → drop n (xs ++ ys) ≡ ys
drop-append zero [] ys h = refl
drop-append zero (x ∷ xs) ys h = absurd (omega arith)
drop-append (suc n) [] ys h = absurd (omega arith)
drop-append (suc n) (x ∷ xs) ys h = drop-append n xs ys (omega arith)

pub take-append {ℓ} : {A : Type ℓ} (n : ℕ) (xs ys : List A) → length xs ≡ n → take n (xs ++ ys) ≡ xs
take-append zero [] ys h = refl
take-append zero (x ∷ xs) ys h = absurd (omega arith)
take-append (suc n) [] ys h = absurd (omega arith)
take-append (suc n) (x ∷ xs) ys h = ap (◌∷◌ x) (take-append n xs ys (omega arith))

-- Every buffer is of one of these forms, on which a round of the loop depends.
pub data Shape (buf : List ℕ) : Type 0 where
  short : length buf ≤ 4 → Shape buf
  abnormal : 4 < length buf → leb_ℤ (pkt_len buf) (pos 0) ≡ true → Shape buf
  whole : (n : ℕ) → pkt_len buf ≡ pos n → 0 < n → n + 4 ≤ length buf → Shape buf
  partial :
      (n : ℕ)
      → 4 < length buf
      → pkt_len buf ≡ pos n
      → 0 < n
      → n + 4 < 2 ^ 31
      → length buf < n + 4
      → Shape buf
  overflow :
      (n : ℕ) → 4 < length buf → pkt_len buf ≡ pos n → n < 2 ^ 31 → 2 ^ 31 ≤ n + 4 → Shape buf

signed32-cases :
    (w : ℕ)
    → (leb_ℤ (signed32 w) (pos 0) ≡ true)
      ⊎ ((n : ℕ) × (signed32 w ≡ pos n) × (0 < n) × (n < 2 ^ 31))
signed32-cases w = elim (dec_lt w (2 ^ 31)) [
  | yes h ↦ elim (dec_lt 0 w) [ yes p ↦ inr (w, ground arith, p, h) | no p ↦ inl (ground arith) ]
  | no h ↦ inl (ground arith)
]

pub pkt_len-cases :
    (buf : List ℕ)
    → (leb_ℤ (pkt_len buf) (pos 0) ≡ true)
      ⊎ ((n : ℕ) × (pkt_len buf ≡ pos n) × (0 < n) × (n < 2 ^ 31))
unfolding pkt_len
pkt_len-cases buf = signed32-cases (read32 buf)

pub shape : (buf : List ℕ) → length buf < 2 ^ 31 → Shape buf
shape buf small = elim (dec_le (length buf) 4) [
  | yes h ↦ short h
  | no h ↦ elim (pkt_len-cases buf) [
    | inl e ↦ abnormal (omega arith) e
    | inr (n, e, p, q) ↦ elim (dec_le (n + 4) (length buf)) [
      | yes r ↦ whole n e p r
      | no r ↦ elim (dec_lt (n + 4) (2 ^ 31)) [
        | yes t ↦ partial n (omega arith) e p t (omega arith)
        | no t ↦ overflow n (omega arith) e q (omega arith)
      ]
    ]
  ]
]

-- What the loop leaves: too short for a length, or a packet that is not yet whole.
abbrev pub Waits : List ℕ → Type 0
Waits buf =
    (length buf ≤ 4)
    ⊎ ((n : ℕ) × (pkt_len buf ≡ pos n) × (0 < n) × (n + 4 < 2 ^ 31) × (length buf < n + 4))

pub add_four : (n : ℕ) → n + 4 < 2 ^ 31 → add_int (pos n) (pos 4) ≡ pos (n + 4)
unfolding add_int
add_four n h = ground arith

pub add_four_wraps :
    (n : ℕ) → n < 2 ^ 31 → 2 ^ 31 ≤ n + 4 → add_int (pos n) (pos 4) ≡ negsuc (2 ^ 32 - 5 - n)
unfolding add_int
add_four_wraps n h k = ground arith

pub to_int_small : (n : ℕ) → n < 2 ^ 31 → to_int n ≡ pos n
to_int_small n h = ground arith

pub substr_lem : (buf : List ℕ) (n : ℕ) → n ≤ length buf → substr buf (pos n) ≡ ok (drop n buf)
unfolding substr
substr_lem buf n h = rw (le→leb n (length buf) h)

pub pkt_len-bytes32 :
    (n : ℕ) (buf rest : List ℕ) → buf ≡ bytes32 n ++ rest → n < 2 ^ 31 → pkt_len buf ≡ pos n
unfolding pkt_len
pkt_len-bytes32 n buf rest e h = rw (e, read32-bytes32 n rest (omega arith)) (ground arith)

module _ {ℓ} {S : Type ℓ} (handle : S → List ℕ → ℤ → Run S) where
  -- A whole packet at the front is handed over, and the loop goes on with what follows.
  pub drain_whole :
      (fuel : ℕ) (s : S) (buf : List ℕ) (n : ℕ)
      → pkt_len buf ≡ pos n
      → 0 < n
      → n + 4 ≤ length buf
      → length buf < 2 ^ 31
      → drain handle (suc fuel) s buf
        ≡ handle s buf (pos (n + 4)) >>= (λ s'. drain handle fuel s' (drop (n + 4) buf))
  unfolding drain substr
  drain_whole fuel s buf n e h fits small =
      rw (e, add_four n (omega arith), to_int_small (length buf) small)
        (rw (
          lt→ltb 4 (length buf) (omega arith),
          lt→leb_false (n + 0) 0 (omega arith),
          le→leb (n + 4 + 0) (length buf + 0) (omega arith),
          substr_lem buf (n + 4) fits,
        ))

  pub drain-packet :
      (fuel : ℕ) (s : S) (body rest : List ℕ)
      → 0 < length body
      → length (packet body ++ rest) < 2 ^ 31
      → drain handle (suc fuel) s (packet body ++ rest)
        ≡ handle s (packet body ++ rest) (pos (length body + 4))
          >>= (λ s'. drain handle fuel s' rest)
  drain-packet fuel s body rest h small =
      drain_whole fuel s (packet body ++ rest) (length body)
        (pkt_len-bytes32 (length body) _ (body ++ rest)
          (append_assoc (bytes32 (length body)) body rest) (omega (arith, sizes)))
        h (omega (arith, sizes)) small
      ∙ rw (drop-append (length body + 4) (packet body) rest (length-packet body))
    where
      sizes : length (packet body ++ rest) ≡ length body + 4 + length rest
      sizes =
          length-append (packet body) rest ∙ ap (λ (k : ℕ). k + length rest) (length-packet body)

  pub drain_short :
      (fuel : ℕ) (s : S) (buf : List ℕ)
      → length buf ≤ 4
      → drain handle (suc fuel) s buf ≡ ok (s, buf)
  unfolding drain
  drain_short fuel s buf h = rw (le→ltb_false 4 (length buf) h)

  pub drain_partial :
      (fuel : ℕ) (s : S) (buf : List ℕ) (n : ℕ)
      → pkt_len buf ≡ pos n
      → 0 < n
      → n + 4 < 2 ^ 31
      → length buf < n + 4
      → 4 < length buf
      → drain handle (suc fuel) s buf ≡ ok (s, buf)
  unfolding drain
  drain_partial fuel s buf n e p fits h long =
      rw (e, add_four n fits, to_int_small (length buf) (omega arith))
        (rw (
          lt→ltb 4 (length buf) long,
          lt→leb_false (n + 0) 0 (omega arith),
          lt→leb_false (n + 4 + 0) (length buf + 0) (omega arith),
        ))

  -- A length that is not positive empties the buffer, and nothing is handed over.
  pub drain_abnormal :
      (fuel : ℕ) (s : S) (buf : List ℕ)
      → 4 < length buf
      → leb_ℤ (pkt_len buf) (pos 0) ≡ true
      → drain handle (suc fuel) s buf ≡ ok (s, [])
  unfolding drain
  drain_abnormal fuel s buf long e = rw (lt→ltb 4 (length buf) long, e)

  -- A length to which 4 cannot be added wraps, and the round ends in `std::out_of_range` at the
  -- latest.
  pub drain_overflow :
      (fuel : ℕ) (s : S) (buf : List ℕ) (n : ℕ)
      → 4 < length buf
      → length buf < 2 ^ 31
      → pkt_len buf ≡ pos n
      → n < 2 ^ 31
      → 2 ^ 31 ≤ n + 4
      → drain handle (suc fuel) s buf
        ≡ handle s buf (negsuc (2 ^ 32 - 5 - n)) >>= (λ _. fault out_of_range)
  unfolding drain substr
  drain_overflow fuel s buf n long small e high wraps =
      rw (e, add_four_wraps n high wraps, to_int_small (length buf) small)
        (rw (
          lt→ltb 4 (length buf) long,
          lt→leb_false (n + 0) 0 (omega arith),
          le→leb 0 (length buf + suc (2 ^ 32 - 5 - n)) (omega arith),
          substr,
        ))
