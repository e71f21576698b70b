-- ===== src/Proxy/Header.antt =====
-- The header of ten bytes that the proxies read, as a client.
use serverlib.Prelude.{
  ℕ, zero, suc, ◌+◌, ◌*◌, ◌/◌, ◌%◌, ◌^◌, ◌<◌, ◌≤◌, ◌≡◌, refl, sym, ap, ◌∙◌, List, [], ◌∷◌, ◌++◌,
  length, take, drop, get_or, length-drop, arith,
}
use serverlib.Prelude.Words.{bytes32, read32, signed32, word32-signed32, int_max}
use serverlib.Prelude.Int.{pos, negsuc, ◌≤ℤ◌}
use serverlib.OutputBuffer.Pending.{drop-drop}
use serverlib.Socket.{IsSocketClientData}
use serverlib.Proxy.Wire.{bytes16, read16, client_bytes, read_client}

-- The elements are bytes.
abbrev pub AllBytes : List ℕ → Type 0
AllBytes [] = Unit {0}
AllBytes (b ∷ bytes) = (b < 256) × AllBytes bytes

get_or-lt : (bytes : List ℕ) (i : ℕ) → AllBytes bytes → get_or bytes i 0 < 256
get_or-lt [] i h = omega arith
get_or-lt (b ∷ bytes) zero h = h.0
get_or-lt (b ∷ bytes) (suc i) h = get_or-lt bytes i h.1

drop-AllBytes : (n : ℕ) (bytes : List ℕ) → AllBytes bytes → AllBytes (drop n bytes)
drop-AllBytes zero bytes h = h
drop-AllBytes (suc n) [] h = tt
drop-AllBytes (suc n) (b ∷ bytes) h = drop-AllBytes n bytes h.1

read32-lt : (bytes : List ℕ) → AllBytes bytes → read32 bytes < 2 ^ 32
unfolding read32
read32-lt bytes h =
    omega
      (arith, get_or-lt bytes 0 h, get_or-lt bytes 1 h, get_or-lt bytes 2 h, get_or-lt bytes 3 h)

read16-lt : (bytes : List ℕ) → AllBytes bytes → read16 bytes < 2 ^ 16
unfolding read16
read16-lt bytes h = omega (arith, get_or-lt bytes 0 h, get_or-lt bytes 1 h)

signed32-bounds :
    (w : ℕ) → w < 2 ^ 32 → (negsuc int_max ≤ℤ signed32 w) × (signed32 w ≤ℤ pos int_max)
signed32-bounds w h = ground arith

bytes32-read32 :
    (bytes : List ℕ) → AllBytes bytes → 4 ≤ length bytes → bytes32 (read32 bytes) ≡ take 4 bytes
unfolding bytes32 read32
bytes32-read32 [] h k = absurd (omega arith)
bytes32-read32 (a ∷ []) h k = absurd (omega arith)
bytes32-read32 (a ∷ b ∷ []) h k = absurd (omega arith)
bytes32-read32 (a ∷ b ∷ c ∷ []) h k = absurd (omega arith)
bytes32-read32 (a ∷ b ∷ c ∷ d ∷ rest) h k =
    let n = a + 256 * b + 256 ^ 2 * c + 256 ^ 3 * d in
    let e₀ : n % 256 ≡ a = omega (arith, h.0) in
    let e₁ : n / 256 % 256 ≡ b = omega (arith, h.0, h.1.0) in
    let e₂ : n / 256 ^ 2 % 256 ≡ c = omega (arith, h.0, h.1.0, h.1.1.0) in
    let e₃ : n / 256 ^ 3 % 256 ≡ d = omega (arith, h.0, h.1.0, h.1.1.0, h.1.1.1.0) in
    rw (e₀, e₁, e₂, e₃) refl

bytes16-read16 :
    (bytes : List ℕ) → AllBytes bytes → 2 ≤ length bytes → bytes16 (read16 bytes) ≡ take 2 bytes
unfolding bytes16 read16
bytes16-read16 [] h k = absurd (omega arith)
bytes16-read16 (a ∷ []) h k = absurd (omega arith)
bytes16-read16 (a ∷ b ∷ rest) h k =
    let n = a + 256 * b in
    let e₀ : n % 256 ≡ a = omega (arith, h.0) in
    let e₁ : n / 256 % 256 ≡ b = omega (arith, h.0, h.1.0) in rw (e₀, e₁) refl

take_nil : (n : ℕ) → take {A = ℕ} n [] ≡ []
take_nil zero = refl
take_nil (suc n) = refl

take-take : (m n : ℕ) (bytes : List ℕ) → take m bytes ++ take n (drop m bytes) ≡ take (m + n) bytes
take-take zero n bytes = let e : 0 + n ≡ n = omega arith in rw e refl
take-take (suc m) n [] = take_nil n ∙ sym (take_nil (suc m + n))
take-take (suc m) n (b ∷ bytes) =
    let e : suc m + n ≡ suc (m + n) = omega arith in rw e (ap (◌∷◌ b) (take-take m n bytes))

-- From memory of ten bytes or more, the proxies read a client whose fields are in the ranges of
-- their types, and whose own ten bytes are those that were read.
pub read_client-IsSocketClientData :
    (bytes : List ℕ)
    → AllBytes bytes
    → 10 ≤ length bytes
    → IsSocketClientData (read_client bytes) × (client_bytes (read_client bytes) ≡ take 10 bytes)
unfolding read_client client_bytes
read_client-IsSocketClientData bytes h long =
    let four = drop-AllBytes 4 bytes h in
    let six = drop-AllBytes 6 bytes h in
    let (low, high) = signed32-bounds (read32 (drop 6 bytes)) (read32-lt (drop 6 bytes) six) in
    (
      record {
        ip = read32-lt bytes h;
        port = read16-lt (drop 4 bytes) four;
        socket_low = low;
        socket_high = high;
      },
      rw
          (
            word32-signed32 (read32 (drop 6 bytes)) (read32-lt (drop 6 bytes) six),
            bytes32-read32 bytes h (omega arith),
            bytes16-read16 (drop 4 bytes) four (omega (arith, length-drop 4 bytes)),
            bytes32-read32 (drop 6 bytes) six (omega (arith, length-drop 6 bytes)),
          )
          (ap (λ (xs : List ℕ). take 4 bytes ++ (take 2 (drop 4 bytes) ++ take 4 xs))
              (sym (drop-drop 4 2 bytes))
            ∙ ap (◌++◌ (take 4 bytes)) (take-take 2 4 (drop 4 bytes))
            ∙ take-take 4 6 bytes),
    )
