-- ===== src/Prelude/Words.antt =====
-- Machine words: an `int` is the integer that a 32-bit pattern stands for, in two's complement, and
-- lies in memory as four bytes, the lowest first.
use serverlib.Prelude.{
  ℕ, ◌+◌, ◌-◌, ◌*◌, ◌/◌, ◌%◌, ◌^◌, ◌<◌, ◌≤◌, ◌≡◌, refl, List, [], ◌∷◌, ◌++◌, arith, ltb,
  if◌then◌else◌, get_or, length,
}
use serverlib.Prelude.Int.{ℤ, pos, negsuc, ◌≤ℤ◌}

abbrev pub int_max : ℕ
int_max = 2 ^ 31 - 1

-- The integer that a bit pattern stands for.
abbrev pub signed32 : ℕ → ℤ
signed32 w = if ltb w (2 ^ 31) then pos w else negsuc (2 ^ 32 - w - 1)

-- The bit pattern of an integer.
abbrev pub word32 : ℤ → ℕ
word32 (pos n) = n % 2 ^ 32
word32 (negsuc n) = 2 ^ 32 - 1 - n % 2 ^ 32

-- `(int)n` of a `size_t`.
abbrev pub to_int : ℕ → ℤ
to_int n = signed32 (n % 2 ^ 32)

-- `a + b` and `a - b` of two `int`s, which wrap.
unfoldable pub add_int : ℤ → ℤ → ℤ
add_int a b = signed32 ((word32 a + word32 b) % 2 ^ 32)

unfoldable pub sub_int : ℤ → ℤ → ℤ
sub_int a b = signed32 ((word32 a + 2 ^ 32 - word32 b) % 2 ^ 32)

-- The four bytes of a word.
unfoldable pub bytes32 : ℕ → List ℕ
bytes32 w = (w % 256) ∷ (w / 256 % 256) ∷ (w / 256 ^ 2 % 256) ∷ (w / 256 ^ 3 % 256) ∷ []

-- The word that lies in the first four bytes.
unfoldable pub read32 : List ℕ → ℕ
read32 b = get_or b 0 0 + 256 * get_or b 1 0 + 256 ^ 2 * get_or b 2 0 + 256 ^ 3 * get_or b 3 0

pub read32-bytes32 : (w : ℕ) (rest : List ℕ) → w < 2 ^ 32 → read32 (bytes32 w ++ rest) ≡ w
unfolding read32 bytes32
read32-bytes32 w rest h = omega arith

pub length-bytes32 : (w : ℕ) → length (bytes32 w) ≡ 4
unfolding bytes32
length-bytes32 w = refl

pub signed32-word32 : (a : ℤ) → negsuc int_max ≤ℤ a → a ≤ℤ pos int_max → signed32 (word32 a) ≡ a
signed32-word32 a lo hi = ground arith

pub word32-signed32 : (w : ℕ) → w < 2 ^ 32 → word32 (signed32 w) ≡ w
word32-signed32 w h = ground arith

-- The difference of two counters' low words is their distance, also across the wrap.
pub sub_int-to_int :
    (a b : ℕ) → a ≤ b → b < a + 2 ^ 31 → sub_int (to_int b) (to_int a) ≡ pos (b - a)
unfolding sub_int
sub_int-to_int a b h k =
    rw
      (
        word32-signed32 (b % 2 ^ 32) (omega arith),
        word32-signed32 (a % 2 ^ 32) (omega arith),
        wrapped,
      )
      (ground arith)
  where
    wrapped : (b % 2 ^ 32 + 2 ^ 32 - a % 2 ^ 32) % 2 ^ 32 ≡ b - a
    wrapped = omega arith
