-- ===== src/Arguments.antt =====
-- What the programs of test/ do to the text of an argument: `atoi`, and an address `ip:port`. A text
-- is its bytes, without the zero byte at the end.
pub mod Numbers
pub mod Addresses
pub mod Loop
use serverlib.Prelude.{
  true, false, ℕ, suc, zero, ◌+◌, ◌-◌, ◌*◌, ◌%◌, ◌^◌, Bool, ◌&&◌, ◌||◌, List, [], ◌∷◌, Option, none,
  some, leb, ◌==◌, if◌then◌else◌,
}
use serverlib.Prelude.Int.{ℤ, pos, negsuc}

-- `argv[i][0] == '-'`, and `argv[i][1]`; the byte behind a text is zero.
abbrev pub is_flag : List ℕ → Bool
is_flag [] = false
is_flag (c ∷ s) = c == b'-'

abbrev pub flag_of : List ℕ → ℕ
flag_of [] = 0
flag_of (c ∷ []) = 0
flag_of (c ∷ (f ∷ s)) = f

abbrev pub is_digit : ℕ → Bool
is_digit c = leb b'0' c && leb c b'9'

-- A space, or a tab, a line feed, and the three characters behind them.
abbrev pub is_space : ℕ → Bool
is_space c = c == b' ' || (leb 9 c && leb c 13)

-- The digits at the front, behind those that make `n`.
unfoldable pub digits_from : ℕ → List ℕ → ℕ
digits_from n [] = n
digits_from n (c ∷ s) =
    let more = digits_from (n * 10 + (c - b'0')) s in if is_digit c then more else n

abbrev pub negative : ℕ → ℤ
negative zero = pos 0
negative (suc n) = negsuc n

-- What comes behind the spaces.
unfoldable pub signed : List ℕ → ℤ
signed [] = pos 0
signed (c ∷ s) =
    if c == b'-'
    then negative (digits_from 0 s)
    else if c == b'+'
    then pos (digits_from 0 s)
    else pos (digits_from 0 (c ∷ s))

-- `atoi`. A number that is no `int` is undefined; here it is the number.
unfoldable pub atoi : List ℕ → ℤ
atoi [] = pos 0
atoi (c ∷ s) = let rest = atoi s in if is_space c then rest else signed (c ∷ s)

-- `url.substr(0, url.find(':'))`: the whole of it if there is no colon.
unfoldable pub address : List ℕ → List ℕ
address [] = []
address (c ∷ s) = let rest = address s in if c == b':' then [] else c ∷ rest

-- What is behind the first colon.
unfoldable pub behind_colon : List ℕ → Option (List ℕ)
behind_colon [] = none
behind_colon (c ∷ s) = let rest = behind_colon s in if c == b':' then some s else rest

-- `atoi(url.c_str() + pos + 1)`, where `pos` is -1 if there is no colon.
unfoldable pub port_number : List ℕ → ℤ
port_number url = elim (behind_colon url) [ none ↦ atoi url | some rest ↦ atoi rest ]

-- An `int` as an `unsigned short`.
abbrev pub to_u16 : ℤ → ℕ
to_u16 (pos n) = n % 2 ^ 16
to_u16 (negsuc n) = 2 ^ 16 - 1 - n % 2 ^ 16
