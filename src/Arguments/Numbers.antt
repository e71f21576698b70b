-- ===== src/Arguments/Numbers.antt =====
-- `atoi` reads what `%d` prints.
use serverlib.Prelude.{
  ℕ, zero, suc, ◌+◌, ◌-◌, ◌*◌, ◌/◌, ◌%◌, ◌<◌, ◌≤◌, ◌≡◌, refl, ap, ◌∙◌, true, false, Bool-cases, inl,
  inr, List, [], ◌∷◌, ◌++◌, leb, ◌==◌, arith,
}
use serverlib.Prelude.Int.{pos}
use serverlib.Bench.{digits}
use serverlib.Arguments.{is_digit, is_space, digits_from, signed, atoi}

abbrev pub AllDigits : List ℕ → Type 0
AllDigits [] = Unit {0}
AllDigits (c ∷ s) = (is_digit c ≡ true) × AllDigits s

digits_from-append :
    (n c : ℕ) (s : List ℕ)
    → AllDigits s
    → is_digit c ≡ true
    → digits_from n (s ++ c ∷ []) ≡ digits_from n s * 10 + (c - b'0')
unfolding digits_from
digits_from-append n c [] h d = rw d refl
digits_from-append n c (x ∷ s) h d = rw h.0 (digits_from-append (n * 10 + (x - b'0')) c s h.1 d)

AllDigits-append : (s : List ℕ) (c : ℕ) → AllDigits s → is_digit c ≡ true → AllDigits (s ++ c ∷ [])
AllDigits-append [] c h d = (d, tt)
AllDigits-append (x ∷ s) c h d = (h.0, AllDigits-append s c h.1 d)

digit : (n : ℕ) → n ≤ 9 → is_digit (48 + n) ≡ true
digit n h = ground arith

-- Ten to this power.
abbrev pub tens : ℕ → ℕ
tens zero = 1
tens (suc fuel) = 10 * tens fuel

pub digits-AllDigits : (fuel n : ℕ) → AllDigits (digits fuel n)
unfolding digits
digits-AllDigits zero n = tt
digits-AllDigits (suc fuel) n = elim (Bool-cases (leb n 9)) [
  | inl one ↦ rw one (digit n (ground arith), tt)
  | inr more ↦ rw more (
      AllDigits-append (digits fuel (n / 10)) (48 + n % 10) (digits-AllDigits fuel (n / 10))
        (digit (n % 10) (omega arith)))
]

digits_from-digits : (fuel n : ℕ) → n < tens fuel → digits_from 0 (digits fuel n) ≡ n
unfolding digits digits_from
digits_from-digits zero n h = omega arith
digits_from-digits (suc fuel) n h = elim (Bool-cases (leb n 9)) [
  | inl one ↦ rw (one, digit n (ground arith)) (omega arith)
  | inr more ↦ rw more (
      digits_from-append 0 (48 + n % 10) (digits fuel (n / 10)) (digits-AllDigits fuel (n / 10))
        (digit (n % 10) (omega arith))
      ∙ ap (λ (k : ℕ). k * 10 + (48 + n % 10 - 48)) (digits_from-digits fuel (n / 10) (omega arith))
      ∙ omega arith)
]

-- A text of digits has no spaces and no sign at its front.
atoi_digits : (s : List ℕ) → AllDigits s → atoi s ≡ pos (digits_from 0 s)
unfolding atoi signed digits_from
atoi_digits [] h = refl
atoi_digits (c ∷ s) h =
    let no_space : is_space c ≡ false = ground (arith, h.0) in
    let no_minus : (c == b'-') ≡ false = ground (arith, h.0) in
    let no_plus : (c == b'+') ≡ false = ground (arith, h.0) in rw (no_space, no_minus, no_plus) refl

pub atoi-digits : (fuel n : ℕ) → n < tens fuel → atoi (digits fuel n) ≡ pos n
atoi-digits fuel n h =
    atoi_digits (digits fuel n) (digits-AllDigits fuel n) ∙ ap pos (digits_from-digits fuel n h)
