-- ===== src/Framing/Ends.antt =====
-- The packet loop under an invariant of the code that it calls, and the faults of that code.
use serverlib.Prelude.{
  ℕ, zero, suc, ◌+◌, ◌-◌, ◌<◌, ◌≤◌, ◌^◌, ◌≡◌, refl, List, [], ◌⊎◌, inl, inr, true, false,
  Bool-cases, arith, length, drop, ap, sym, ◌∙◌, length-drop, ltb, dec_lt,
}
use serverlib.Prelude.Int.{ℤ, pos, negsuc, leb_ℤ}
use serverlib.Prelude.Words.{to_int, add_int}
use serverlib.Prelude.Run.{Run, Fault, fault, out_of_range, Returns}
use serverlib.Framing.{pkt_len, substr, drain}
use serverlib.Framing.Rounds.{pkt_len-cases, add_four, add_four_wraps, substr_lem}

-- What is added to a length that is positive is a number above 4, or wraps.
total-cases :
    (buf : List ℕ)
    → leb_ℤ (pkt_len buf) (pos 0) ≡ false
    → ((k : ℕ) × (add_int (pkt_len buf) (pos 4) ≡ pos k) × (4 < k))
      ⊎ ((k : ℕ) × (add_int (pkt_len buf) (pos 4) ≡ negsuc k))
total-cases buf h = elim (pkt_len-cases buf) [
  | inl e ↦ cc
  | inr (n, e, p, q) ↦ elim (dec_lt (n + 4) (2 ^ 31)) [
    | yes fits ↦ inl (n + 4, rw e (add_four n fits), omega arith)
    | no wraps ↦ inr (2 ^ 32 - 5 - n, rw e (add_four_wraps n q (omega arith)))
  ]
]

fits_of_leb : (k m : ℕ) → leb_ℤ (pos k) (to_int m) ≡ true → 4 < k → k ≤ m
fits_of_leb k m h p = ground arith

module _ {ℓ} {S : Type ℓ} (handle : S → List ℕ → ℤ → Run S) (Good : S → Type 0)
    (Allowed : Fault → Type 0) (throws : Allowed out_of_range) where
  abbrev pub EndsWell {κ} : {A : Type κ} → (A → Type 0) → Run A → Type κ
  EndsWell P r = Returns r P ⊎ ((f : Fault) × (r ≡ fault f) × Allowed f)

  pub drain-EndsWell :
      ((s : S) (buf : List ℕ) (n : ℕ)
        → Good s
        → n ≤ length buf
        → EndsWell Good (handle s buf (pos n)))
      → ((s : S) (buf : List ℕ) (n : ℕ) → Good s → EndsWell Good (handle s buf (negsuc n)))
      → (fuel : ℕ) (s : S) (buf : List ℕ) → length buf < fuel
      → Good s
      → EndsWell (λ r. Good r.0) (drain handle fuel s buf)
  unfolding drain substr
  drain-EndsWell takes refuses zero s buf h g = absurd (omega arith)
  drain-EndsWell takes refuses (suc fuel) s buf h g = elim (Bool-cases (ltb 4 (length buf))) [
    | inr short ↦ rw short (inl ((s, buf), refl, g))
    | inl long ↦ elim (Bool-cases (leb_ℤ (pkt_len buf) (pos 0))) [
      | inl abnormal ↦ rw (long, abnormal) (inl ((s, []), refl, g))
      | inr normal ↦
          elim (Bool-cases (leb_ℤ (add_int (pkt_len buf) (pos 4)) (to_int (length buf)))) [
            | inr partial ↦ rw (long, normal, partial) (inl ((s, buf), refl, g))
            | inl whole ↦
                rw (long, normal, whole)
                  (elim (total-cases buf normal) [
                    | inl (k, e, big) ↦
                        let fits =
                          fits_of_leb k (length buf)
                            (ap (λ t. leb_ℤ t (to_int (length buf))) (sym e) ∙ whole) big in
                        rw (e, substr_lem buf k fits)
                          (elim (takes s buf k g fits) [
                            | inl (t, run, good) ↦
                                let left = length-drop k buf in
                                rw run (
                                  drain-EndsWell takes refuses fuel t (drop k buf)
                                    (omega (arith, left)) good)
                            | inr (f, run, a) ↦ rw run (inr (f, refl, a))
                          ])
                    | inr (k, e) ↦ rw e (elim (refuses s buf k g) [
                      | inl (t, run, good) ↦ rw run (inr (out_of_range, refl, throws))
                      | inr (f, run, a) ↦ rw run (inr (f, refl, a))
                    ])
                  ])
          ]
    ]
  ]
