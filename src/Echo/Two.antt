-- ===== src/Echo/Two.antt =====
-- Two servers whose threads take their steps in any order: they share no state, and a fault of one
-- ends the process of both.
use serverlib.Prelude.{◌≡◌, inl, inr, List, [], ◌∷◌}
use serverlib.Prelude.Run.{Run, ok, Run-cases, ◌>>=◌}

pub data Side (I : Type 0) : Type 0 where
  at_first at_second : I → Side I

module _ {I : Type 0} where
  abbrev pub firsts : List (Side I) → List I
  firsts [] = []
  firsts (at_first i ∷ sides) = i ∷ firsts sides
  firsts (at_second i ∷ sides) = firsts sides

  abbrev pub seconds : List (Side I) → List I
  seconds [] = []
  seconds (at_first i ∷ sides) = seconds sides
  seconds (at_second i ∷ sides) = i ∷ seconds sides

module _ {S : Type 0} {I : Type 0} (step : S → I → Run S) where
  unfoldable pub alone : S → List I → Run S
  alone s [] = ok s
  alone s (i ∷ inputs) = step s i >>= λ t. alone t inputs

  unfoldable pub both : S × S → List (Side I) → Run (S × S)
  both p [] = ok p
  both p (at_first i ∷ sides) = step p.0 i >>= λ s. both (s, p.1) sides
  both p (at_second i ∷ sides) = step p.1 i >>= λ t. both (p.0, t) sides

  -- However the steps of the two are interleaved, each server ends as it does alone.
  pub both-alone :
      (p q : S × S) (sides : List (Side I))
      → alone p.0 (firsts sides) ≡ ok q.0
      → alone p.1 (seconds sides) ≡ ok q.1
      → both p sides ≡ ok q
  unfolding alone both
  both-alone p q [] h h' = cc
  both-alone p q (at_first i ∷ sides) h h' = elim (Run-cases (step p.0 i)) [
    | inl (s, e) ↦ rw e (both-alone (s, p.1) q sides (rw e at h) h')
    | inr (why, e) ↦ absurd (cc (rw e at h))
  ]
  both-alone p q (at_second i ∷ sides) h h' = elim (Run-cases (step p.1 i)) [
    | inl (t, e) ↦ rw e (both-alone (p.0, t) q sides h (rw e at h'))
    | inr (why, e) ↦ absurd (cc (rw e at h'))
  ]
