-- ===== src/Arguments/Loop.antt =====
-- The loop over `argv[1]` to `argv[argc - 1]` in the programs of test/. It is over what they do with a
-- flag and the argument behind it, with a flag behind which nothing stands but the null pointer at the
-- end, and with any other argument.
use serverlib.Prelude.{ℕ, ◌≡◌, refl, true, false, List, [], ◌∷◌, if◌then◌else◌}
use serverlib.Prelude.Run.{Run, ok}
use serverlib.Arguments.{is_flag, flag_of}

module _ {A : Type 0} (set_flag : ℕ → List ℕ → A → A) (set_last : ℕ → A → Run A)
    (set_other : List ℕ → A → A) where
  unfoldable pub read_arguments : List (List ℕ) → A → Run A
  read_arguments [] o = ok o
  read_arguments (arg ∷ []) o =
      if is_flag arg then set_last (flag_of arg) o else ok (set_other arg o)
  read_arguments (arg ∷ (next ∷ args)) o = elim (is_flag arg) [
    | true ↦ read_arguments args (set_flag (flag_of arg) next o)
    | false ↦ read_arguments (next ∷ args) (set_other arg o)
  ]

  -- What is no flag is one argument, wherever it stands.
  pub read_arguments-other :
      (arg : List ℕ) (args : List (List ℕ)) (o : A)
      → is_flag arg ≡ false
      → read_arguments (arg ∷ args) o ≡ read_arguments args (set_other arg o)
  unfolding read_arguments
  read_arguments-other arg [] o h = rw h refl
  read_arguments-other arg (next ∷ args) o h = rw (h, read_arguments) refl
