-- ===== src/OutputBuffer/Pending.antt =====
-- The bytes that buffers still have to write.
use serverlib.Prelude.{
  ℕ, zero, suc, ◌+◌, ◌≤◌, ◌≡◌, refl, sym, ap, ◌∙◌, List, [], ◌∷◌, ◌++◌, length, take, drop,
  length-drop, length-take, append_assoc, arith,
}
use serverlib.Prelude.Int.{pos}
use serverlib.Prelude.Run.{ok}
use serverlib.OutputBuffer.{
  OutputBuffer, IsOutputBuffer, new_output_buffer, get_data_pos, get_bytes,
}

abbrev pub pending : List OutputBuffer → List ℕ
pending [] = []
pending (b ∷ queue) = drop b.position b.data_bytes ++ pending queue

abbrev pub AllBuffers : List OutputBuffer → Type 0
AllBuffers [] = Unit {0}
AllBuffers (b ∷ queue) = IsOutputBuffer b × AllBuffers queue

pub pending-append : (p q : List OutputBuffer) → pending (p ++ q) ≡ pending p ++ pending q
pending-append [] q = refl
pending-append (b ∷ p) q =
    ap (◌++◌ (drop b.position b.data_bytes)) (pending-append p q)
    ∙ sym (append_assoc (drop b.position b.data_bytes) (pending p) (pending q))

pub AllBuffers-append :
    (p q : List OutputBuffer) → AllBuffers p → AllBuffers q → AllBuffers (p ++ q)
AllBuffers-append [] q h k = k
AllBuffers-append (b ∷ p) q h k = (h.0, AllBuffers-append p q h.1 k)

drop_nil {ℓ} : {A : Type ℓ} (n : ℕ) → drop {A = A} n [] ≡ []
drop_nil zero = refl
drop_nil (suc n) = refl

pub drop-drop {ℓ} : {A : Type ℓ} (m n : ℕ) (xs : List A) → drop n (drop m xs) ≡ drop (m + n) xs
drop-drop zero n xs = ground arith
drop-drop (suc m) n [] = drop_nil n ∙ sym (drop_nil (suc m + n))
drop-drop (suc m) n (x ∷ xs) =
    let e : suc m + n ≡ suc (m + n) = omega arith in rw e (drop-drop m n xs)

pub drop_all {ℓ} : {A : Type ℓ} (n : ℕ) (xs : List A) → length xs ≤ n → drop n xs ≡ []
drop_all zero [] h = refl
drop_all zero (x ∷ xs) h = absurd (omega arith)
drop_all (suc n) [] h = refl
drop_all (suc n) (x ∷ xs) h = drop_all n xs (omega arith)

-- A new buffer holds the bytes that it is given, all still to be written.
pub new_output_buffer_lem :
    (bytes : List ℕ) (n : ℕ) (b : OutputBuffer)
    → n ≤ length bytes
    → new_output_buffer bytes (pos n) ≡ ok b
    → IsOutputBuffer b × (drop b.position b.data_bytes ≡ take n bytes)
unfolding new_output_buffer
new_output_buffer_lem bytes n b h e = ground (arith, length-take n bytes)

-- `GetDataPos()` and `GetBytes()` of a sound buffer agree: the pointer has as many bytes before it
-- as the count says.
pub get_bytes-length :
    (b : OutputBuffer) → IsOutputBuffer b → get_bytes b ≡ pos (length (get_data_pos b))
unfolding get_bytes get_data_pos
get_bytes-length b v = ground (arith, length-drop b.position b.data_bytes)
