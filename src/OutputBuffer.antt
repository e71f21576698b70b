-- ===== src/OutputBuffer.antt =====
-- outputbuffer.h: bytes that wait to be written, and how many of them are written already.
pub mod Pending
use serverlib.Prelude.{ℕ, ◌-◌, ◌≤◌, ◌≡◌, Bool, List, ltb, leb, if◌then◌else◌, length, take, drop}
use serverlib.Prelude.Int.{ℤ, pos, negsuc, sub_ℕ}
use serverlib.Prelude.Run.{Run, ok, fault, bad_alloc}

pub record OutputBuffer : Type 0 where
  pub data_bytes : List ℕ
  pub len : ℕ
  pub position : ℕ

-- The constructor, over memory that holds at least `nBytes` bytes; `new char[n]` throws if `n` is
-- negative.
unfoldable pub new_output_buffer : List ℕ → ℤ → Run OutputBuffer
new_output_buffer bytes (pos n) = ok (record { data_bytes = take n bytes; len = n; position = 0 })
new_output_buffer bytes (negsuc n) = fault bad_alloc

-- `GetDataPos()`: what the pointer points at.
unfoldable pub get_data_pos : OutputBuffer → List ℕ
get_data_pos b = drop b.position b.data_bytes

-- `GetBytes()`
unfoldable pub get_bytes : OutputBuffer → ℤ
get_bytes b = sub_ℕ b.len b.position

-- The array has `m_nLen` bytes, and the position lies within it.
pub record IsOutputBuffer (b : OutputBuffer) : Type 0 where
  pub sized : length b.data_bytes ≡ b.len
  pub within : b.position ≤ b.len
