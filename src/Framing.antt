-- ===== src/Framing.antt =====
-- The packet loop of commonserver.cpp (`__AddContent`), which test/tcpproxy.cpp repeats: a packet
-- is four bytes with the length of its body, and the body.
pub mod Rounds
pub mod Cut
pub mod Stream
pub mod Ends
use serverlib.Prelude.{
  ℕ, zero, suc, ◌≡◌, ◌<◌, ◌≤◌, Bool, List, [], ltb, leb, if◌then◌else◌, length, drop, ◌∷◌, ◌++◌,
}
use serverlib.Prelude.Int.{ℤ, pos, negsuc, leb_ℤ}
use serverlib.Prelude.Words.{read32, signed32, to_int, add_int}
use serverlib.Prelude.Run.{Run, ok, fault, out_of_range, out_of_fuel, ◌>>=◌}

-- `int nPktLen = *(int*)&strData[0]`
unfoldable pub pkt_len : List ℕ → ℤ
pkt_len buf = signed32 (read32 buf)

-- `strData.substr(n)`: a negative `n` becomes a position behind every string.
unfoldable pub substr : List ℕ → ℤ → Run (List ℕ)
substr buf (pos n) = if leb n (length buf) then ok (drop n buf) else fault out_of_range
substr buf (negsuc n) = fault out_of_range

-- `handle s pData nDataLen` is the code that the loop calls for a packet, and `s` what it changes.
module _ {ℓ} {S : Type ℓ} (handle : S → List ℕ → ℤ → Run S) where
  -- `while (strData.size() > 4)`, with fuel for the rounds: a round takes five bytes or more.
  unfoldable pub drain : ℕ → S → List ℕ → Run (S × List ℕ)
  drain zero s buf = fault out_of_fuel
  drain (suc fuel) s buf =
      let n = pkt_len buf in
      let total = add_int n (pos 4) in
      let next = handle s buf total >>= λ s'. substr buf total >>= λ buf'. drain fuel s' buf' in
      if ltb 4 (length buf)
      then (if leb_ℤ n (pos 0)
          then ok (s, [])
          else if leb_ℤ total (to_int (length buf))
          then next
          else ok (s, buf))
      else ok (s, buf)

  -- `strData.insert(strData.end(), pData, pData + nDataLen)` and the loop. Fuel of one round for
  -- each byte, and one for the last test, is enough.
  unfoldable pub feed : S → List ℕ → List ℕ → Run (S × List ℕ)
  feed s buf chunk = let all = buf ++ chunk in drain (suc (length all)) s all

  -- One call for each chunk that arrives.
  unfoldable pub feed_all : S → List ℕ → List (List ℕ) → Run (S × List ℕ)
  feed_all s buf [] = ok (s, buf)
  feed_all s buf (chunk ∷ chunks) = feed s buf chunk >>= λ r. feed_all r.0 r.1 chunks
