-- ===== src/Framing/Stream.antt =====
-- The packet loop over a stream of packets that is cut into chunks.

use serverlib.Prelude.{
  ℕ, zero, suc, ◌+◌, ◌<◌, ◌≤◌, ◌^◌, ◌≡◌, refl, List, [], ◌∷◌, ◌++◌, arith, length, take,
  length-append, dec_le, append_assoc, sym, ◌∙◌, ap,
}
use serverlib.Prelude.Int.{ℤ, pos}
use serverlib.Prelude.Words.{bytes32}
use serverlib.Prelude.Run.{Run, ok}
use serverlib.Framing.{pkt_len, drain, feed, feed_all}
use serverlib.Framing.Rounds.{
  packet, length-packet, take-append, pkt_len-bytes32, drain_short, drain-packet,
}
use serverlib.Framing.Cut.{
  stream, join, split_append, Pending, IsSized, IsBounded, drain_incomplete,
}

-- The state after these packets, where `put` is what one does to it.
abbrev pub puts_by {ℓ} : {S : Type ℓ} → (S → List ℕ → S) → S → List (List ℕ) → S
puts_by put s [] = s
puts_by put s (body ∷ bodies) = puts_by put (put s (packet body)) bodies

-- `put` is what one packet does to a state for which `P` holds.
module _ {ℓ κ} {S : Type ℓ} (handle : S → List ℕ → ℤ → Run S) (put : S → List ℕ → S)
    (P : S → Type κ) (keeps : (s : S) (bytes : List ℕ) → P s → P (put s bytes))
    (reads : (s : S) (buf : List ℕ) (n : ℕ)
      → P s
      → pkt_len buf ≡ pos n
      → n + 4 ≤ length buf
      → handle s buf (pos (n + 4)) ≡ ok (put s (take (n + 4) buf))) where
  abbrev puts : S → List (List ℕ) → S
  puts = puts_by put

  -- What the loop does to a buffer that begins a stream of packets.
  record Drained (s : S) (bodies : List (List ℕ)) (rest : List ℕ) (r : Run (S × List ℕ))
      : Type ℓ where
    done : List (List ℕ)
    after : List (List ℕ)
    left : List ℕ
    split : bodies ≡ done ++ after
    ran : r ≡ ok (puts s done, left)
    continues : left ++ rest ≡ stream after
    pending : Pending left after

  drain_one :
      (fuel : ℕ) (s : S) (body buf rest : List ℕ)
      → P s
      → buf ≡ packet body ++ rest
      → 0 < length body
      → length buf < 2 ^ 31
      → drain handle (suc fuel) s buf ≡ drain handle fuel (put s (packet body)) rest
  drain_one fuel s body buf rest ps e p small = rw e (
      drain-packet handle fuel s body rest p (rw e at small)
      ∙ rw (
        reads s (packet body ++ rest) (length body) ps
            (pkt_len-bytes32 (length body) _ (body ++ rest)
              (append_assoc (bytes32 (length body)) body rest)
              (omega (arith, ap length e, length-append (packet body) rest, length-packet body)))
            (omega (arith, length-append (packet body) rest, length-packet body)),
        take-append (length body + 4) (packet body) rest (length-packet body),
      ))

  drain-stream :
      (most fuel : ℕ) (s : S) (bodies : List (List ℕ)) (buf rest : List ℕ)
      → P s
      → IsSized most bodies
      → most + 4 < 2 ^ 31
      → buf ++ rest ≡ stream bodies
      → length buf < fuel
      → length buf < 2 ^ 31
      → Drained s bodies rest (drain handle fuel s buf)
  drain-stream most zero s bodies buf rest ps sized fits e h small = absurd (omega arith)
  drain-stream most (suc fuel) s [] [] rest ps sized fits e h small = record {
    done = [];
    after = [];
    left = [];
    split = refl;
    ran = drain_short handle fuel s [] (omega arith);
    continues = e;
    pending = refl;
  }
  drain-stream most (suc fuel) s [] (x ∷ buf) rest ps sized fits e h small = absurd (cc)
  drain-stream most (suc fuel) s (body ∷ bodies) buf rest ps sized fits e h small =
      elim (dec_le (length body + 4) (length buf)) [
        | no short ↦ record {
          done = [];
          after = body ∷ bodies;
          left = buf;
          split = refl;
          ran =
              drain_incomplete handle fuel s body buf rest (stream bodies) e sized.0 (omega arith)
                (omega arith);
          continues = e;
          pending = omega arith;
        }
        | yes whole ↦
            let (t, p, q) =
              split_append buf rest (packet body) (stream bodies) e
                (omega (arith, length-packet body)) in
            let sizes : length buf ≡ length body + 4 + length t =
              ap length p
              ∙ length-append (packet body) t
              ∙ ap (λ (k : ℕ). k + length t) (length-packet body) in
            let d : Drained (put s (packet body)) bodies rest
                (drain handle fuel (put s (packet body)) t) =
              drain-stream most fuel (put s (packet body)) bodies t rest (keeps s (packet body) ps)
                sized.2 fits q (omega arith) (omega arith) in
            record {
              done = body ∷ d.done;
              after = d.after;
              left = d.left;
              split = ap (◌∷◌ body) d.split;
              ran = drain_one fuel s body buf t ps p sized.0 small ∙ d.ran;
              continues = d.continues;
              pending = d.pending;
            }
      ]

  Pending-le :
      (most : ℕ) (left : List ℕ) (bodies : List (List ℕ))
      → Pending left bodies
      → IsSized most bodies
      → length left ≤ most + 3
  Pending-le most left [] p sized = omega (arith, ap length p)
  Pending-le most left (body ∷ bodies) p sized = omega arith

  IsSized-append :
      (most : ℕ) (done after : List (List ℕ)) → IsSized most (done ++ after) → IsSized most after
  IsSized-append most [] after sized = sized
  IsSized-append most (body ∷ done) after sized = IsSized-append most done after sized.2

  puts-P : (s : S) (bodies : List (List ℕ)) → P s → P (puts s bodies)
  puts-P s [] ps = ps
  puts-P s (body ∷ bodies) ps = puts-P (put s (packet body)) bodies (keeps s (packet body) ps)

  puts-append :
      (s : S) (done after : List (List ℕ)) → puts s (done ++ after) ≡ puts (puts s done) after
  puts-append s [] after = refl
  puts-append s (body ∷ done) after = puts-append (put s (packet body)) done after

  feed_all_from :
      (most chunk : ℕ) (s : S) (buf : List ℕ) (bodies chunks : List (List ℕ))
      → P s
      → IsSized most bodies
      → IsBounded chunk chunks
      → most + 4 + chunk < 2 ^ 31
      → buf ++ join chunks ≡ stream bodies
      → Pending buf bodies
      → feed_all handle s buf chunks ≡ ok (puts s bodies, [])
  unfolding feed_all feed
  feed_all_from most chunk s buf [] [] ps sized bounded fits e p = rw p
  feed_all_from most chunk s buf (body ∷ bodies) [] ps sized bounded fits e p = absurd (
      omega (
        arith,
        ap length e,
        length-append buf [],
        length-append (packet body) (stream bodies),
        length-packet body,
      ))
  feed_all_from most chunk s buf bodies (c ∷ chunks) ps sized bounded fits e p =
      let d : Drained s bodies (join chunks) (drain handle (suc (length (buf ++ c))) s (buf ++ c)) =
        drain-stream most (suc (length (buf ++ c))) s bodies (buf ++ c) (join chunks) ps sized
          (omega arith) (append_assoc buf c (join chunks) ∙ e) (omega arith) small in
      rw d.ran (
        feed_all_from most chunk (puts s d.done) d.left d.after chunks (puts-P s d.done ps)
          (IsSized-append most d.done d.after (rw d.split at sized)) bounded.1 fits d.continues
          d.pending
        ∙ ap (λ (t : S). ok (t, []))
            (sym (puts-append s d.done d.after) ∙ ap (puts s) (sym d.split)))
    where
      small : length (buf ++ c) < 2 ^ 31
      small = omega (arith, length-append buf c, Pending-le most buf bodies p sized)

  Pending-nil : (bodies : List (List ℕ)) → Pending [] bodies
  Pending-nil [] = refl
  Pending-nil (body ∷ bodies) = omega arith

  -- Whatever the chunks, `put` is applied once to each packet, in order, and nothing is left over.
  pub feed_all-stream :
      (most chunk : ℕ) (s : S) (bodies chunks : List (List ℕ))
      → P s
      → IsSized most bodies
      → IsBounded chunk chunks
      → most + 4 + chunk < 2 ^ 31
      → join chunks ≡ stream bodies
      → feed_all handle s [] chunks ≡ ok (puts s bodies, [])
  feed_all-stream most chunk s bodies chunks ps sized bounded fits e =
      feed_all_from most chunk s [] bodies chunks ps sized bounded fits e (Pending-nil bodies)
