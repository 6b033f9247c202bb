-- ===== src/Anvil/Inflate.antt =====
-- libs/anvil/anvil.c: the loop over inflate, and the numbers in the header of a file.
use chowder.Prelude.{
  ℕ, zero, suc, ◌+◌, ◌-◌, ◌^◌, ◌≤◌, ◌<◌, ◌≡◌, refl, sym, ap, ◌∙◌, true, List, ◌++◌, leb, ◌==◌,
  length, take, drop, splice, replicate, ok, arith, length-append, length-drop, length-splice,
  take-splice, take_prefix, take-append-drop, length-replicate, length-take_le,
}
use mathlib.Core.List.{append_assoc}
use chowder.Prelude.Bytes.{be_bytes}
use chowder.Anvil.{Libc}
use chowder.Anvil.ReadChunk.{z_ok, z_stream_end, Zlib, read_shifted, grown, inflate_loop}

pub read_shifted-3 :
    (n : ℕ) (rest : List ℕ) → n < 2 ^ 24 → read_shifted 3 0 (be_bytes 3 n ++ rest) ≡ ok (n, rest)
unfolding read_shifted be_bytes
read_shifted-3 n rest h = ground (arith, h)

pub read_shifted-4 :
    (n : ℕ) (rest : List ℕ) → n < 2 ^ 31 → read_shifted 4 0 (be_bytes 4 n ++ rest) ≡ ok (n, rest)
unfolding read_shifted be_bytes
read_shifted-4 n rest h = ground (arith, h)

-- A call of `inflate` on a stream with `data` left: all that is left fits, or the room is used up.
pub data Delivery {Z : Type 0} (zlib : Zlib Z) (Left : Z → List ℕ → Type 0) (stream : Z)
    (left : List ℕ) (avail_out : ℕ) : Type 0 where
  ends :
      (stream' : Z)
      → length left ≤ avail_out
      → zlib.inflate stream avail_out ≡ (z_stream_end, left, stream')
      → Delivery zlib Left stream left avail_out
  fills :
      (stream' : Z)
      → avail_out ≤ length left
      → zlib.inflate stream avail_out ≡ (z_ok, take avail_out left, stream')
      → Left stream' (drop avail_out left)
      → Delivery zlib Left stream left avail_out

module _ {Z : Type 0} (zlib : Zlib Z) (libc : Libc) (Left : Z → List ℕ → Type 0)
    (delivers : (stream : Z) (left : List ℕ) (avail_out : ℕ)
      → 0 < avail_out
      → Left stream left
      → Delivery zlib Left stream left avail_out) where
  pub loop_ends :
      (f n avail : ℕ) (z z' : Z) (left chunk : List ℕ)
      → n + length left ≤ length chunk
      → zlib.inflate z avail ≡ (z_stream_end, left, z')
      → inflate_loop zlib libc (suc f) z chunk n avail n
        ≡ ok (z_stream_end, splice chunk n left, n + length left)
  unfolding inflate_loop
  loop_ends f n avail z z' left chunk h e =
      let fits : leb (n + length left) (length chunk) ≡ true = ground (arith, h) in
      rw (e, fits) refl

  pub loop_fills :
      (f n avail : ℕ) (z z' : Z) (out chunk : List ℕ)
      → n + avail ≡ length chunk
      → length out ≡ avail
      → zlib.inflate z avail ≡ (z_ok, out, z')
      → inflate_loop zlib libc (suc f) z chunk n avail n
        ≡ inflate_loop zlib libc f z'
            (grown libc.stale (splice chunk n out) (length chunk + 4096))
            (n + length out)
            4096
            (n + length out)
  unfolding inflate_loop
  loop_fills f n avail z z' out chunk h k e =
      let fits : leb (n + length out) (length chunk) ≡ true = ground (arith, h, k) in
      let full : (avail - length out == 0) ≡ true = ground (arith, k) in rw (e, fits, full) refl

  pub length-grown :
      (chunk : List ℕ) (len : ℕ) → length chunk ≤ len → length (grown libc.stale chunk len) ≡ len
  length-grown chunk len h = omega (
    arith,
    h,
    length-append chunk (replicate (len - length chunk) libc.stale),
    length-replicate (len - length chunk) libc.stale,
  )

  -- With a round for each byte and one more the loop ends with all that was left behind what there was.
  pub inflate_loop-Left :
      (f n avail : ℕ) (z : Z) (left done chunk : List ℕ)
      → 0 < avail
      → n + avail ≡ length chunk
      → take n chunk ≡ done
      → length left < f
      → Left z left
      → (buf : List ℕ) × (inflate_loop zlib libc f z chunk n avail n
          ≡ ok (z_stream_end, buf, n + length left))
        × (take (n + length left) buf ≡ done ++ left)
  inflate_loop-Left zero n avail z left done chunk room whole before enough h =
      absurd (omega (arith, enough))
  inflate_loop-Left (suc f) n avail z left done chunk room whole before enough h =
      elim (delivers z left avail room h) [
        | ends z' short e ↦ (
          splice chunk n left,
          loop_ends f n avail z z' left chunk (omega (arith, whole, short)) e,
          take-splice chunk n left (omega (arith, whole, short)) ∙ ap (λ t. t ++ left) before,
        )
        | fills z' long e h' ↦
            let out = take avail left in
            let rest = drop avail left in
            let out_len : length out ≡ avail = length-take_le avail left long in
            let rest_len : length rest ≡ length left - avail = length-drop avail left in
            let chunk' = splice chunk n out in
            let same_len : length chunk' ≡ length chunk =
              length-splice chunk n out (omega (arith, whole, out_len)) in
            let wide : length (grown libc.stale chunk' (length chunk + 4096))
                ≡ length chunk + 4096 =
              length-grown chunk' (length chunk + 4096) (omega (arith, same_len)) in
            let written : take (n + length out) (grown libc.stale chunk' (length chunk + 4096))
                ≡ done ++ out =
              take_prefix (n + length out) chunk' _ (omega (arith, whole, out_len, same_len))
              ∙ take-splice chunk n out (omega (arith, whole, out_len))
              ∙ ap (λ t. t ++ out) before in
            let (buf, run, text) =
              inflate_loop-Left f (n + length out) 4096 z' rest (done ++ out)
                (grown libc.stale chunk' (length chunk + 4096)) (omega arith)
                (omega (arith, wide, whole, out_len)) written
                (omega (arith, enough, rest_len, room, long)) h' in
            let total : n + length out + length rest ≡ n + length left =
              omega (arith, out_len, rest_len, long) in
            (
              buf,
              loop_fills f n avail z z' out chunk whole out_len e
                  ∙ run
                  ∙ ap (λ (k : ℕ). ok (z_stream_end, buf, k)) total,
              ap (λ (k : ℕ). take k buf) (sym total)
                  ∙ text
                  ∙ append_assoc done out rest
                  ∙ ap (λ t. done ++ t) (take-append-drop avail left),
            )
      ]
