-- ===== src/DbPack/Drain/Loop.antt =====
-- The whole of db_pack_unpack against `drain`, with its fuel.
use bk_solution_doorbell.Base.{
  ℕ, zero, suc, ◌+◌, ◌≤◌, ◌<◌, ◌≡◌, refl, ap, ◌∙◌, inl, inr, true, List, [], ◌∷◌, ◌++◌, some, ltb,
  length, arith, length-append, Bool-cases, ltb→lt,
}
use mathlib.Core.List.{append-nil}
use bk_solution_doorbell.DbPack.{Chan, head_size, done, unpack_loop, unpack, room}
use bk_solution_doorbell.DbPack.Drain.{drain, fits, IsIncomplete, drain-IsIncomplete, drain_keeps}
use bk_solution_doorbell.DbPack.Drain.Unpack.{
  Drains, fill_short, fill_head, fresh-Drains, packet-Drains,
}

module _ (crc8 : List ℕ → ℕ → ℕ) where
  fresh_loop :
      (fuel g capacity : ℕ) (p : List ℕ)
      → head_size ≤ capacity
      → length p < fuel
      → length p < g
      → fits crc8 capacity g p ≡ true
      → Drains (unpack_loop crc8 fuel capacity [] p) (drain crc8 g p)
  unfolding unpack_loop
  fresh_loop zero g capacity p c l k f = absurd (omega arith)
  fresh_loop (suc fuel) zero capacity p c l k f = absurd (omega arith)
  fresh_loop (suc fuel) (suc g) capacity [] c l k f =
      (0, rw (drain-IsIncomplete crc8 g [] (inl (omega arith))) refl)
  fresh_loop (suc fuel) (suc g) capacity (b ∷ bs) c l k f =
      fresh-Drains crc8 fuel g capacity b bs c f
        (λ q less fq. fresh_loop fuel g capacity q c (omega arith) (omega arith) fq)

  pub loop-Drains :
      (fuel g capacity : ℕ) (cache p : List ℕ)
      → head_size ≤ capacity
      → IsIncomplete cache
      → suc (length p) < fuel
      → length (cache ++ p) < g
      → fits crc8 capacity g (cache ++ p) ≡ true
      → Drains (unpack_loop crc8 fuel capacity cache p) (drain crc8 g (cache ++ p))
  unfolding unpack_loop
  loop-Drains zero g capacity cache p c i l k f = absurd (omega arith)
  loop-Drains (suc fuel) zero capacity cache p c i l k f = absurd (omega arith)
  loop-Drains (suc fuel) (suc g) capacity cache [] c i l k f =
      (0, rw (append-nil cache, drain-IsIncomplete crc8 g cache i) refl)
  loop-Drains (suc fuel) (suc g) capacity [] (b ∷ bs) c i l k f =
      fresh_loop (suc fuel) (suc g) capacity (b ∷ bs) c (omega arith) k f
  loop-Drains (suc fuel) (suc g) capacity (x ∷ xs) (b ∷ bs) c i l k f =
      let cache = x ∷ xs in
      let p = b ∷ bs in
      elim (Bool-cases (ltb (length (cache ++ p)) head_size)) [
        | inl short ↦
            let lt = ltb→lt (length (cache ++ p)) head_size short in
            (
              0,
              rw
                  (
                    unpack_loop,
                    fill_short head_size capacity cache p lt c,
                    drain-IsIncomplete crc8 g (cache ++ p) (inl lt),
                  )
                  refl,
            )
        | inr long ↦
            let (ys, q, e, whole, h, le, less) = fill_head capacity cache p i (ground arith) c in
            let size = length-append cache p in
            let (left, o) =
              packet-Drains crc8 fuel g capacity ys q h le (rw whole f) (λ r lr fr.
                fresh_loop fuel g capacity r c (omega arith) (omega (arith, size)) fr) in
            (
              left,
              rw (unpack_loop, e)
                  (o ∙ ap (λ w. done (drain crc8 (suc g) w).0 left (drain crc8 (suc g) w).1) whole),
            )
      ]

  -- A call with input ends, within its fuel and the cache, and is `drain` of the cache and the input: the
  -- packets that are whole are delivered, and what is cached waits for more. The cache has room for a
  -- header and for each packet, and what it holds before waits for more.
  pub unpack_drains :
      (chan : Chan) (b : ℕ) (bs : List ℕ)
      → head_size ≤ room chan
      → IsIncomplete chan.cache
      → fits crc8 (room chan) (suc (length (chan.cache ++ b ∷ bs))) (chan.cache ++ b ∷ bs) ≡ true
      → let r = drain crc8 (suc (length (chan.cache ++ b ∷ bs))) (chan.cache ++ b ∷ bs) in
        ((left : ℕ) × (unpack crc8 chan (b ∷ bs) ≡ some (done r.0 left r.1))) × IsIncomplete r.0
  unfolding unpack
  unpack_drains chan b bs c i f =
      let all = chan.cache ++ b ∷ bs in
      let g = suc (length all) in
      let (left, e) =
        loop-Drains (length (b ∷ bs) + 2) g (room chan) chan.cache (b ∷ bs) c i (omega arith)
          (omega arith) f in
      ((left, ap some e), drain_keeps crc8 g all (omega arith))
