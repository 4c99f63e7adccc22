-- ===== src/DbPack/Drain/Unpack.antt =====
-- The loop of db_pack_unpack against `drain`.
use bk_solution_doorbell.Base.{
  ℕ, suc, ◌+◌, ◌-◌, ◌≤◌, ◌<◌, ◌≡◌, refl, sym, ap, ◌∙◌, inl, inr, true, false, List, [], ◌∷◌, ◌++◌,
  ◌==◌, ltb, leb, if◌then◌else◌, length, take, drop, arith, length-append, length-drop,
  length-take_le, Bool-cases, ltb→lt, leb→le, take-append-drop,
}
use mathlib.Core.List.{append_assoc}
use bk_solution_doorbell.DbPack.{
  head_of, magic_code, head_size, payload_of, deliver, Event, Outcome, done, after_events, ends,
  goes, fill_to, unpack_loop,
}
use bk_solution_doorbell.DbPack.Drain.{
  total, drain, fits, IsIncomplete, IsPacket, head_of-append, drop_packet, drain-packet,
  drain-IsIncomplete,
}

-- A copy up to `target` bytes ends the call with everything cached, or splits the bytes at `target`.
pub fill_short :
    (target capacity : ℕ) (cache p : List ℕ)
    → length (cache ++ p) < target
    → target ≤ capacity
    → fill_to target capacity cache p ≡ ends (done (cache ++ p) 0 [])
unfolding fill_to
fill_short target capacity cache p h k = ground (arith, length-append cache p)

pub fill_long :
    (target capacity : ℕ) (cache p : List ℕ)
    → length cache ≤ target
    → target ≤ length (cache ++ p)
    → target ≤ capacity
    → (xs ys : List ℕ) × (fill_to target capacity cache p ≡ goes xs ys)
      × (xs ++ ys ≡ cache ++ p)
      × (length xs ≡ target)
      × (length ys ≤ length p)
unfolding fill_to
fill_long target capacity cache p h k l = elim (Bool-cases (ltb (length cache) target)) [
  | inl short ↦
      let n = target - length cache in
      let size = length-append cache p in
      let cut = length-take_le n p (omega (arith, size)) in
      let t : ltb (length p) n ≡ false = ground (arith, size) in
      let m : leb target capacity ≡ true = ground arith in
      (
        cache ++ take n p,
        drop n p,
        rw (short, t, m) refl,
        append_assoc cache (take n p) (drop n p) ∙ ap (◌++◌ cache) (take-append-drop n p),
        omega (arith, length-append cache (take n p), cut, ltb→lt (length cache) target short),
        omega (arith, length-drop n p),
      )
  | inr long ↦ (cache, p, rw long refl, refl, ground (arith, long), omega arith)
]

-- The first copy leaves a whole header in the cache, and no more than the packet.
pub fill_head :
    (capacity : ℕ) (cache p : List ℕ)
    → IsIncomplete cache
    → head_size ≤ length (cache ++ p)
    → head_size ≤ capacity
    → (xs ys : List ℕ) × (fill_to head_size capacity cache p ≡ goes xs ys)
      × (xs ++ ys ≡ cache ++ p)
      × (head_size ≤ length xs)
      × (length xs ≤ total xs)
      × (length ys ≤ length p)
unfolding fill_to
fill_head capacity cache p (inl short) h k =
    let (xs, ys, e, whole, size, le) = fill_long head_size capacity cache p (omega arith) h k in
    (xs, ys, e, whole, omega arith, omega arith, le)
fill_head capacity cache p (inr (m, part)) h k = elim (Bool-cases (ltb (length cache) head_size)) [
  | inl short ↦
      let s = ltb→lt (length cache) head_size short in
      let (xs, ys, e, whole, size, le) = fill_long head_size capacity cache p (omega arith) h k in
      (xs, ys, e, whole, omega arith, omega arith, le)
  | inr long ↦ (cache, p, rw long refl, refl, ground (arith, long), omega arith, omega arith)
]

-- The outcome of a call is what `drain` says, with some number of bytes counted as left.
abbrev pub Drains : Outcome → List ℕ × List Event → Type 0
Drains out r = (left : ℕ) × (out ≡ done r.0 left r.1)

pub after-Drains :
    (es : List Event) (out : Outcome) (r : List ℕ × List Event)
    → Drains out r
    → Drains (after_events es out) (r.0, es ++ r.1)
after-Drains es out r (left, e) = (left, rw e refl)

module _ (crc8 : List ℕ → ℕ → ℕ) where
  drain-bad :
      (g : ℕ) (b : List ℕ)
      → head_size ≤ length b
      → ((head_of b).magic == magic_code) ≡ false
      → drain crc8 (suc g) b ≡ ([], [])
  unfolding drain
  drain-bad g b h bad = let t : ltb (length b) head_size ≡ false = ground arith in rw (t, bad) refl

  fits-total :
      (capacity g : ℕ) (b : List ℕ)
      → head_size ≤ length b
      → ((head_of b).magic == magic_code) ≡ true
      → fits crc8 capacity (suc g) b ≡ true
      → total b ≤ capacity
  unfolding fits
  fits-total capacity g b h good f =
      let t : ltb (length b) head_size ≡ false = ground arith in
      elim (Bool-cases (leb (total b) capacity)) [
        | inl le ↦ leb→le (total b) capacity le
        | inr gt ↦ absurd (cc (rw (t, good, gt) at f))
      ]

  fits-rest :
      (capacity g : ℕ) (b : List ℕ)
      → head_size ≤ length b
      → ((head_of b).magic == magic_code) ≡ true
      → total b ≤ length b
      → fits crc8 capacity (suc g) b ≡ true
      → fits crc8 capacity g (drop (total b) b) ≡ true
  unfolding fits
  fits-rest capacity g b h good w f =
      let t : ltb (length b) head_size ≡ false = ground arith in
      let full : ltb (length b) (total b) ≡ false = ground arith in
      elim (Bool-cases (leb (total b) capacity)) [
        | inl le ↦ rw (t, good, le, full) at f
        | inr gt ↦ absurd (cc (rw (t, good, gt) at f))
      ]

  -- What the loop does with input and an empty cache.
  pub fresh-Drains :
      (fuel g capacity b : ℕ) (bs : List ℕ)
      → head_size ≤ capacity
      → fits crc8 capacity (suc g) (b ∷ bs) ≡ true
      → ((q : List ℕ)
          → length q < length (b ∷ bs)
          → fits crc8 capacity g q ≡ true
          → Drains (unpack_loop crc8 fuel capacity [] q) (drain crc8 g q))
      → Drains (unpack_loop crc8 (suc fuel) capacity [] (b ∷ bs)) (drain crc8 (suc g) (b ∷ bs))
  unfolding unpack_loop drain
  fresh-Drains fuel g capacity b bs c f again =
      let p = b ∷ bs in
      elim (Bool-cases (ltb (length p) head_size)) [
        | inl short ↦
            let le : leb (0 + length p) capacity ≡ true = ground arith in
            rw (short, le) (length p, refl)
        | inr long ↦
            let h : head_size ≤ length p = ground arith in
            elim (Bool-cases ((head_of p).magic == magic_code)) [
              | inr bad ↦ rw (long, bad) (length p, refl)
              | inl good ↦ elim (Bool-cases (ltb (length p) (total p))) [
                | inl part ↦
                    let fit = fits-total capacity g p h good f in
                    let le : leb (0 + length p) capacity ≡ true = ground arith in
                    rw (long, good, part, le) (length p, refl)
                | inr full ↦
                    let w : total p ≤ length p = ground arith in
                    rw (long, good, full)
                      (after-Drains (deliver crc8 (head_of p) (payload_of crc8 p)) _ _ (
                        again (drop (total p) p) (omega (arith, length-drop (total p) p))
                          (fits-rest capacity g p h good w f)))
              ]
            ]
      ]

  -- What it does from the second copy on, with a whole header in the cache.
  pub packet-Drains :
      (fuel g capacity : ℕ) (xs ys : List ℕ)
      → head_size ≤ length xs
      → length xs ≤ total xs
      → fits crc8 capacity (suc g) (xs ++ ys) ≡ true
      → ((q : List ℕ)
          → length q ≤ length ys
          → fits crc8 capacity g q ≡ true
          → Drains (unpack_loop crc8 fuel capacity [] q) (drain crc8 g q))
      → Drains
          (let h = head_of xs in
            let filled = fill_to (head_size + h.length) capacity xs ys in
            if h.magic == magic_code
            then (elim filled [
              | ends out ↦ out
              | goes packet q ↦
                  after_events
                    (deliver crc8 h (payload_of crc8 packet))
                    (unpack_loop crc8 fuel capacity [] q)
            ])
            else done [] (length ys) [])
          (drain crc8 (suc g) (xs ++ ys))
  packet-Drains fuel g capacity xs ys h le f again =
      let same = head_of-append xs ys h in
      let long : head_size ≤ length (xs ++ ys) = omega (arith, length-append xs ys) in
      elim (Bool-cases ((head_of xs).magic == magic_code)) [
        | inr bad ↦ rw (bad, drain-bad g (xs ++ ys) long (rw same bad)) (length ys, refl)
        | inl good ↦
            let fit : total xs ≤ capacity =
              rw same at (fits-total capacity g (xs ++ ys) long (rw same good) f) in
            elim (Bool-cases (ltb (length (xs ++ ys)) (total xs))) [
              | inl part ↦
                  let lt = ltb→lt (length (xs ++ ys)) (total xs) part in
                  rw
                    (
                      good,
                      fill_short (total xs) capacity xs ys lt fit,
                      drain-IsIncomplete crc8 g (xs ++ ys)
                          (inr (rw same (ground (arith, good)), rw same lt)),
                    )
                    (0, refl)
              | inr full ↦
                  let w : total xs ≤ length (xs ++ ys) = ground arith in
                  let (packet, q, e, whole, size, less) =
                    fill_long (total xs) capacity xs ys le w fit in
                  let hp : head_of packet ≡ head_of xs =
                    sym (head_of-append packet q (omega (arith, size))) ∙ ap head_of whole ∙ same in
                  let pk : IsPacket packet = record {
                    good = rw hp (ground (arith, good));
                    whole = rw hp size;
                  } in
                  let f' : fits crc8 capacity (suc g) (packet ++ q) ≡ true = rw whole f in
                  let hq = head_of-append packet q (omega (arith, size)) in
                  let long' : head_size ≤ length (packet ++ q) = rw whole long in
                  let full' : total (packet ++ q) ≤ length (packet ++ q) = rw (whole, same) w in
                  let good' : ((head_of (packet ++ q)).magic == magic_code) ≡ true =
                    rw (whole, same) good in
                  let rest : drop (total (packet ++ q)) (packet ++ q) ≡ q =
                    rw hq (drop_packet packet q pk) in
                  let fq : fits crc8 capacity g q ≡ true =
                    rw rest at (fits-rest capacity g (packet ++ q) long' good' full' f') in
                  let (left, o) = again q less fq in
                  let d = ap (drain crc8 (suc g)) (sym whole) ∙ drain-packet crc8 g packet q pk in
                  let es = ap (λ h. deliver crc8 h (payload_of crc8 packet)) hp in
                  (left, rw (good, e, o, d, es) refl)
            ]
      ]
