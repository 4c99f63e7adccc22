-- ===== src/DbPack/Drain.antt =====
-- What a stream of bytes says, apart from how it arrives: `drain` cuts the packets off its front.
pub mod Unpack
pub mod Loop
pub mod Stream
use bk_solution_doorbell.Base.{
  ℕ, zero, suc, ◌+◌, ◌-◌, ◌≤◌, ◌<◌, ◌≡◌, refl, sym, ap, ◌∙◌, ◌⊎◌, inl, inr, Bool, true, false, List,
  [], ◌∷◌, ◌++◌, ◌==◌, ltb, leb, if◌then◌else◌, length, take, drop, arith, length-append,
  length-drop, Bool-cases, ltb→lt, get_or-append_lt, drop-append_le, take-append_le, drop-append_ge,
  drop_all, take_all,
}
use bk_solution_doorbell.DbPack.{Head, head_of, magic_code, head_size, payload_of, deliver, Event}

-- The length of the packet that begins here.
abbrev pub total : List ℕ → ℕ
total bytes = head_size + (head_of bytes).length

module _ (crc8 : List ℕ → ℕ → ℕ) where
  -- The bytes that are kept for the next call, and the events. Bytes with a wrong magic code end the
  -- call and are dropped with all that follow.
  unfoldable pub drain : ℕ → List ℕ → List ℕ × List Event
  drain zero b = (b, [])
  drain (suc g) b =
      let next = drain g (drop (total b) b) in
      if ltb (length b) head_size
      then (b, [])
      else if (head_of b).magic == magic_code
      then (if ltb (length b) (total b)
          then (b, [])
          else (next.0, deliver crc8 (head_of b) (payload_of crc8 b) ++ next.1))
      else ([], [])

  -- Every packet of the bytes fits into the cache.
  unfoldable pub fits : (capacity g : ℕ) → List ℕ → Bool
  fits capacity zero b = true
  fits capacity (suc g) b =
      let next = fits capacity g (drop (total b) b) in
      if ltb (length b) head_size
      then true
      else if (head_of b).magic == magic_code
      then (if leb (total b) capacity
          then (if ltb (length b) (total b) then true else next)
          else false)
      else true

-- Bytes that wait for more: no whole header, or a good header and no whole packet.
abbrev pub IsIncomplete : List ℕ → Type 0
IsIncomplete b = (length b < head_size) ⊎ (((head_of b).magic ≡ magic_code) × (length b < total b))

-- The bytes of one packet.
pub record IsPacket (b : List ℕ) : Type 0 where
  pub good : (head_of b).magic ≡ magic_code
  pub whole : length b ≡ total b

pub drop_packet : (xs ys : List ℕ) → IsPacket xs → drop (total xs) (xs ++ ys) ≡ ys
drop_packet xs ys k =
    rw (← k.whole)
      (drop-append_le (length xs) xs ys (omega arith) ∙ rw (drop_all xs (length xs) refl) refl)

pub head_of-append : (xs ys : List ℕ) → head_size ≤ length xs → head_of (xs ++ ys) ≡ head_of xs
unfolding head_of
head_of-append xs ys h =
    rw
      (
        get_or-append_lt xs ys 0 0 (omega arith),
        get_or-append_lt xs ys 1 0 (omega arith),
        get_or-append_lt xs ys 2 0 (omega arith),
        get_or-append_lt xs ys 3 0 (omega arith),
        get_or-append_lt xs ys 4 0 (omega arith),
        get_or-append_lt xs ys 5 0 (omega arith),
        get_or-append_lt xs ys 6 0 (omega arith),
        get_or-append_lt xs ys 7 0 (omega arith),
        get_or-append_lt xs ys 8 0 (omega arith),
        get_or-append_lt xs ys 9 0 (omega arith),
        get_or-append_lt xs ys 10 0 (omega arith),
        get_or-append_lt xs ys 11 0 (omega arith),
        get_or-append_lt xs ys 12 0 (omega arith),
      )
      refl

module _ (crc8 : List ℕ → ℕ → ℕ) where
  pub payload_of-append :
      (xs ys : List ℕ) → IsPacket xs → payload_of crc8 (xs ++ ys) ≡ payload_of crc8 xs
  payload_of-append xs ys k =
      rw
        (
          head_of-append xs ys (omega (arith, k.whole)),
          drop-append_le 16 xs ys (omega (arith, k.whole)),
        )
        (take-append_le (head_of xs).length (drop 16 xs) ys
          (omega (arith, k.whole, length-drop 16 xs)))

  pub drain-packet :
      (g : ℕ) (xs ys : List ℕ)
      → IsPacket xs
      → let (r, es) = drain crc8 g ys in
        drain crc8 (suc g) (xs ++ ys) ≡ (r, deliver crc8 (head_of xs) (payload_of crc8 xs) ++ es)
  unfolding drain
  drain-packet g xs ys k =
      let hh = head_of-append xs ys (omega (arith, k.whole)) in
      let n = length-append xs ys in
      let t₁ : ltb (length (xs ++ ys)) head_size ≡ false = ground (arith, n, k.whole) in
      let t₂ : ((head_of (xs ++ ys)).magic == magic_code) ≡ true = rw hh (ground (arith, k.good)) in
      let t₃ : ltb (length (xs ++ ys)) (total (xs ++ ys)) ≡ false =
        rw hh (ground (arith, n, k.whole)) in
      let rest : drop (total (xs ++ ys)) (xs ++ ys) ≡ ys = rw hh (drop_packet xs ys k) in
      rw (t₁, t₂, t₃, rest, payload_of-append xs ys k, hh) refl

  pub drain-IsIncomplete : (g : ℕ) (b : List ℕ) → IsIncomplete b → drain crc8 (suc g) b ≡ (b, [])
  unfolding drain
  drain-IsIncomplete g b (inl short) = ground arith
  drain-IsIncomplete g b (inr (m, short)) = ground (arith, m)

  -- What `drain` keeps waits for more.
  pub drain_keeps : (g : ℕ) (b : List ℕ) → length b < g → IsIncomplete (drain crc8 g b).0
  unfolding drain
  drain_keeps zero b h = absurd (omega arith)
  drain_keeps (suc g) b h = elim (Bool-cases (ltb (length b) head_size)) [
    | inl short ↦ rw short (inl (ltb→lt (length b) head_size short))
    | inr long ↦ elim (Bool-cases ((head_of b).magic == magic_code)) [
      | inr bad ↦ rw (long, bad) (inl (omega arith))
      | inl good ↦ elim (Bool-cases (ltb (length b) (total b))) [
        | inl part ↦
            rw (long, good, part) (inr (ground (arith, good), ltb→lt (length b) (total b) part))
        | inr full ↦
            rw (long, good, full)
              (drain_keeps g (drop (total b) b) (ground (arith, length-drop (total b) b, h, long)))
      ]
    ]
  ]
