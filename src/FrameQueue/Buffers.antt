-- ===== src/FrameQueue/Buffers.antt =====
-- Where the frame buffers are: in a node of a queue, or given back to the pool that they came from.
pub mod Balance
pub mod Ledger
pub mod Exclusive
pub mod Return
use bk_solution_doorbell.Base.{
  ℕ, ◌+◌, ◌≡◌, refl, Bool, true, false, ◌&&◌, Option, none, some, List, [], ◌∷◌, ◌++◌, arith, ◌==◌,
  if◌then◌else◌,
}
use bk_solution_doorbell.FrameQueue.Node.{
  Format, mjpeg, h264, yuv, Pool, encode, display, pool_of, Node,
}
use bk_solution_doorbell.FrameQueue.Queue.{Queue, Freed}
use bk_solution_doorbell.FrameQueue.Producer.{free_frame}
use bk_solution_doorbell.FrameQueue.Admin.{destroy_all}
use bk_solution_doorbell.FrameQueue.Scan.{total}

abbrev pub same_pool : Pool → Pool → Bool
same_pool encode encode = true
same_pool encode display = false
same_pool display encode = false
same_pool display display = true

-- 1 if the frame is buffer `b` of pool `p`, held by a node of a queue of this format.
unfoldable pub stake : Pool → ℕ → Format → Option ℕ → ℕ
unfolding pool_of
stake p b format none = 0
stake p b format (some frame) = elim (pool_of format) [
  | none ↦ 0
  | some r ↦ if same_pool p r && (frame == b) then 1 else 0
]

-- How often buffer `b` was given back to pool `p`.
abbrev pub returns : Pool → ℕ → Freed → ℕ
returns p b [] = 0
returns p b ((r, frame) ∷ rest) =
    (if same_pool p r && (frame == b) then 1 else 0) + returns p b rest

module _ (p : Pool) (b : ℕ) where
  pub returns-append : (xs ys : Freed) → returns p b (xs ++ ys) ≡ returns p b xs + returns p b ys
  returns-append [] ys = omega arith
  returns-append ((r, frame) ∷ xs) ys = omega (arith, returns-append xs ys)

  pub stake-none : (format : Format) → stake p b format none ≡ 0
  unfolding stake
  stake-none format = refl

  pub returns-free_frame :
      (format : Format) (frame : Option ℕ)
      → returns p b (free_frame format frame) ≡ stake p b format frame
  unfolding free_frame stake
  returns-free_frame format none = refl
  returns-free_frame format (some frame) = ground arith

  -- The nodes of a list that hold the buffer.
  abbrev pub holders : Format → List Node → ℕ
  holders format = total (λ n. stake p b format n.frame)

  abbrev pub in_queue : Format → Queue → ℕ
  in_queue format q = holders format q.free_list + holders format q.ready_list

  pub returns-destroy_all :
      (format : Format) (ns : List Node) → returns p b (destroy_all format ns) ≡ holders format ns
  unfolding destroy_all
  returns-destroy_all format [] = refl
  returns-destroy_all format (n ∷ ns) = omega (
    arith,
    returns-append (free_frame format n.frame) (destroy_all format ns),
    returns-free_frame format n.frame,
    returns-destroy_all format ns,
  )
