-- ===== src/FrameQueue/Setup.antt =====
-- frame_queue_v2_init and frame_queue_v2_deinit.
use bk_solution_doorbell.Base.{
  ℕ, zero, suc, ◌+◌, ◌≤◌, ◌≡◌, ◌≢◌, refl, inl, inr, true, false, Option, List, [], ◌∷◌, ◌++◌, arith,
  Option-cases, length, length-append, ◌==◌, All,
}
use bk_solution_doorbell.FrameQueue.Node.{Format, Status, bk_ok, bk_fail, bk_err_no_mem}
use bk_solution_doorbell.FrameQueue.Queue.{Queue, cleared}
use bk_solution_doorbell.FrameQueue.Scan.{All-add_tail}
use bk_solution_doorbell.FrameQueue.Invariant.{IsIdle, IsValid}
use bk_solution_doorbell.FrameQueue.Admin.{init, create_nodes, fresh_node, frame_count}

create_nodes-IsIdle :
    (left i : ℕ) (alloc : ℕ → Option ℕ) (now : ℕ) (free : List _)
    → All IsIdle free
    → All IsIdle (create_nodes left i alloc now free)
unfolding create_nodes
create_nodes-IsIdle zero i alloc now free h = h
create_nodes-IsIdle (suc left) i alloc now free h = elim (Option-cases (alloc i)) [
  | inl e ↦ rw (e) (create_nodes-IsIdle left (suc i) alloc now free h)
  | inr (addr, e) ↦ rw (e) (
      create_nodes-IsIdle left (suc i) alloc now (free ++ (fresh_node addr now ∷ [])) (
        All-add_tail IsIdle free (fresh_node addr now) h
          (record { unreferenced = refl; filled = inl refl })))
]

-- An allocation that fails leaves the queue with fewer nodes, and is not reported.
length-create_nodes-le :
    (left i : ℕ) (alloc : ℕ → Option ℕ) (now : ℕ) (free : List _)
    → length (create_nodes left i alloc now free) ≤ length free + left
unfolding create_nodes
length-create_nodes-le zero i alloc now free = omega arith
length-create_nodes-le (suc left) i alloc now free = elim (Option-cases (alloc i)) [
  | inl e ↦ rw (e) (omega (arith, length-create_nodes-le left (suc i) alloc now free))
  | inr (addr, e) ↦
      let free' = free ++ (fresh_node addr now ∷ []) in
      rw (e) (
        omega (
          arith,
          length-create_nodes-le left (suc i) alloc now free',
          length-append free (fresh_node addr now ∷ []),
        ))
]

-- Setting up a queue that is not initialised makes it well formed, with its format, an empty ready list,
-- no consumer, and at most the nodes of its format, if the semaphore can be had.
pub init-IsValid :
    (format : Format) (alloc : ℕ → Option ℕ) (now : ℕ) (q : Queue)
    → q.count ≡ 0
    → let (status, q') = init format bk_ok alloc now q in
      (status ≡ bk_ok)
      × IsValid q'
      × (q'.format ≡ format)
      × (q'.count ≡ frame_count format)
      × (length q'.free_list ≤ q'.count)
      × (q'.ready_list ≡ [])
      × (q'.active_consumers ≡ 0)
unfolding init cleared
init-IsValid format alloc now q h =
    let e : (q.count == 0) ≡ true = ground arith in
    rw (e, init)
      (
        refl,
        record { idle = create_nodes-IsIdle (frame_count format) 0 alloc now [] tt; ready = tt },
        refl,
        refl,
        omega (arith, length-create_nodes-le (frame_count format) 0 alloc now []),
        refl,
        refl,
      )

-- The semaphore's failure is reported once: the queue keeps its count without a node or a semaphore,
-- so that the next call of `init` reports success and changes nothing.
pub init_again :
    (format : Format) (failed : Status) (alloc alloc' : ℕ → Option ℕ) (now now' : ℕ) (q : Queue)
    (semaphore : Status)
    → q.count ≡ 0
    → failed ≢ bk_ok
    → frame_count format ≢ 0
    → let (status, q') = init format failed alloc now q in
      (status ≡ failed)
      × (q'.free_list ≡ [])
      × (q'.ready_list ≡ [])
      × (init format semaphore alloc' now' q' ≡ (bk_ok, q'))
unfolding init cleared
init_again format bk_ok alloc alloc' now now' q semaphore h f n = absurd (f refl)
init_again format bk_fail alloc alloc' now now' q semaphore h f n =
    let e : (q.count == 0) ≡ true = ground arith in
    let d : (frame_count format == 0) ≡ false = ground arith in rw (e, d) (refl, refl, refl, refl)
init_again format bk_err_no_mem alloc alloc' now now' q semaphore h f n =
    let e : (q.count == 0) ≡ true = ground arith in
    let d : (frame_count format == 0) ≡ false = ground arith in rw (e, d) (refl, refl, refl, refl)
