-- ===== src/FrameQueue/Buffers/Return.antt =====
-- The buffers at frame_queue_v2_deinit_all.
use bk_solution_doorbell.Base.{ℕ, ◌+◌, ◌≡◌, refl, [], ◌++◌, arith}
use native.Mathlib.Decide.{ℕ_discrete}
use bk_solution_doorbell.FrameQueue.Node.{Format, mjpeg, h264, yuv, Pool, bk_ok}
use bk_solution_doorbell.FrameQueue.Queue.{Queue}
use bk_solution_doorbell.FrameQueue.Admin
use bk_solution_doorbell.FrameQueue.State.{State, deinit, deinit_all}
use bk_solution_doorbell.FrameQueue.Buffers.{returns, returns-append, in_queue}
use bk_solution_doorbell.FrameQueue.Buffers.Balance.{deinit_balances}
use bk_solution_doorbell.FrameQueue.Buffers.Ledger.{held}

deinit_unset : (format : Format) (q : Queue) → q.count ≡ 0 → Admin.deinit format q ≡ (bk_ok, q, [])
unfolding Admin.deinit
deinit_unset format q e = ground arith

-- A queue that is not initialised has no nodes.
abbrev pub IsEmptyUnset : Queue → Type 0
IsEmptyUnset q = q.count ≡ 0 → (q.free_list ≡ []) × (q.ready_list ≡ [])

deinit-returns :
    (p : Pool) (b : ℕ) (format : Format) (q : Queue)
    → IsEmptyUnset q
    → (in_queue p b format (Admin.deinit format q).1 ≡ 0)
      × (returns p b (Admin.deinit format q).2 ≡ in_queue p b format q)
deinit-returns p b format q h = elim (ℕ_discrete q.count 0) [
  | yes e ↦ let lists = h e in rw (deinit_unset format q e, lists.0, lists.1) (refl, refl)
  | no e ↦ deinit_balances p b format q e
]

-- `frame_queue_v2_deinit_all` gives back each buffer of each pool as often as nodes hold it, and no
-- node holds one afterwards, if queues that are not initialised have no nodes.
pub deinit_all-returns :
    (p : Pool) (b : ℕ) (s : State)
    → IsEmptyUnset (s.queue 0)
    → IsEmptyUnset (s.queue 1)
    → IsEmptyUnset (s.queue 2)
    → let s' = (deinit_all s).1 in
      (held p b s' ≡ 0) × (returns p b s'.freed ≡ returns p b s.freed + held p b s)
unfolding deinit_all deinit
deinit_all-returns p b s h₀ h₁ h₂ =
    let x = (Admin.deinit mjpeg (s.queue 0)).2 in
    let y = (Admin.deinit h264 (s.queue 1)).2 in
    let z = (Admin.deinit yuv (s.queue 2)).2 in
    omega (
      arith,
      deinit-returns p b mjpeg (s.queue 0) h₀,
      deinit-returns p b h264 (s.queue 1) h₁,
      deinit-returns p b yuv (s.queue 2) h₂,
      returns-append p b s.freed x,
      returns-append p b (s.freed ++ x) y,
      returns-append p b ((s.freed ++ x) ++ y) z,
    )
