-- ===== src/FrameQueue/Buffers/Exclusive.antt =====
-- How many nodes hold a buffer of the allocator.
use bk_solution_doorbell.Base.{
  ℕ, ◌+◌, ◌≤◌, ◌≡◌, ◌≢◌, sym, subst, Option, none, some, List, [], ◌∷◌, ◌++◌, arith,
}
use native.Mathlib.Decide.{ℕ_discrete}
use bk_solution_doorbell.FrameQueue.Node.{
  Format, mjpeg, h264, yuv, other, Pool, list_index, bk_fail,
}
use bk_solution_doorbell.FrameQueue.Queue.{Queue, Freed}
use bk_solution_doorbell.FrameQueue.Producer
use bk_solution_doorbell.FrameQueue.Consumer
use bk_solution_doorbell.FrameQueue.Consumer.{returned}
use bk_solution_doorbell.FrameQueue.Admin
use bk_solution_doorbell.FrameQueue.State.{
  State, on_queue, Call, mallocs, completes, cancels, gets, releases, registers, unregisters,
  clears, step, malloc, complete, cancel, get_frame, release_frame, register_consumer,
  unregister_consumer, clear_all,
}
use bk_solution_doorbell.FrameQueue.Buffers.{returns, returns-append, stake, stake-none}
use bk_solution_doorbell.FrameQueue.Buffers.Balance.{obtained}
use bk_solution_doorbell.FrameQueue.Buffers.Ledger.{
  HasFormats, held, obtained_by, step_balances, run, step-HasFormats,
}

-- The log of returned buffers only grows.
module _ (p : Pool) (b : ℕ) where
  on_queue_grows {ℓ} :
      {R : Type ℓ} (s : State) (format : Format) (bad : R) (body : Queue → R × Queue × Freed)
      → returns p b s.freed ≤ returns p b (on_queue s format bad body).1.freed
  unfolding on_queue list_index
  on_queue_grows s mjpeg bad body = ground (arith, returns-append p b s.freed (body (s.queue 0)).2)
  on_queue_grows s h264 bad body = ground (arith, returns-append p b s.freed (body (s.queue 1)).2)
  on_queue_grows s yuv bad body = ground (arith, returns-append p b s.freed (body (s.queue 2)).2)
  on_queue_grows s (other _) bad body = omega arith

  returns-le-step : (c : Call) (s : State) → returns p b s.freed ≤ returns p b (step c s).freed
  unfolding step malloc complete cancel get_frame release_frame register_consumer
      unregister_consumer clear_all
  returns-le-step (mallocs format buffer now) s =
      on_queue_grows s format none (Producer.malloc format buffer now)
  returns-le-step (completes format frame header t₁ t₂) s =
      on_queue_grows s format bk_fail (Producer.complete frame header t₁ t₂)
  returns-le-step (cancels format frame) s =
      on_queue_grows s format bk_fail (Producer.cancel format frame)
  returns-le-step (gets format consumer_id) s =
      on_queue_grows s format (returned none) (Consumer.get_frame consumer_id none 0 [])
  returns-le-step (releases format consumer_id frame) s =
      on_queue_grows s format tt (Consumer.release_frame format consumer_id frame)
  returns-le-step (registers format consumer_id) s =
      on_queue_grows s format bk_fail (Consumer.register_consumer consumer_id)
  returns-le-step (unregisters format consumer_id) s =
      on_queue_grows s format bk_fail (Consumer.unregister_consumer consumer_id)
  returns-le-step clears s =
      let x = (Admin.clear (s.queue 0)).1 in
      let y = (Admin.clear (s.queue 1)).1 in
      let z = (Admin.clear (s.queue 2)).1 in
      omega (
        arith,
        returns-append p b s.freed x,
        returns-append p b (s.freed ++ x) y,
        returns-append p b ((s.freed ++ x) ++ y) z,
      )

-- The allocator hands out no buffer that a node still holds.
abbrev pub IsFresh : Call → State → Type 0
IsFresh (mallocs format none now) s = Unit {0}
IsFresh (mallocs format (some buffer) now) s = (p : Pool) → held p buffer s ≡ 0
IsFresh (completes _ _ _ _ _) s = Unit {0}
IsFresh (cancels _ _) s = Unit {0}
IsFresh (gets _ _) s = Unit {0}
IsFresh (releases _ _ _) s = Unit {0}
IsFresh (registers _ _) s = Unit {0}
IsFresh (unregisters _ _) s = Unit {0}
IsFresh clears s = Unit {0}

abbrev pub AreFresh : List Call → State → Type 0
AreFresh [] s = Unit {0}
AreFresh (c ∷ cs) s = IsFresh c s × AreFresh cs (step c s)

stake-le_one : (p : Pool) (b : ℕ) (format : Format) (frame : Option ℕ) → stake p b format frame ≤ 1
unfolding stake
stake-le_one p b format frame = ground arith

stake-zero :
    (p : Pool) (b : ℕ) (format : Format) (frame : ℕ) → b ≢ frame → stake p b format (some frame) ≡ 0
unfolding stake
stake-zero p b format frame h = ground arith

obtained-le :
    (p : Pool) (b : ℕ) (format : Format) (buffer : Option ℕ) (q : Queue)
    → obtained p b format buffer q ≤ stake p b format buffer
unfolding obtained
obtained-le p b format buffer q = ground arith

obtained_by-le :
    (p : Pool) (b : ℕ) (format : Format) (buffer : Option ℕ) (now : ℕ) (s : State)
    → obtained_by p b (mallocs format buffer now) s ≤ stake p b format buffer
unfolding obtained_by
obtained_by-le p b mjpeg buffer now s = ground (arith, obtained-le p b mjpeg buffer (s.queue 0))
obtained_by-le p b h264 buffer now s = ground (arith, obtained-le p b h264 buffer (s.queue 1))
obtained_by-le p b yuv buffer now s = ground (arith, obtained-le p b yuv buffer (s.queue 2))
obtained_by-le p b (other _) buffer now s = omega arith

-- A call that takes a buffer takes one that nobody holds.
held-add-obtained-le :
    (p : Pool) (b : ℕ) (c : Call) (s : State)
    → IsFresh c s
    → held p b s ≤ 1
    → held p b s + obtained_by p b c s ≤ 1
unfolding obtained_by
held-add-obtained-le p b (mallocs format none now) s h k =
    omega (arith, obtained_by-le p b format none now s, stake-none p b format)
held-add-obtained-le p b (mallocs format (some buffer) now) s h k = elim (ℕ_discrete b buffer) [
  | yes e ↦ omega (
    arith,
    obtained_by-le p b format (some buffer) now s,
    stake-le_one p b format (some buffer),
    subst (λ x. held p x s ≡ 0) (sym e) (h p),
  )
  | no e ↦
      omega (arith, obtained_by-le p b format (some buffer) now s, stake-zero p b format buffer e)
]
held-add-obtained-le p b (completes _ _ _ _ _) s h k = omega arith
held-add-obtained-le p b (cancels _ _) s h k = omega arith
held-add-obtained-le p b (gets _ _) s h k = omega arith
held-add-obtained-le p b (releases _ _ _) s h k = omega arith
held-add-obtained-le p b (registers _ _) s h k = omega arith
held-add-obtained-le p b (unregisters _ _) s h k = omega arith
held-add-obtained-le p b clears s h k = omega arith

-- How many nodes hold a buffer of the allocator.
abbrev pub IsExclusive : State → Type 0
IsExclusive s = (p : Pool) (b : ℕ) → held p b s ≤ 1

step-IsExclusive :
    (c : Call) (s : State) → HasFormats s → IsFresh c s → IsExclusive s → IsExclusive (step c s)
step-IsExclusive c s f h x p b = omega (
  arith,
  step_balances p b c s f,
  returns-le-step p b c s,
  held-add-obtained-le p b c s h (x p b),
)

-- Along any calls, no buffer is ever held by two nodes, if none is at the start, each initialised queue
-- has the format of its index, and the allocator hands out no buffer that a node still holds.
pub run-IsExclusive :
    (cs : List Call) (s : State)
    → HasFormats s
    → AreFresh cs s
    → IsExclusive s
    → IsExclusive (run cs s)
unfolding run
run-IsExclusive [] s f h x = x
run-IsExclusive (c ∷ cs) s f h x =
    run-IsExclusive cs (step c s) (step-HasFormats c s f) h.1 (step-IsExclusive c s f h.0 x)
