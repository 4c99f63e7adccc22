-- ===== src/FrameQueue/Lift.antt =====
-- From one queue to the array: what each function does to the queue that it works on, and `refl` for
-- the others, holds of every queue across a call.
use bk_solution_doorbell.Base.{
  ℕ, ◌≡◌, subst, Option, none, [], arith, Bool-cases, ◌==◌, inl, inr, if◌then◌else◌,
}
use bk_solution_doorbell.FrameQueue.Node.{Format, mjpeg, h264, yuv, other, list_index, bk_fail}
use bk_solution_doorbell.FrameQueue.Queue.{Queue, Freed}
use bk_solution_doorbell.FrameQueue.Producer
use bk_solution_doorbell.FrameQueue.Producer.{FrameHeader}
use bk_solution_doorbell.FrameQueue.Consumer
use bk_solution_doorbell.FrameQueue.Consumer.{returned}
use bk_solution_doorbell.FrameQueue.Admin
use bk_solution_doorbell.FrameQueue.State.{
  State, commit, on_queue, update, Call, mallocs, completes, cancels, gets, releases, registers,
  unregisters, clears, step, malloc, complete, cancel, get_frame, release_frame, register_consumer,
  unregister_consumer, clear_all,
}

-- A relation between a queue before and after a call that every function on one queue respects.
pub record IsRespected {ℓ} (Rel : Queue → Queue → Type ℓ) : Type ℓ where
  pub untouched : (q : Queue) → Rel q q
  pub on_malloc :
      (format : Format) (buffer : Option ℕ) (now : ℕ) (q : Queue)
      → Rel q (Producer.malloc format buffer now q).1
  pub on_complete :
      (frame : Option ℕ) (header : FrameHeader) (t₁ t₂ : ℕ) (q : Queue)
      → Rel q (Producer.complete frame header t₁ t₂ q).1
  pub on_cancel :
      (format : Format) (frame : Option ℕ) (q : Queue) → Rel q (Producer.cancel format frame q).1
  pub on_get : (consumer_id : ℕ) (q : Queue) → Rel q (Consumer.get_frame consumer_id none 0 [] q).1
  pub on_release :
      (format : Format) (consumer_id : ℕ) (frame : Option ℕ) (q : Queue)
      → Rel q (Consumer.release_frame format consumer_id frame q).1
  pub on_register :
      (consumer_id : ℕ) (q : Queue) → Rel q (Consumer.register_consumer consumer_id q).1
  pub on_unregister :
      (consumer_id : ℕ) (q : Queue) → Rel q (Consumer.unregister_consumer consumer_id q).1
  pub on_clear : (q : Queue) → Rel q (Admin.clear q).0

module _ {ℓ} (Rel : Queue → Queue → Type ℓ) (r : IsRespected Rel) where
  update_lift :
      (queue : ℕ → Queue) (i : ℕ) (q : Queue) (j : ℕ)
      → Rel (queue i) q
      → Rel (queue j) (update queue i q j)
  update_lift queue i q j h = elim (Bool-cases (i == j)) [
    | inl e ↦ rw e (subst (λ k. Rel (queue k) q) (let d : i ≡ j = ground arith in d) h)
    | inr e ↦ rw e (r.untouched (queue j))
  ]

  slot_lift {κ} :
      {R : Type κ} (s : State) (i : ℕ) (bad : R) (body : Queue → R × Queue × Freed)
      → ((q : Queue) → Rel q (body q).1)
      → (j : ℕ)
      → Rel
          (s.queue j)
          ((if (s.queue i).count == 0 then (bad, s) else commit s i (body (s.queue i))).1.queue j)
  slot_lift s i bad body h j = elim (Bool-cases ((s.queue i).count == 0)) [
    | inl e ↦ rw e (r.untouched (s.queue j))
    | inr e ↦ rw e (update_lift s.queue i (body (s.queue i)).1 j (h (s.queue i)))
  ]

  on_queue_lift {κ} :
      {R : Type κ} (s : State) (format : Format) (bad : R) (body : Queue → R × Queue × Freed)
      → ((q : Queue) → Rel q (body q).1)
      → (j : ℕ) → Rel (s.queue j) ((on_queue s format bad body).1.queue j)
  unfolding on_queue list_index
  on_queue_lift s mjpeg bad body h j = slot_lift s 0 bad body h j
  on_queue_lift s h264 bad body h j = slot_lift s 1 bad body h j
  on_queue_lift s yuv bad body h j = slot_lift s 2 bad body h j
  on_queue_lift s (other _) bad body h j = r.untouched (s.queue j)

  clear_lift : (s : State) (j : ℕ) → Rel (s.queue j) ((clear_all s).1.queue j)
  unfolding clear_all
  clear_lift s j = elim (Bool-cases (2 == j)) [
    | inl e ↦ rw (e, ← (let d : 2 ≡ j = ground arith in d)) (r.on_clear (s.queue 2))
    | inr e ↦ elim (Bool-cases (1 == j)) [
      | inl f ↦ rw (e, f, ← (let d : 1 ≡ j = ground arith in d)) (r.on_clear (s.queue 1))
      | inr f ↦
          rw (e, f) (update_lift s.queue 0 (Admin.clear (s.queue 0)).0 j (r.on_clear (s.queue 0)))
    ]
  ]

  pub step_lift : (c : Call) (s : State) (j : ℕ) → Rel (s.queue j) ((step c s).queue j)
  unfolding step malloc complete cancel get_frame release_frame register_consumer
      unregister_consumer
  step_lift (mallocs format buffer now) s =
      on_queue_lift s format none (Producer.malloc format buffer now)
        (r.on_malloc format buffer now)
  step_lift (completes format frame header t₁ t₂) s =
      on_queue_lift s format bk_fail (Producer.complete frame header t₁ t₂)
        (r.on_complete frame header t₁ t₂)
  step_lift (cancels format frame) s =
      on_queue_lift s format bk_fail (Producer.cancel format frame) (r.on_cancel format frame)
  step_lift (gets format consumer_id) s =
      on_queue_lift s format (returned none) (Consumer.get_frame consumer_id none 0 [])
        (r.on_get consumer_id)
  step_lift (releases format consumer_id frame) s =
      on_queue_lift s format tt (Consumer.release_frame format consumer_id frame)
        (r.on_release format consumer_id frame)
  step_lift (registers format consumer_id) s =
      on_queue_lift s format bk_fail (Consumer.register_consumer consumer_id)
        (r.on_register consumer_id)
  step_lift (unregisters format consumer_id) s =
      on_queue_lift s format bk_fail (Consumer.unregister_consumer consumer_id)
        (r.on_unregister consumer_id)
  step_lift clears s = clear_lift s
