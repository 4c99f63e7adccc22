-- ===== src/FrameQueue/Buffers/Ledger.antt =====
-- The buffers of all three queues together, along any sequence of calls.
use bk_solution_doorbell.Base.{
  ℕ, ◌+◌, ◌≡◌, ◌≢◌, refl, inl, inr, ◌∙◌, true, none, some, List, [], ◌∷◌, ◌++◌, arith, Bool-cases,
  ◌==◌, if◌then◌else◌,
}
use bk_solution_doorbell.FrameQueue.Node.{
  Format, mjpeg, h264, yuv, other, Pool, list_index, bk_fail,
}
use bk_solution_doorbell.FrameQueue.Queue.{Queue, Freed}
use bk_solution_doorbell.FrameQueue.Producer
use bk_solution_doorbell.FrameQueue.Consumer
use bk_solution_doorbell.FrameQueue.Consumer.{returned}
use bk_solution_doorbell.FrameQueue.Admin
use bk_solution_doorbell.FrameQueue.State.{
  State, on_queue, Call, mallocs, completes, cancels, gets, releases, registers, unregisters,
  clears, step, malloc, complete, cancel, get_frame, release_frame, register_consumer,
  unregister_consumer, clear_all,
}
use bk_solution_doorbell.FrameQueue.Shape.{step-SameShape}
use bk_solution_doorbell.FrameQueue.Buffers.{returns, returns-append, in_queue}
use bk_solution_doorbell.FrameQueue.Buffers.Balance.{
  obtained, malloc-Balances, complete-Balances, cancel-Balances, release-Balances, get-Balances,
  register-Balances, unregister-Balances, clear_balances,
}

-- Each initialised queue has the format of its index.
pub record HasFormats (s : State) : Type 0 where
  pub first : (s.queue 0).count ≢ 0 → (s.queue 0).format ≡ mjpeg
  pub second : (s.queue 1).count ≢ 0 → (s.queue 1).format ≡ h264
  pub third : (s.queue 2).count ≢ 0 → (s.queue 2).format ≡ yuv

-- The nodes that hold buffer `b` of pool `p`, over all queues.
abbrev pub held : Pool → ℕ → State → ℕ
held p b s =
    in_queue p b mjpeg (s.queue 0) + in_queue p b h264 (s.queue 1) + in_queue p b yuv (s.queue 2)

clear_empty : (q : Queue) → (q.count == 0) ≡ true → Admin.clear q ≡ (q, [])
unfolding Admin.clear
clear_empty q e = rw e

module _ (p : Pool) (b : ℕ) where
  abbrev at_queue : (Format → Queue → ℕ) → Format → State → ℕ
  at_queue extra format s = elim (list_index format) [
    | none ↦ 0
    | some i ↦ if (s.queue i).count == 0 then 0 else extra format (s.queue i)
  ]

  -- What a call takes of buffer `b` from the allocator: 1 or 0.
  unfoldable pub obtained_by : Call → State → ℕ
  unfolding list_index
  obtained_by (mallocs format buffer now) s = at_queue (λ f. obtained p b f buffer) format s
  obtained_by (completes _ _ _ _ _) s = 0
  obtained_by (cancels _ _) s = 0
  obtained_by (gets _ _) s = 0
  obtained_by (releases _ _ _) s = 0
  obtained_by (registers _ _) s = 0
  obtained_by (unregisters _ _) s = 0
  obtained_by clears s = 0

  on_queue_balances {ℓ} :
      {R : Type ℓ} (s : State) (format : Format) (bad : R) (body : Queue → R × Queue × Freed)
      (extra : Format → Queue → ℕ)
      → ((q : Queue)
          → in_queue p b format (body q).1 + returns p b (body q).2
            ≡ in_queue p b format q + extra format q)
      → let s' = (on_queue s format bad body).1 in
        held p b s' + returns p b s'.freed
        ≡ held p b s + returns p b s.freed + at_queue extra format s
  unfolding on_queue list_index
  on_queue_balances s mjpeg bad body extra h =
      ground (arith, h (s.queue 0), returns-append p b s.freed (body (s.queue 0)).2)
  on_queue_balances s h264 bad body extra h =
      ground (arith, h (s.queue 1), returns-append p b s.freed (body (s.queue 1)).2)
  on_queue_balances s yuv bad body extra h =
      ground (arith, h (s.queue 2), returns-append p b s.freed (body (s.queue 2)).2)
  on_queue_balances s (other _) bad body extra h = omega arith

  at_queue-zero : (format : Format) (s : State) → at_queue (λ _ _. 0) format s ≡ 0
  unfolding list_index
  at_queue-zero mjpeg s = ground arith
  at_queue-zero h264 s = ground arith
  at_queue-zero yuv s = ground arith
  at_queue-zero (other _) s = refl

  on_queue_keeps {ℓ} :
      {R : Type ℓ} (s : State) (format : Format) (bad : R) (body : Queue → R × Queue × Freed)
      → ((q : Queue)
          → in_queue p b format (body q).1 + returns p b (body q).2 ≡ in_queue p b format q + 0)
      → let s' = (on_queue s format bad body).1 in
        held p b s' + returns p b s'.freed ≡ held p b s + returns p b s.freed + 0
  on_queue_keeps s format bad body h =
      omega (arith, on_queue_balances s format bad body (λ _ _. 0) h, at_queue-zero format s)

  clear_balances_if :
      (format : Format) (q : Queue)
      → (q.count ≢ 0 → q.format ≡ format)
      → in_queue p b format (Admin.clear q).0 + returns p b (Admin.clear q).1
        ≡ in_queue p b format q
  clear_balances_if format q h = elim (Bool-cases (q.count == 0)) [
    | inl e ↦ rw (clear_empty q e) (omega arith)
    | inr e ↦ clear_balances p b format q (h (λ z. ground arith))
  ]

  clear_all_balances :
      (s : State)
      → HasFormats s
      → let s' = (clear_all s).1 in
        held p b s' + returns p b s'.freed ≡ held p b s + returns p b s.freed
  unfolding clear_all
  clear_all_balances s f =
      let x = Admin.clear (s.queue 0) in
      let y = Admin.clear (s.queue 1) in
      let z = Admin.clear (s.queue 2) in
      omega (
        arith,
        clear_balances_if mjpeg (s.queue 0) f.first,
        clear_balances_if h264 (s.queue 1) f.second,
        clear_balances_if yuv (s.queue 2) f.third,
        returns-append p b s.freed x.1,
        returns-append p b (s.freed ++ x.1) y.1,
        returns-append p b ((s.freed ++ x.1) ++ y.1) z.1,
      )

  -- No call loses a frame buffer, duplicates one or gives one back twice: for each buffer of each
  -- pool, the nodes that hold it and the times it was given back, after the call, are those before
  -- it and what the call took from the allocator, if each initialised queue has the format of its index.
  pub step_balances :
      (c : Call) (s : State)
      → HasFormats s
      → held p b (step c s) + returns p b (step c s).freed
        ≡ held p b s + returns p b s.freed + obtained_by c s
  unfolding step obtained_by malloc complete cancel get_frame release_frame register_consumer
      unregister_consumer
  step_balances (mallocs format buffer now) s f =
      on_queue_balances s format none (Producer.malloc format buffer now)
        (λ g. obtained p b g buffer) (malloc-Balances p b format buffer now)
  step_balances (completes format frame header t₁ t₂) s f =
      on_queue_keeps s format bk_fail (Producer.complete frame header t₁ t₂)
        (complete-Balances p b format frame header t₁ t₂)
  step_balances (cancels format frame) s f =
      on_queue_keeps s format bk_fail (Producer.cancel format frame)
        (cancel-Balances p b format frame)
  step_balances (gets format consumer_id) s f =
      on_queue_keeps s format (returned none) (Consumer.get_frame consumer_id none 0 [])
        (get-Balances p b format consumer_id none 0)
  step_balances (releases format consumer_id frame) s f =
      on_queue_keeps s format tt (Consumer.release_frame format consumer_id frame)
        (release-Balances p b format consumer_id frame)
  step_balances (registers format consumer_id) s f =
      on_queue_keeps s format bk_fail (Consumer.register_consumer consumer_id)
        (register-Balances p b format consumer_id)
  step_balances (unregisters format consumer_id) s f =
      on_queue_keeps s format bk_fail (Consumer.unregister_consumer consumer_id)
        (unregister-Balances p b format consumer_id)
  step_balances clears s f = omega (arith, clear_all_balances s f)

-- Calls in a row.
unfoldable pub run : List Call → State → State
run [] s = s
run (c ∷ cs) s = run cs (step c s)

pub step-HasFormats : (c : Call) (s : State) → HasFormats s → HasFormats (step c s)
step-HasFormats c s f = record {
  first = λ h. keep 0 mjpeg f.first h;
  second = λ h. keep 1 h264 f.second h;
  third = λ h. keep 2 yuv f.third h;
}
  where
    keep :
        (i : ℕ) (format : Format)
        → ((s.queue i).count ≢ 0 → (s.queue i).format ≡ format)
        → ((step c s).queue i).count ≢ 0
        → ((step c s).queue i).format ≡ format
    keep i format g h =
        let same = step-SameShape c s i in same.same_format ∙ g (λ z. h (same.same_count ∙ z))

module _ (p : Pool) (b : ℕ) where
  -- What the calls take of the buffer from the allocator.
  unfoldable pub obtained_along : List Call → State → ℕ
  obtained_along [] s = 0
  obtained_along (c ∷ cs) s = obtained_by p b c s + obtained_along cs (step c s)

  -- Along any calls, for each buffer of each pool, the nodes that hold it and the times it was given
  -- back are at the end those of the start and what the calls took of it from the allocator, if each
  -- initialised queue has the format of its index.
  pub run_balances :
      (cs : List Call) (s : State)
      → HasFormats s
      → held p b (run cs s) + returns p b (run cs s).freed
        ≡ held p b s + returns p b s.freed + obtained_along cs s
  unfolding run obtained_along
  run_balances [] s f = omega arith
  run_balances (c ∷ cs) s f =
      omega (arith, step_balances p b c s f, run_balances cs (step c s) (step-HasFormats c s f))
