-- ===== src/FrameQueue/State.antt =====
-- The array `frame_queue_v2[FB_LIST_MAX_COUNT]`, the public functions, and their calls as steps.
use bk_solution_doorbell.Base.{ℕ, Bool, Option, none, some, List, [], ◌++◌, ◌==◌, if◌then◌else◌}
use bk_solution_doorbell.FrameQueue.Node.{
  Format, mjpeg, h264, yuv, list_index, Status, bk_ok, bk_fail,
}
use bk_solution_doorbell.FrameQueue.Queue.{Queue, Freed, cleared}
use bk_solution_doorbell.FrameQueue.Producer
use bk_solution_doorbell.FrameQueue.Producer.{FrameHeader}
use bk_solution_doorbell.FrameQueue.Consumer
use bk_solution_doorbell.FrameQueue.Consumer.{Wait, Outcome, returned}
use bk_solution_doorbell.FrameQueue.Admin
use bk_solution_doorbell.FrameQueue.Admin.{Stats}

-- `freed` logs the calls of the two free functions, in order.
pub record State : Type 0 where
  pub queue : ℕ → Queue
  pub freed : Freed

abbrev pub update : (ℕ → Queue) → ℕ → Queue → ℕ → Queue
update queue i q j = if i == j then q else queue j

-- The static array before any call.
unfoldable pub boot : State
unfolding cleared
boot = record { queue = λ _. cleared mjpeg; freed = [] }

abbrev pub commit {ℓ} : {R : Type ℓ} → State → ℕ → R × Queue × Freed → R × State
commit s i (r, q, freed) = (r, record { queue = update s.queue i q; freed = s.freed ++ freed })

-- The two checks that open each function: a known format, and an initialised queue.
unfoldable pub on_queue {ℓ} :
    {R : Type ℓ} → State → Format → R → (Queue → R × Queue × Freed) → R × State
unfolding list_index
on_queue s format bad body = elim (list_index format) [
  | none ↦ (bad, s)
  | some i ↦ if (s.queue i).count == 0 then (bad, s) else commit s i (body (s.queue i))
]

unfoldable pub init : Format → Status → (ℕ → Option ℕ) → (now : ℕ) → State → Status × State
unfolding list_index Admin.init
init format semaphore alloc now s = elim (list_index format) [
  | none ↦ (bk_fail, s)
  | some i ↦ let (r, q) = Admin.init format semaphore alloc now (s.queue i) in commit s i (r, q, [])
]

abbrev pub is_ok : Status → Bool
is_ok = elim [ bk_ok ↦ Bool.true | _ ↦ Bool.false ]

-- What the kernel's calls return while the three queues are set up.
pub record Resources : Type 0 where
  pub semaphore : Format → Status
  pub alloc : Format → ℕ → Option ℕ
  pub now : ℕ

unfoldable pub init_all : Resources → State → Status × State
unfolding init
init_all r s =
    let (a, s₁) = init mjpeg (r.semaphore mjpeg) (r.alloc mjpeg) r.now s in
    let (b, s₂) = init h264 (r.semaphore h264) (r.alloc h264) r.now s₁ in
    let (c, s₃) = init yuv (r.semaphore yuv) (r.alloc yuv) r.now s₂ in
    if is_ok a
    then if is_ok b then if is_ok c then (bk_ok, s₃) else (bk_fail, s₃) else (bk_fail, s₂)
    else (bk_fail, s₁)

unfoldable pub deinit : Format → State → Status × State
unfolding list_index Admin.deinit
deinit format s = elim (list_index format) [
  | none ↦ (bk_fail, s)
  | some i ↦ commit s i (Admin.deinit format (s.queue i))
]

unfoldable pub deinit_all : State → Status × State
unfolding deinit
deinit_all s = (bk_ok, (deinit yuv (deinit h264 (deinit mjpeg s).1).1).1)

abbrev clear_at : ℕ → State → State
clear_at i s =
    let (q, freed) = Admin.clear (s.queue i) in
    record { queue = update s.queue i q; freed = s.freed ++ freed }

unfoldable pub clear_all : State → Status × State
unfolding Admin.clear
clear_all s = (bk_ok, clear_at 2 (clear_at 1 (clear_at 0 s)))

unfoldable pub register_consumer : Format → (consumer_id : ℕ) → State → Status × State
unfolding on_queue Consumer.register_consumer
register_consumer format consumer_id s =
    on_queue s format bk_fail (Consumer.register_consumer consumer_id)

unfoldable pub unregister_consumer : Format → (consumer_id : ℕ) → State → Status × State
unfolding on_queue Consumer.unregister_consumer
unregister_consumer format consumer_id s =
    on_queue s format bk_fail (Consumer.unregister_consumer consumer_id)

unfoldable pub malloc :
    Format → (buffer : Option ℕ) → (now : ℕ) → State → Option (ℕ × FrameHeader) × State
unfolding on_queue Producer.malloc
malloc format buffer now s = on_queue s format none (Producer.malloc format buffer now)

unfoldable pub complete :
    Format → (frame : Option ℕ) → FrameHeader → (t₁ t₂ : ℕ) → State → Status × State
unfolding on_queue Producer.complete
complete format frame header t₁ t₂ s =
    on_queue s format bk_fail (Producer.complete frame header t₁ t₂)

unfoldable pub cancel : Format → (frame : Option ℕ) → State → Status × State
unfolding on_queue Producer.cancel
cancel format frame s = on_queue s format bk_fail (Producer.cancel format frame)

unfoldable pub get_frame :
    Format
    → (consumer_id : ℕ) (timeout : Option ℕ) (elapsed : ℕ) → List Wait
    → State
    → Outcome × State
unfolding on_queue Consumer.get_frame
get_frame format consumer_id timeout elapsed waits s =
    on_queue s format (returned none) (Consumer.get_frame consumer_id timeout elapsed waits)

unfoldable pub release_frame :
    Format → (consumer_id : ℕ) → (frame : Option ℕ) → State → Unit {0} × State
unfolding on_queue Consumer.release_frame
release_frame format consumer_id frame s =
    on_queue s format tt (Consumer.release_frame format consumer_id frame)

unfoldable pub get_stats : Format → State → Option Stats
unfolding list_index Admin.get_stats
get_stats format s = elim (list_index format) [ none ↦ none | some i ↦ Admin.get_stats (s.queue i) ]

-- The calls that producers, consumers and the administration make between `init` and `deinit`. A
-- `gets` is one search of `get_frame`; a call that waits is several of them, with other calls between.
pub data Call : Type 0 where
  mallocs : Format → (buffer : Option ℕ) → (now : ℕ) → Call
  completes : Format → (frame : Option ℕ) → FrameHeader → (t₁ t₂ : ℕ) → Call
  cancels : Format → (frame : Option ℕ) → Call
  gets : Format → (consumer_id : ℕ) → Call
  releases : Format → (consumer_id : ℕ) → (frame : Option ℕ) → Call
  registers : Format → (consumer_id : ℕ) → Call
  unregisters : Format → (consumer_id : ℕ) → Call
  clears : Call

unfoldable pub step : Call → State → State
step (mallocs format buffer now) s = (malloc format buffer now s).1
step (completes format frame header t₁ t₂) s = (complete format frame header t₁ t₂ s).1
step (cancels format frame) s = (cancel format frame s).1
step (gets format consumer_id) s = (get_frame format consumer_id none 0 [] s).1
step (releases format consumer_id frame) s = (release_frame format consumer_id frame s).1
step (registers format consumer_id) s = (register_consumer format consumer_id s).1
step (unregisters format consumer_id) s = (unregister_consumer format consumer_id s).1
step clears s = (clear_all s).1
