-- ===== src/YuvDisplay.antt =====
-- components/smart_lock/src/yuv_display/yuv_display.c: frames of a camera that go to the display without
-- a decoder, rotated by the hardware if need be. Here how it is opened and closed; `Task` is its thread.
-- What calls of the SDK and of the frame queue return are arguments.
pub mod Resources
pub mod Task
mod Tests
use bk_solution_doorbell.Base.{
  ℕ, Bool, true, false, not, ◌&&◌, Option, none, some, List, [], ◌∷◌, ◌++◌, ◌==◌, if◌then◌else◌,
}

-- `media_rotate_t`.
pub data Rotate : Type 0 where
  rotate_none rotate_90 rotate_180 rotate_270 : Rotate

unfoldable pub get_rotate_angle : ℕ → Rotate
get_rotate_angle rotate =
    if rotate == 90
    then rotate_90
    else if rotate == 180
    then rotate_180
    else if rotate == 270
    then rotate_270
    else rotate_none

-- `yuv_display_task_t` without its task's frames, its thread and its queue, which exist
-- while the task runs.
pub record Yuv : Type 0 where
  pub task_running : Bool
  pub rotate_angle : Rotate
  pub display_handle : Bool

-- `rotate_angle != ROTATE_NONE`, as yuv_display_open sets it.
abbrev pub rotate_enabled : Yuv → Bool
rotate_enabled y = elim y.rotate_angle [ rotate_none ↦ false | _ ↦ true ]

-- Whether the angle is 90 or 270.
abbrev pub is_hardware : Rotate → Bool
is_hardware rotate_90 = true
is_hardware rotate_270 = true
is_hardware rotate_none = false
is_hardware rotate_180 = false

-- `rotate_enabled && (rotate_angle == ROTATE_90 || rotate_angle == ROTATE_270)`.
unfoldable pub rotates : Yuv → Bool
rotates y = rotate_enabled y && is_hardware y.rotate_angle

-- `bk_err_t`: `failed` is an error of the SDK or of the frame queue that is passed on.
pub data Err : Type 0 where
  ok failed no_mem : Err

-- The calls that leave the file, with what they returned.
pub data Action : Type 0 where
  malloc rott_init init_semaphore init_queue register_consumer create_thread : Bool → Action
  push_stop : Bool → Action
  rott_int_register rott_deinit deinit_queue deinit_semaphore unregister_consumer free : Action
  get_semaphore : Action
  release_remaining : (frame : ℕ) → Action

pub record Calls : Type 0 where
  pub malloc : Bool
  pub rott_init : Bool
  pub semaphore : Bool
  pub queue : Bool
  pub register : Bool
  pub thread : Bool
  pub push_stop : Bool

abbrev pub if_rotates : Yuv → List Action → List Action
if_rotates y acts = if rotates y then acts else []

-- The label `error` of yuv_display_open.
abbrev pub open_error : (queue semaphore : Bool) → Yuv → List Action
open_error queue semaphore y =
    (if queue then deinit_queue ∷ [] else [])
    ++ (if semaphore then deinit_semaphore ∷ [] else [])
    ++ if_rotates y (rott_deinit ∷ [])
    ++ (free ∷ [])

-- yuv_display_open from the semaphore on. The thread sets `task_running` before it gives the semaphore.
unfoldable pub open_task : Calls → Yuv → Err × Option Yuv × List Action
unfolding rotates
open_task c y =
    if not c.semaphore
    then (failed, none, init_semaphore false ∷ open_error false false y)
    else if not c.queue
    then (failed, none, init_semaphore true ∷ init_queue false ∷ open_error false true y)
    else if not c.register
    then (
      failed,
      none,
      init_semaphore true ∷ init_queue true ∷ register_consumer false ∷ open_error true true y,
    )
    else if not c.thread
    then (
      failed,
      none,
      init_semaphore true
          ∷ init_queue true
          ∷ register_consumer true
          ∷ create_thread false
          ∷ unregister_consumer
          ∷ open_error true true y,
    )
    else (
      ok,
      some (record y { task_running = true }),
      init_semaphore true
          ∷ init_queue true
          ∷ register_consumer true
          ∷ create_thread true
          ∷ get_semaphore
          ∷ [],
    )

-- yuv_display_open for a device structure that exists.
unfoldable pub yuv_display_open :
    (display_handle : Bool) (rotate_angle : ℕ) → Calls → Option Yuv → Err × Option Yuv × List Action
unfolding get_rotate_angle rotates open_task
yuv_display_open display_handle rotate_angle c (some y) = (ok, some y, [])
yuv_display_open display_handle rotate_angle c none =
    let y : Yuv = record {
      task_running = false;
      rotate_angle = get_rotate_angle rotate_angle;
      display_handle = display_handle;
    } in
    let (err, s, acts) = open_task c y in
    if not c.malloc
    then (no_mem, none, malloc false ∷ [])
    else if rotates y && not c.rott_init
    then (failed, none, malloc true ∷ rott_init false ∷ open_error false false y)
    else (err, s, malloc true ∷ (if_rotates y (rott_init true ∷ rott_int_register ∷ []) ++ acts))

-- The loop of yuv_display_close over the frames that are left in the queue.
abbrev pub release_all : List ℕ → List Action
release_all [] = []
release_all (f ∷ fs) = release_remaining f ∷ release_all fs

-- The calls of yuv_display_close after that loop.
abbrev pub last_calls : Yuv → List Action
last_calls y =
    (unregister_consumer ∷ deinit_queue ∷ deinit_semaphore ∷ [])
    ++ if_rotates y (rott_deinit ∷ [])
    ++ (free ∷ [])

-- yuv_display_close; `remaining` are the frames that the consumer has not seen.
unfoldable pub yuv_display_close :
    Calls → (remaining : List ℕ) → Option Yuv → Err × Option Yuv × List Action
unfolding rotates
yuv_display_close c remaining none = (ok, none, [])
yuv_display_close c remaining (some y) =
    if not y.task_running
    then (ok, some y, [])
    else (ok, none, push_stop c.push_stop ∷ get_semaphore ∷ (release_all remaining ++ last_calls y))

unfoldable pub yuv_display_is_running : Option Yuv → Bool
yuv_display_is_running none = false
yuv_display_is_running (some y) = y.task_running
