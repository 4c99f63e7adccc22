-- ===== src/YuvDisplay/Tests.antt =====
-- Frames that are shown without a rotation, and with one.
use bk_solution_doorbell.Base.{ℕ, ◌+◌, ◌≡◌, refl, Bool, true, false, none, some, [], ◌∷◌}
use bk_solution_doorbell.YuvDisplay.{Yuv, rotate_none, rotate_90, Calls, yuv_display_open}
use bk_solution_doorbell.YuvDisplay.Task.{
  Round, Event, stop, frame_ready, no_message, started, task_main,
}
use bk_solution_doorbell.YuvDisplay.Task.Frames.{gives, gets, refusals, held, task_main-Moves}
use bk_solution_doorbell.YuvDisplay.Resources.{
  after, nothing, held_with, IsOpenWith, is_ok, is_some, yuv_display_open-held,
}

abbrev upright : Yuv
upright = record { task_running = true; rotate_angle = rotate_none; display_handle = true }

abbrev turned : Yuv
turned = record { task_running = true; rotate_angle = rotate_90; display_handle = true }

abbrev round : Event → (frame : ℕ) → (flush : Bool) → Round
round popped frame flush = record {
  popped = popped;
  frame = some frame;
  malloc = some 100;
  config = true;
  enable = true;
  flush = flush;
  flush_rotated = true;
}

refused_twice : gives 7 (task_main upright (round no_message 7 false ∷ []) started).1 ≡ 2
unfolding task_main started
refused_twice = refl

rotated_once :
    gives 7 (task_main turned (round no_message 7 true ∷ round frame_ready 8 true ∷ []) started).1
    ≡ 1
unfolding task_main started
rotated_once = refl

task_main-Moves_example :
    let rounds = round no_message 7 true ∷ round frame_ready 8 true ∷ round stop 9 true ∷ [] in
    let (t, es) = task_main turned rounds started in
    gives 8 es + held 8 t.processing_frame ≡ gets 8 es + refusals 8 es
task_main-Moves_example =
    task_main-Moves 8 turned
      (round no_message 7 true ∷ round frame_ready 8 true ∷ round stop 9 true ∷ [])

abbrev no_thread : Calls
no_thread = record {
  malloc = true;
  rott_init = true;
  semaphore = true;
  queue = true;
  register = true;
  thread = false;
  push_stop = true;
}

yuv_display_open-held_example :
    let (err, s, acts) = yuv_display_open true 90 no_thread none in
    (is_ok err ≡ is_some s) × (after acts nothing ≡ held_with 90 s) × IsOpenWith 90 true s
yuv_display_open-held_example = yuv_display_open-held true 90 no_thread
