-- ===== src/YuvDisplay/Resources.antt =====
-- What the display of YUV frames holds of the system while it is open and after it was closed.
use bk_solution_doorbell.Base.{
  ℕ, ◌≡◌, refl, ◌∙◌, Bool, true, false, ◌||◌, ◌==◌, if◌then◌else◌, Option, none, some, List, [],
  ◌∷◌, ◌++◌, arith,
}
use bk_solution_doorbell.YuvDisplay.{
  Rotate, rotate_none, rotate_90, rotate_180, rotate_270, get_rotate_angle, Yuv, rotates, Err, ok,
  failed, no_mem, Action, malloc, rott_init, init_semaphore, init_queue, register_consumer,
  create_thread, push_stop, rott_deinit, deinit_queue, deinit_semaphore, unregister_consumer, free,
  Calls, open_task, yuv_display_open, release_all, last_calls, yuv_display_close,
}

pub record Held : Type 0 where
  pub memory : Bool
  pub rotation : Bool
  pub semaphore : Bool
  pub queue : Bool
  pub consumer : Bool
  pub thread : Bool

-- What one call changes. A failed call changes nothing, and the thread ends after a stop message.
abbrev pub apply : Action → Held → Held
apply (malloc true) h = record h { memory = true }
apply free h = record h { memory = false }
apply (rott_init true) h = record h { rotation = true }
apply rott_deinit h = record h { rotation = false }
apply (init_semaphore true) h = record h { semaphore = true }
apply deinit_semaphore h = record h { semaphore = false }
apply (init_queue true) h = record h { queue = true }
apply deinit_queue h = record h { queue = false }
apply (register_consumer true) h = record h { consumer = true }
apply unregister_consumer h = record h { consumer = false }
apply (create_thread true) h = record h { thread = true }
apply (push_stop true) h = record h { thread = false }
apply _ h = h

abbrev pub after : List Action → Held → Held
after [] h = h
after (a ∷ as') h = after as' (apply a h)

abbrev pub nothing : Held
nothing = record {
  memory = false;
  rotation = false;
  semaphore = false;
  queue = false;
  consumer = false;
  thread = false;
}

abbrev pub everything : (rotation : Bool) → Held
everything rotation = record {
  memory = true;
  rotation = rotation;
  semaphore = true;
  queue = true;
  consumer = true;
  thread = true;
}

-- What is held for `s_yuv_display`.
abbrev pub held_for : Option Yuv → Held
held_for none = nothing
held_for (some y) = everything (rotates y)

abbrev pub is_ok : Err → Bool
is_ok ok = true
is_ok failed = false
is_ok no_mem = false

abbrev pub is_some : Option Yuv → Bool
is_some none = false
is_some (some _) = true

-- The angle that a frame is turned by, as a number of degrees.
abbrev pub degrees : Rotate → ℕ
degrees rotate_none = 0
degrees rotate_90 = 90
degrees rotate_180 = 180
degrees rotate_270 = 270

-- A display that was opened with an angle runs, with that angle; an angle of no quarter turns is none.
abbrev pub IsOpenWith : (angle : ℕ) (display_handle : Bool) → Option Yuv → Type 0
IsOpenWith angle display_handle none = Unit
IsOpenWith angle display_handle (some y) =
    (y.task_running ≡ true)
    × (y.display_handle ≡ display_handle)
    × (degrees y.rotate_angle ≡ (if angle == 90 || angle == 180 || angle == 270 then angle else 0))

-- What an open display holds for the angle that it was opened with, and a closed one.
abbrev pub held_with : (angle : ℕ) → Option Yuv → Held
held_with angle none = nothing
held_with angle (some y) = everything (angle == 90 || angle == 270)

-- From nothing, yuv_display_open returns BK_OK exactly if the display is then open. What is held afterwards is everything,
-- with the rotation exactly if the angle that was asked for is 90 or 270, if it is open, and nothing, whichever call failed, if
-- not. An open display runs with the handle that it was given, and with that angle if it is 90, 180 or 270 and none otherwise.
pub yuv_display_open-held :
    (display_handle : Bool) (angle : ℕ) (c : Calls)
    → let (err, s, acts) = yuv_display_open display_handle angle c none in
      (is_ok err ≡ is_some s)
      × (after acts nothing ≡ held_with angle s)
      × IsOpenWith angle display_handle s
unfolding yuv_display_open get_rotate_angle rotates open_task
yuv_display_open-held display_handle angle c = ground arith

after-release_all :
    (fs : List ℕ) (rest : List Action) (h : Held) → after (release_all fs ++ rest) h ≡ after rest h
after-release_all [] rest h = refl
after-release_all (f ∷ fs) rest h = after-release_all fs rest h

after-last_calls :
    (y : Yuv) → after (last_calls y) (record (held_for (some y)) { thread = false }) ≡ nothing
unfolding rotates
after-last_calls y = ground arith

-- Closing a display that runs gives everything back if the stop message can be sent.
pub yuv_display_close-held :
    (c : Calls) (remaining : List ℕ) (y : Yuv)
    → c.push_stop ≡ true
    → y.task_running ≡ true
    → let (_, s, acts) = yuv_display_close c remaining (some y) in
      (s ≡ none) × (after acts (held_for (some y)) ≡ nothing)
unfolding yuv_display_close
yuv_display_close-held c remaining y h k =
    let rest =
      after-release_all remaining (last_calls y) (record (held_for (some y)) { thread = false }) in
    simp (h, k) (refl, rest ∙ after-last_calls y)
