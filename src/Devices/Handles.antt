-- ===== src/Devices/Handles.antt =====
-- The controllers of the display and the video pipelines that exist, against the handles to them.
pub mod Decoding
pub mod Capture
pub mod Showing
use bk_solution_doorbell.Base.{
  ℕ, suc, ◌+◌, ◌≡◌, refl, ◌∙◌, inl, inr, Bool, true, Option, some, List, [], ◌∷◌, ◌++◌, map, arith,
  if◌then◌else◌, Bool-cases,
}
use bk_solution_doorbell.FrameQueue.Node.{mjpeg, h264}
use bk_solution_doorbell.Camera
use bk_solution_doorbell.Camera.{
  uvc_camera_turn_on, uvc_camera_turn_off, dvp_camera_turn_on, dvp_camera_turn_off,
}
use bk_solution_doorbell.Command.{CameraParameters, DisplayParameters}
use bk_solution_doorbell.YuvDisplay
use bk_solution_doorbell.YuvDisplay.{
  Yuv, Rotate, get_rotate_angle, yuv_display_open, yuv_display_close, yuv_display_is_running,
}
use bk_solution_doorbell.Devices.{
  RotateMode, hw_rotate, Ret, Info, Action, queue_init_all, queue_clear_all, bluetooth_deinit,
  unregister_consumer, camera, yuv_display, flash_register, flash_unregister, pipeline_new,
  ldo_close, backlight_open, display_new, display_close, display_delete, Calls, consumer_decoder,
  is_ok,
}
use bk_solution_doorbell.Devices.Decoder.{
  open_decoder, mjpeg_decode_open, close_decoder, mjpeg_decode_close,
}
use bk_solution_doorbell.Devices.Cameras.{
  h264_encode_turn_on, turn_on, open_display, open_pipeline, camera_open, turn_off, camera_close,
  open_camera, camera_turn_on, camera_turn_off,
}
use bk_solution_doorbell.Devices.Display.{
  rotate_mode, display_error, start_display, display_turn_off,
}
use bk_solution_doorbell.Devices.System.{kept}

abbrev pub one_if : Bool → ℕ
one_if b = if b then 1 else 0

-- How many display controllers and pipelines were made, and how many controllers deleted.
abbrev pub displays_made : List Action → ℕ
displays_made [] = 0
displays_made (display_new _ true ∷ acts) = suc (displays_made acts)
displays_made (_ ∷ acts) = displays_made acts

abbrev pub displays_deleted : List Action → ℕ
displays_deleted [] = 0
displays_deleted (display_delete ∷ acts) = suc (displays_deleted acts)
displays_deleted (_ ∷ acts) = displays_deleted acts

abbrev pub pipelines_made : List Action → ℕ
pipelines_made [] = 0
pipelines_made (pipeline_new true ∷ acts) = suc (pipelines_made acts)
pipelines_made (_ ∷ acts) = pipelines_made acts

pub displays_made-append :
    (xs ys : List Action) → displays_made (xs ++ ys) ≡ displays_made xs + displays_made ys
displays_made-append [] ys = omega arith
displays_made-append (x ∷ xs) ys = ground (arith, displays_made-append xs ys)

pub displays_deleted-append :
    (xs ys : List Action) → displays_deleted (xs ++ ys) ≡ displays_deleted xs + displays_deleted ys
displays_deleted-append [] ys = omega arith
displays_deleted-append (x ∷ xs) ys = ground (arith, displays_deleted-append xs ys)

pub pipelines_made-append :
    (xs ys : List Action) → pipelines_made (xs ++ ys) ≡ pipelines_made xs + pipelines_made ys
pipelines_made-append [] ys = omega arith
pipelines_made-append (x ∷ xs) ys = ground (arith, pipelines_made-append xs ys)

-- Some actions account for the change of the handles.
abbrev pub Accounts : Info → Info → List Action → Type 0
Accounts i i' acts =
    (displays_made acts + one_if i.display_ctlr_handle
      ≡ displays_deleted acts + one_if i'.display_ctlr_handle)
    × (pipelines_made acts + one_if i.video_pipeline_handle ≡ one_if i'.video_pipeline_handle)

-- Actions that make and delete none.
abbrev pub IsQuiet : List Action → Type 0
IsQuiet acts = (displays_made acts ≡ 0) × (displays_deleted acts ≡ 0) × (pipelines_made acts ≡ 0)

pub camera-IsQuiet : (acts : List Camera.Action) → IsQuiet (map camera acts)
camera-IsQuiet [] = (refl, refl, refl)
camera-IsQuiet (a ∷ acts) = camera-IsQuiet acts

pub yuv-IsQuiet : (acts : List YuvDisplay.Action) → IsQuiet (map yuv_display acts)
yuv-IsQuiet [] = (refl, refl, refl)
yuv-IsQuiet (a ∷ acts) = yuv-IsQuiet acts

pub Accounts-append :
    (i1 i2 i3 : Info) (xs ys : List Action)
    → Accounts i1 i2 xs
    → Accounts i2 i3 ys
    → Accounts i1 i3 (xs ++ ys)
Accounts-append i1 i2 i3 xs ys h k = omega (
  arith,
  displays_made-append xs ys,
  displays_deleted-append xs ys,
  pipelines_made-append xs ys,
  h,
  k,
)

pub IsQuiet-Accounts : (i : Info) (acts : List Action) → IsQuiet acts → Accounts i i acts
IsQuiet-Accounts i acts h = omega (arith, h)

pub IsQuiet-append : (xs ys : List Action) → IsQuiet xs → IsQuiet ys → IsQuiet (xs ++ ys)
IsQuiet-append xs ys h k = omega (
  arith,
  displays_made-append xs ys,
  displays_deleted-append xs ys,
  pipelines_made-append xs ys,
  h,
  k,
)
