-- ===== src/Devices/Handles/Capture.antt =====
-- The camera commands (`Devices/Cameras.antt`) against the handles they use.
use bk_solution_doorbell.Base.{
  refl, inl, inr, Bool, true, Option, some, List, [], ◌∷◌, ◌++◌, arith, if◌then◌else◌, Bool-cases,
}
use bk_solution_doorbell.FrameQueue.Node.{mjpeg, h264}
use bk_solution_doorbell.Camera.{
  uvc_camera_turn_on, uvc_camera_turn_off, dvp_camera_turn_on, dvp_camera_turn_off,
}
use bk_solution_doorbell.Command.{CameraParameters}
use bk_solution_doorbell.YuvDisplay.{Yuv}
use bk_solution_doorbell.Devices.{
  hw_rotate, Ret, Info, Action, queue_init_all, queue_clear_all, bluetooth_deinit,
  unregister_consumer, flash_register, flash_unregister, Calls, consumer_decoder, is_ok,
}
use bk_solution_doorbell.Devices.Cameras.{
  h264_encode_turn_on, turn_on, open_display, open_pipeline, camera_open, turn_off, camera_close,
  open_camera, camera_turn_on, camera_turn_off,
}
use bk_solution_doorbell.Devices.System.{kept}
use bk_solution_doorbell.Devices.Handles.{
  Accounts, IsQuiet, camera-IsQuiet, Accounts-append, IsQuiet-Accounts, IsQuiet-append,
}
use bk_solution_doorbell.Devices.Handles.Decoding.{mjpeg_decode_open-Accounts}

h264_encode_turn_on-Accounts :
    (p : CameraParameters) (c : Calls) (i : Info)
    → let (_, i', acts) = h264_encode_turn_on p c i in Accounts i i' acts
unfolding h264_encode_turn_on
h264_encode_turn_on-Accounts p c i = ground arith

turn_on-Accounts :
    (p : CameraParameters) (c : Calls) (i : Info)
    → let (_, i', acts) = turn_on p c i in Accounts i i' acts
unfolding turn_on
turn_on-Accounts p c i = ground (
  arith,
  camera-IsQuiet (uvc_camera_turn_on c.config p.width p.height c.camera).2,
  camera-IsQuiet (dvp_camera_turn_on c.gpio c.camera).1,
)

open_display-Accounts :
    (p : CameraParameters) (c : Calls) (i : Info) (y : Option Yuv)
    → let (_, i', _, acts) = open_display p c i y in Accounts i i' acts
unfolding open_display
open_display-Accounts p c i y = ground (arith, mjpeg_decode_open-Accounts hw_rotate p.rotate c i y)

open_pipeline-Accounts :
    (p : CameraParameters) (c : Calls) (i : Info) (y : Option Yuv)
    → let (_, i', _, acts) = open_pipeline p c i y in Accounts i i' acts
unfolding open_pipeline
open_pipeline-Accounts p c i y =
    let (_, i1, acts1) = h264_encode_turn_on p c i in
    let (_, i2, _, acts2) = open_display p c i1 y in
    let first = h264_encode_turn_on-Accounts p c i in
    ground (
      arith,
      first,
      open_display-Accounts p c i y,
      Accounts-append i i1 i2 acts1 acts2 first (open_display-Accounts p c i1 y),
    )

camera_open-Accounts :
    (p : CameraParameters) (c : Calls) (i : Info) (y : Option Yuv)
    → let (_, i', _, acts) = camera_open p c i y in Accounts i i' acts
unfolding camera_open
camera_open-Accounts p c i y =
    let i0 = record i { transfer_format = h264 } in
    let (_, i1, acts1) = turn_on p c i0 in
    let (_, i2, _, acts2) = open_pipeline p c i1 y in
    let first = turn_on-Accounts p c i0 in
    ground
      (arith, first, Accounts-append i0 i1 i2 acts1 acts2 first (open_pipeline-Accounts p c i1 y))

before-Accounts :
    (b : Bool) (i i' : Info) (acts : List Action)
    → Accounts i i' acts
    → Accounts i i' ((if b then bluetooth_deinit ∷ [] else []) ++ (queue_init_all true ∷ acts))
before-Accounts b i i' acts h = ground (arith, h)

notified-Accounts :
    (r : Ret) (i i' : Info) (acts : List Action)
    → Accounts i i' acts
    → Accounts i i' (acts ++ (if is_ok r then flash_register ∷ [] else []))
notified-Accounts r i i' acts h =
    let notify = if is_ok r then flash_register ∷ [] else [] in
    Accounts-append i i' i' acts notify h (ground arith)

open_camera-Accounts :
    (p : CameraParameters) (c : Calls) (i : Info) (y : Option Yuv)
    → let (_, i', _, acts) = open_camera p c i y in Accounts i i' acts
unfolding open_camera
open_camera-Accounts p c i y =
    let (ret, i', _, acts) = camera_open p c i y in
    let notify = if is_ok ret then flash_register ∷ [] else [] in
    let opened = notified-Accounts ret i i' acts (camera_open-Accounts p c i y) in
    elim (Bool-cases c.queue_init) [
      | inl e ↦ simp e (before-Accounts c.bluetooth i i' (acts ++ notify) opened)
      | inr e ↦ simp e (ground arith)
    ]

pub camera_turn_on-Accounts :
    (p : CameraParameters) (c : Calls) (i : Info) (y : Option Yuv)
    → let (_, i', _, acts) = camera_turn_on p c (some i) y in Accounts i (kept i i') acts
unfolding camera_turn_on
camera_turn_on-Accounts p c i y = elim (Bool-cases i.handle) [
  | inl e ↦ simp e (IsQuiet-Accounts i [] (refl, refl, refl))
  | inr e ↦ simp e (open_camera-Accounts p c i y)
]

turn_off-IsQuiet : (c : Calls) (i : Info) → IsQuiet (turn_off c i).1
unfolding turn_off
turn_off-IsQuiet c i = ground (
  arith,
  camera-IsQuiet (uvc_camera_turn_off c.camera).1,
  camera-IsQuiet (dvp_camera_turn_off c.gpio c.camera).1,
)

camera_close-IsQuiet : (c : Calls) (i : Info) → IsQuiet (camera_close c i).1
unfolding camera_close
camera_close-IsQuiet c i =
    let unregister = if i.lcd_device then [] else unregister_consumer mjpeg consumer_decoder ∷ [] in
    ground (arith, IsQuiet-append (turn_off c i).1 unregister (turn_off-IsQuiet c i))

pub camera_turn_off-Accounts :
    (c : Calls) (i : Info)
    → let (_, i', acts) = camera_turn_off c (some i) in Accounts i (kept i i') acts
unfolding camera_turn_off
camera_turn_off-Accounts c i =
    let clear = flash_unregister ∷ (if i.display_ctlr_handle then [] else queue_clear_all ∷ []) in
    ground (
      arith,
      camera_close-IsQuiet c i,
      IsQuiet-append (camera_close c i).1 clear (camera_close-IsQuiet c i),
    )
